-- ===== src/Replication/Scores.antt =====
-- src/replication.rs, `rank_peers` and `ordered_peers_for_sync`: the scores of peers, and the peers in
-- the order of their scores.
use soal.Base.{
  ℕ, ◌+◌, ◌-◌, ◌/◌, ◌^◌, Bool, true, false, not, ◌&&◌, ◌||◌, Bytes, List, [], ◌∷◌, map, ltb,
  if◌then◌else◌, Option, none, some, ℤ, pos, negsuc, sub_ℕ, ltb_ℤ, ◌+ℤ◌, ◌-ℤ◌,
}
use soal.Content.{bytes_eq, bytes_ltb}
use soal.Content.Hex.{to_hex}
use soal.Content.Text.{trim}
use soal.Disk.{Io, ◌>>=◌, pure}
use soal.Invite.{to_ascii_lowercase}
use soal.Map
use soal.Map.{Map}
use soal.Paths.{is_empty}
use soal.Policy.{VaultPolicy}
use soal.Policy.Registry.{Json}
use soal.Set.{Hashes, contains}
use soal.Vault.{Crates}
use soal.Vault.Heads.{head}
use soal.Replication.{PeerHave, or_default, load_have}

pub record PeerScore : Type 0 where
  pub peer : Bytes
  pub score : ℤ
  pub preferred : Bool
  pub last_seen_secs_ago : Option ℕ
  pub has_head : Bool
  pub alive : Option Bool

-- `s.starts_with(p)` and `s.contains(p)` for a text `p`.
unfoldable pub has_prefix : Bytes → Bytes → Bool
has_prefix [] s = true
has_prefix (a ∷ p) [] = false
has_prefix (a ∷ p) (b ∷ s) = bytes_eq (a ∷ []) (b ∷ []) && has_prefix p s

unfoldable pub has_substring : Bytes → Bytes → Bool
has_substring p [] = has_prefix p []
has_substring p (b ∷ s) = has_prefix p (b ∷ s) || has_substring p s

unfoldable pub eq_ignore_ascii_case : Bytes → Bytes → Bool
eq_ignore_ascii_case a b = bytes_eq (to_ascii_lowercase a) (to_ascii_lowercase b)

unfoldable pub is_preferred : Bytes → Bytes → List Bytes → Bool
is_preferred peer id_part [] = false
is_preferred peer id_part (p ∷ nodes) =
    (eq_ignore_ascii_case peer p || (eq_ignore_ascii_case id_part p || has_substring p peer))
    || is_preferred peer id_part nodes

-- `map.get(a).or_else(|| map.get(b))`
abbrev pub or_else {ℓ} : {A : Type ℓ} → Option A → Option A → Option A
or_else none b = b
or_else (some a) b = some a

unfoldable pub get_or_else {ℓ} : {A : Type ℓ} → Bytes → Bytes → Map A → Option A
get_or_else a b m = or_else (Map.lookup a m) (Map.lookup b m)

-- `ago as i64`, of a `u64`
unfoldable pub as_i64 : ℕ → ℤ
as_i64 n = if ltb n (2 ^ 63) then pos n else sub_ℕ n (2 ^ 64)

-- `a / 36`, which rounds towards 0
unfoldable pub div_36 : ℤ → ℤ
div_36 (pos n) = pos (n / 36)
div_36 (negsuc n) = sub_ℕ 0 ((n + 1) / 36)

-- `a.min(200)`
unfoldable pub min_200 : ℤ → ℤ
min_200 a = if ltb_ℤ (pos 200) a then pos 200 else a

unfoldable pub recency : Option ℕ → ℤ
recency none = negsuc 19
recency (some ago) = pos 100 -ℤ min_200 (div_36 (as_i64 ago))

unfoldable pub liveness : Option Bool → ℤ
liveness none = pos 0
liveness (some true) = pos 200
liveness (some false) = negsuc 299

unfoldable pub secs_ago : ℕ → Option ℕ → Option ℕ
secs_ago now none = none
secs_ago now (some t) = some (now - t)

unfoldable pub holds_head : Bytes → Option Hashes → Bool
holds_head head_hex none = false
holds_head head_hex (some s) = contains head_hex s

-- `peer_id_key`
unfoldable pub peer_id_key : Bytes → Bytes
peer_id_key peer = trim peer

unfoldable pub total : Bool → Option ℕ → Option Bool → Bool → ℤ
total preferred ago alive has_head =
    (if preferred then pos 1000 else pos 0)
    +ℤ recency ago
    +ℤ liveness alive
    +ℤ (if has_head then pos 50 else pos 0)

-- The closure of `rank_peers`.
unfoldable pub score_peer :
    VaultPolicy → Map ℕ → Map Bool → ℕ → PeerHave → Bytes → Bytes → PeerScore
score_peer policy peer_last_seen peer_alive now have head_hex peer =
    let id_part = peer_id_key peer in
    let preferred = is_preferred peer id_part policy.prefer_nodes in
    let ago = secs_ago now (get_or_else peer id_part peer_last_seen) in
    let alive = get_or_else peer id_part peer_alive in
    let has_head =
      not (is_empty head_hex) && holds_head head_hex (get_or_else id_part peer have.peers) in
    record {
      peer = peer;
      score = total preferred ago alive has_head;
      preferred = preferred;
      last_seen_secs_ago = ago;
      has_head = has_head;
      alive = alive;
    }

-- The comparison of `sort_by` says `Less`.
unfoldable pub before : PeerScore → PeerScore → Bool
before a b =
    if ltb_ℤ b.score a.score
    then true
    else if ltb_ℤ a.score b.score
    then false
    else bytes_ltb a.peer b.peer

-- `sort_by`, which keeps the order of items that compare as equal.
unfoldable pub insert_score : PeerScore → List PeerScore → List PeerScore
insert_score a [] = a ∷ []
insert_score a (b ∷ l) = if before b a then b ∷ insert_score a l else a ∷ b ∷ l

unfoldable pub sort_scores : List PeerScore → List PeerScore
sort_scores [] = []
sort_scores (a ∷ l) = insert_score a (sort_scores l)

module _ (crates : Crates) (have_json : Json PeerHave) where
  unfoldable pub hex_or_empty : Option Bytes → Bytes
  hex_or_empty none = []
  hex_or_empty (some h) = to_hex crates.hex h

  unfoldable pub rank_peers : VaultPolicy → List Bytes → Map ℕ → Map Bool → ℕ → Io (List PeerScore)
  rank_peers policy peers peer_last_seen peer_alive now = do
    have ← load_have have_json
    h ← λ d. or_default none (head crates d)
    pure (
        sort_scores
          (map (score_peer policy peer_last_seen peer_alive now have (hex_or_empty h)) peers))

  -- `now` is the time of the clock.
  unfoldable pub ordered_peers_for_sync :
      VaultPolicy → List Bytes → Map ℕ → Map Bool → ℕ → Io (List Bytes)
  ordered_peers_for_sync policy peers peer_last_seen peer_alive now = do
    ranked ← rank_peers policy peers peer_last_seen peer_alive now
    pure (map (λ s. s.peer) ranked)
