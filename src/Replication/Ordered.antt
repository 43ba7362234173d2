-- ===== src/Replication/Ordered.antt =====
-- src/replication.rs, `rank_peers` on a vault's files.
use mathlib.Core.List.{Perm, Pairwise}
use soal.Base.{
  ℕ, ◌^◌, ◌<◌, ◌≡◌, refl, Bool, Bytes, List, map, Option, none, some, Result, ok, err, panic,
}
use soal.Disk.{Disk, Io, ◌>>=◌, bind_at, pure}
use soal.Disk.Steady.{
  IsAnswer, IsSteady, lift-IsSteady, >>=-IsSteady, call-IsSteady, contents-IsSteady,
}
use soal.Map.{Map}
use soal.Policy.{VaultPolicy}
use soal.Policy.Registry.{Json, parse_file, from_json}
use soal.Vault.{Crates}
use soal.Vault.Heads.{head}
use soal.Vault.Heads.Steady.{head-IsSteady}
use soal.Replication.{PeerHave, no_have, have_file, or_default, load_have}
use soal.Replication.Scores.{PeerScore, rank_peers, hex_or_empty}
use soal.Replication.Ranked.{
  IsRanked, Yields, ranking, ranking-Yields, ranking-perm, ranking-IsRanked,
}

from_json-IsAnswer : {A : Type 0} (o : Option A) → IsAnswer (from_json o)
from_json-IsAnswer none = tt
from_json-IsAnswer (some a) = tt

parse_file-IsSteady : {A : Type 0} (json : Json A) (file : Bytes) → IsSteady (parse_file json file)
unfolding parse_file
parse_file-IsSteady json file = >>=-IsSteady _ _ call-IsSteady (λ u.
    >>=-IsSteady _ _ (contents-IsSteady file)
      (λ text. lift-IsSteady _ (from_json-IsAnswer (json.from_str text))))

pub or_default-ok :
    {A : Type 0} (m : Io A)
    → IsSteady m
    → (a : A) (d : Disk) → (b : A) × (d' : Disk) × (or_default a (m d) ≡ (ok b, d'))
unfolding or_default
or_default-ok {A} m h a d = go (m d) (h.answers d)
  where
    go :
        (r : Result A × Disk) → IsAnswer r.0 → (b : A) × (d' : Disk) × (or_default a r ≡ (ok b, d'))
    go (ok b, d') i = (b, d', refl)
    go (err e, d') i = (a, d', refl)
    go (panic, d') i = absurd i

module _ (crates : Crates) (have_json : Json PeerHave) where
  -- At a time below 2^63, and for any sequence of failing calls, rank_peers returns a list that
  -- holds exactly the given peers, each as often as given, in which no peer compares as one to
  -- stand before an earlier one, and in which every peer before a preferred one is preferred.
  pub rank_peers-IsRanked :
      (policy : VaultPolicy) (peers : List Bytes) (peer_last_seen : Map ℕ) (peer_alive : Map Bool)
      (now : ℕ) (d : Disk)
      → now < 2 ^ 63
      → (ranked : List PeerScore) × (d' : Disk) × (rank_peers crates have_json policy peers
            peer_last_seen peer_alive now d
          ≡ (ok ranked, d'))
        × Perm (map (λ s. s.peer) ranked) peers
        × IsRanked ranked
        × Pairwise Yields ranked
  unfolding rank_peers load_have ◌>>=◌ bind_at pure
  rank_peers-IsRanked policy peers seen alive now d small =
      let (have, d1, p) =
        or_default-ok (parse_file have_json have_file) (parse_file-IsSteady have_json have_file)
          no_have d in
      let (h, d2, q) = or_default-ok (head crates) (head-IsSteady crates) none d1 in
      let head_hex = hex_or_empty crates have_json h in
      (
        ranking policy seen alive now have head_hex peers,
        d2,
        rw (p, q) refl,
        ranking-perm policy seen alive now have head_hex peers,
        ranking-IsRanked policy seen alive now have head_hex peers,
        ranking-Yields policy seen alive now have head_hex small peers,
      )
