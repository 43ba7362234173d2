-- ===== src/Replication.antt =====
-- src/replication.rs: the pinned chunks of a vault, what peers have announced to have, the estimated
-- replicas of a chunk, and the ranking of peers. The clock's time is `now`. Folders are not modelled;
-- `create_dir_all` is a call that may fail.
pub mod Scores
pub mod Ranked
pub mod Ordered
pub mod Estimates
pub mod Noted
pub mod Under
use soal.Base.{
  ℕ, zero, suc, ◌+◌, ◌-◌, ◌/◌, ◌^◌, Bool, true, false, not, ◌&&◌, ◌||◌, Bytes, List, [], ◌∷◌, ◌++◌,
  map, length, ltb, leb, if◌then◌else◌, Option, none, some, Result, ok, err, panic, ℤ, pos, negsuc,
  sub_ℕ, ltb_ℤ, ◌+ℤ◌, ◌-ℤ◌,
}
use soal.Content.{ContentHash, bytes_eq, bytes_ltb, codes}
use soal.Content.Hex.{to_hex}
use soal.Content.Text.{trim}
use soal.Disk.{Disk, Io, ◌>>=◌, ◌>>◌, pure, call, exists, replace}
use soal.Invite.{to_ascii_lowercase}
use soal.Map
use soal.Map.{Map}
use soal.Paths.{is_empty}
use soal.Policy.{VaultPolicy}
use soal.Policy.Registry.{Json, tmp_of, parse_file, load_or}
use soal.Set.{Hashes, contains, add_all, elements}
use soal.Vault.{Crates, Vault}
use soal.Vault.Heads.{head}
use soal.Vault.Live.{live_chunk_hashes}
use soal.Vault.Objects.{has_commit_object, has_tree_object}
use soal.Vault.Transfer.{has_chunk}

abbrev pub pins_file : Bytes
pins_file = codes "pins.json"

abbrev pub have_file : Bytes
have_file = codes "replication/peer_have.json"

-- A `BTreeSet<String>` is modelled as the set of hashes is, by its members' bytes.
pub record PinSet : Type 0 where
  pub pins : Hashes
  pub updated_at : ℕ

pub record PeerHave : Type 0 where
  pub peers : Map Hashes
  pub updated_at : ℕ

pub record ReplicationStatus : Type 0 where
  pub min_replicas : ℕ
  pub live_chunks : ℕ
  pub pinned_chunks : ℕ
  pub missing_local : ℕ
  pub estimated_under_replicated : ℕ
  pub peers_known : ℕ

abbrev pub no_pins : PinSet
no_pins = record { pins = []; updated_at = 0 }

abbrev pub no_have : PeerHave
no_have = record { peers = []; updated_at = 0 }

-- `.ok()..unwrap_or_default()`: a failure is dropped, an abort is not.
unfoldable pub or_default {ℓ} : {A : Type ℓ} → A → Result A × Disk → Result A × Disk
or_default a (ok b, d) = (ok b, d)
or_default a (err e, d) = (ok a, d)
or_default a (panic, d) = (panic, d)

-- `n` and one for each peer whose set holds the digits.
unfoldable pub count_peers : Bytes → Map Hashes → ℕ → ℕ
count_peers digits [] n = n
count_peers digits ((peer, set) ∷ peers) n =
    count_peers digits peers (if contains digits set then n + 1 else n)

abbrev pub or_empty : Option Hashes → Hashes
or_empty none = []
or_empty (some s) = s

unfoldable pub noted : ℕ → Bytes → List Bytes → PeerHave → PeerHave
noted now peer_id digits have = record {
  peers = Map.insert peer_id (add_all digits (or_empty (Map.lookup peer_id have.peers))) have.peers;
  updated_at = now;
}

-- What the loop of `replication_status` counts.
pub record Tally : Type 0 where
  pub missing : ℕ
  pub under : ℕ

module _ (pins_json : Json PinSet) where
  unfoldable pub load_pins : Io PinSet
  load_pins d = load_or (exists pins_file d) no_pins (parse_file pins_json pins_file) d

  unfoldable pub save_pins : PinSet → Io (Unit {0})
  save_pins pins = replace (tmp_of pins_file) pins_file (pins_json.to_string pins)

module _ (have_json : Json PeerHave) where
  unfoldable pub read_have : Io PeerHave
  read_have d = load_or (exists have_file d) no_have (parse_file have_json have_file) d

  unfoldable pub load_have : Io PeerHave
  load_have d = or_default no_have (parse_file have_json have_file d)

unfoldable pub with_pins : ℕ → List Bytes → PinSet → PinSet
with_pins now digits pins = record { pins = add_all digits pins.pins; updated_at = now }

module _ (crates : Crates) (have_json : Json PeerHave) where
  open crates use {hex}

  unfoldable pub note_peer_has : ℕ → Bytes → List ContentHash → Io (Unit {0})
  note_peer_has now peer_id cids = do
    call
    have ← read_have have_json
    replace (tmp_of have_file) have_file
        (have_json.to_string (noted now peer_id (map (to_hex hex) cids) have))

  -- One replica for the local files, where one of them is there.
  unfoldable pub local_replicas : ContentHash → Disk → ℕ
  local_replicas cid d =
      if has_chunk crates cid d || (has_tree_object crates cid d || has_commit_object crates cid d)
      then 1
      else 0

  unfoldable pub estimated_replicas : ContentHash → Io ℕ
  estimated_replicas cid d =
      (do
        have ← load_have have_json
        pure (count_peers (to_hex hex cid) have.peers (local_replicas cid d)))
        d

  -- The loop over the live chunks.
  unfoldable pub tally : ℕ → List ContentHash → Tally → Io Tally
  tally min [] t d = (ok t, d)
  tally min (h ∷ live) t d =
      (do
        n ← estimated_replicas h
        tally min live (record {
          missing = if not (has_chunk crates h d) then t.missing + 1 else t.missing;
          under = if ltb n min then t.under + 1 else t.under;
        }))
        d

  -- The loop over the live chunks, with those found so far.
  unfoldable pub under_min : ℕ → List ContentHash → List ContentHash → Io (List ContentHash)
  under_min min [] out = pure out
  under_min min (h ∷ live) out = do
    n ← estimated_replicas h
    under_min min live (if ltb n min then out ++ h ∷ [] else out)

  unfoldable pub under_of : Vault → Option Hashes → Io (Option (List ContentHash))
  under_of vault none = pure none
  under_of vault (some live) = do
    out ← under_min vault.config.min_replicas (elements live) []
    pure (some out)

  unfoldable pub under_replicated_chunks : ℕ → Vault → Io (Option (List ContentHash))
  under_replicated_chunks fuel vault = do live ← live_chunk_hashes crates fuel; under_of vault live

module _ (crates : Crates) (pins_json : Json PinSet) where
  open crates use {hex}

  unfoldable pub pin_live : ℕ → Option Hashes → Io (Option ℕ)
  pin_live now none = pure none
  pin_live now (some live) = do
    pins ← load_pins pins_json
    let pinned = with_pins now (map (to_hex hex) (elements live)) pins
    save_pins pins_json pinned
    pure (some (length pinned.pins - length pins.pins))

  -- `none` is a walk over the history that the fuel ended, here and below.
  unfoldable pub ensure_local_pins : ℕ → ℕ → Io (Option ℕ)
  ensure_local_pins fuel now = do live ← live_chunk_hashes crates fuel; pin_live now live

module _ (crates : Crates) (pins_json : Json PinSet) (have_json : Json PeerHave) where
  unfoldable pub status_of : Vault → Option Hashes → Io (Option ReplicationStatus)
  status_of vault none = pure none
  status_of vault (some live) = do
    pins ← load_pins pins_json
    have ← load_have have_json
    t ←
        tally crates have_json vault.config.min_replicas (elements live)
          (record { missing = 0; under = 0 })
    pure (
        some (record {
          min_replicas = vault.config.min_replicas;
          live_chunks = length live;
          pinned_chunks = length pins.pins;
          missing_local = t.missing;
          estimated_under_replicated = t.under;
          peers_known = length have.peers;
        }))

  unfoldable pub replication_status : ℕ → Vault → Io (Option ReplicationStatus)
  replication_status fuel vault = do live ← live_chunk_hashes crates fuel; status_of vault live
