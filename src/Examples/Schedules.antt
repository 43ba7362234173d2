-- ===== src/Examples/Schedules.antt =====
-- A vault that takes a timed snapshot, at concrete values.
use soal.Base.{
  ℕ, replicate, zero, suc, ◌≡◌, ◌≢◌, ◌⊎◌, ◌<◌, ◌≤◌, ◌+◌, refl, Bytes, [], ◌∷◌, Option, none, some,
  ok, arith,
}
use soal.Content.{codes}
use soal.Disk.{Disk, quiet, ◌>>=◌, pure}
use soal.Policy.{VaultPolicy, PolicyState, default_policy}
use soal.Policy.Registry.{Json, load_state}
use soal.Vault.{Crates, Vault}
use soal.Vault.Heads.{head, head_file}
use soal.Vault.Heads.Found.{head_of_digits}
use soal.Content.Hex.{to_hex}
use soal.Map.{lookup}
use soal.Examples.Crates.{hex, sum_hash-IsArray}
use soal.Schedule.{maybe_auto_snapshot, auto_snapshot, auto_message}
use soal.Schedule.Pace.{ReadsBack, maybe_auto_snapshot-pace}
use soal.Examples.Vaults.{crates, files, of_length}
use soal.Examples.Members.{config}

-- A text that holds the four fields.
abbrev print_state : PolicyState → Bytes
print_state s = elim s.last_auto_snapshot_head [
  | none ↦ 0 ∷ s.last_auto_snapshot_at ∷ s.auto_snapshot_count ∷ s.updated_at ∷ []
  | some digits ↦ 1 ∷ s.last_auto_snapshot_at ∷ s.auto_snapshot_count ∷ s.updated_at ∷ digits
]

abbrev read_state : Bytes → Option PolicyState
read_state (zero ∷ at ∷ count ∷ updated ∷ digits) = some (record {
  last_auto_snapshot_at = at;
  last_auto_snapshot_head = none;
  auto_snapshot_count = count;
  updated_at = updated;
})
read_state (suc n ∷ at ∷ count ∷ updated ∷ digits) = some (record {
  last_auto_snapshot_at = at;
  last_auto_snapshot_head = some digits;
  auto_snapshot_count = count;
  updated_at = updated;
})
read_state _ = none

abbrev timed_crates : Crates
timed_crates = record crates {
  state_json = record { to_string = print_state; from_str = read_state };
  snapshots_json = record { to_string = λ l. []; from_str = λ s. some (record { entries = [] }) };
}

abbrev pub local : Vault
local = record { name = codes "v"; config = config; key = none; soal_home = none }

abbrev every_ten : VaultPolicy
every_ten = record default_policy { snapshot_interval_secs = 10 }

state-ReadsBack : ReadsBack timed_crates.state_json
state-ReadsBack s =
    go s.last_auto_snapshot_at s.auto_snapshot_count s.updated_at s.last_auto_snapshot_head
  where
    go :
        (at count updated : ℕ) (o : Option Bytes)
        → read_state (
            print_state (record {
              last_auto_snapshot_at = at;
              last_auto_snapshot_head = o;
              auto_snapshot_count = count;
              updated_at = updated;
            }))
          ≡ some (record {
            last_auto_snapshot_at = at;
            last_auto_snapshot_head = o;
            auto_snapshot_count = count;
            updated_at = updated;
          })
    go at count updated none = refl
    go at count updated (some digits) = refl

abbrev snapped_at_20 : Disk
snapped_at_20 = (maybe_auto_snapshot timed_crates local every_ten 20 (codes "x") (quiet files)).1

takes :
    maybe_auto_snapshot timed_crates local every_ten 20 (codes "x") (quiet files)
    ≡ (ok (some (of_length 206)), snapped_at_20)
unfolding soal.Codec.CommitWire.encode_commit_wire soal.Codec.Frame.cid_of soal.Codec.Utf8.is_utf8
    soal.Content.Hex.decode_hash soal.Content.Hex.from_hex soal.Content.Hex.is_ascii_hexdigit
    soal.Content.Hex.to_hex soal.Content.Text.space_back soal.Content.Text.space_front
    soal.Content.Text.trim soal.Content.bytes_eq soal.Content.bytes_ltb soal.Disk.attempt
    soal.Disk.bind_at soal.Disk.call soal.Disk.contents soal.Disk.create soal.Disk.exists
    soal.Disk.lift soal.Disk.move_to soal.Disk.pure soal.Disk.read_file soal.Disk.rename
    soal.Disk.replace soal.Disk.write_all soal.Disk.write_file soal.Disk.◌>>=◌
    soal.Examples.Crates.decode soal.Examples.Crates.encode soal.Map.insert soal.Map.lookup
    soal.Map.remove soal.Network.digits_of soal.Network.u64_to_string
    soal.Policy.Registry.apply_retention soal.Policy.Registry.load_or
    soal.Policy.Registry.load_policy soal.Policy.Registry.load_snapshots
    soal.Policy.Registry.load_state soal.Policy.Registry.parse_file
    soal.Policy.Registry.prune_snapshot_registry soal.Policy.Registry.register_snapshot
    soal.Policy.Registry.save_policy soal.Policy.Registry.save_snapshots
    soal.Policy.Registry.save_state soal.Policy.Registry.seed_policy soal.Policy.snapshot_due
    soal.Policy.validate soal.Schedule.auto_message soal.Schedule.auto_snapshot
    soal.Schedule.maybe_auto_snapshot soal.Schedule.snapshot_if_due soal.Schedule.snapshot_of_head
    soal.Vault.Dual.commit_from_bytes soal.Vault.Dual.commit_hash
    soal.Vault.Dual.commit_legacy_json_hash soal.Vault.Edit.commit_tree soal.Vault.Edit.ignore
    soal.Vault.Edit.retain_by_policy soal.Vault.Edit.snapshot soal.Vault.Edit.snapshot_at
    soal.Vault.Heads.head soal.Vault.Heads.read_head soal.Vault.Heads.read_to_string
    soal.Vault.Heads.set_head soal.Vault.Node.author_of soal.Vault.Node.make_commit
    soal.Vault.Node.sign_at soal.Vault.Objects.commit_path_bin soal.Vault.Objects.commit_path_json
    soal.Vault.Objects.load_commit soal.Vault.Objects.load_commit_json
    soal.Vault.Objects.save_commit soal.Vault.Objects.tree_path_json
    soal.Codec.CommitWire.commit_cid soal.Codec.CommitWire.encode_commit_body soal.Commit.new
    soal.Codec.Frame.frame soal.Codec.Cbor.write_bstr soal.Codec.Cbor.push_uint
    soal.Commit.signature_bytes soal.Codec.Cbor.write_u64 soal.Codec.CommitWire.write_signed_fields
    soal.Codec.CommitWire.wire_version soal.Codec.Cbor.write_tstr
    soal.Codec.CommitWire.author_to_bytes soal.Codec.Fields.write_hashes
    soal.Codec.Cbor.write_array_header soal.Codec.Cbor.write_map_header
takes = refl

head_text : lookup head_file snapped_at_20.files ≡ some (to_hex hex (of_length 206))
unfolding soal.Codec.CommitWire.encode_commit_wire soal.Codec.Frame.cid_of soal.Codec.Utf8.is_utf8
    soal.Content.Hex.decode_hash soal.Content.Hex.from_hex soal.Content.Hex.is_ascii_hexdigit
    soal.Content.Hex.to_hex soal.Content.Text.space_back soal.Content.Text.space_front
    soal.Content.Text.trim soal.Content.bytes_eq soal.Content.bytes_ltb soal.Disk.attempt
    soal.Disk.bind_at soal.Disk.call soal.Disk.contents soal.Disk.create soal.Disk.exists
    soal.Disk.lift soal.Disk.move_to soal.Disk.pure soal.Disk.read_file soal.Disk.rename
    soal.Disk.replace soal.Disk.write_all soal.Disk.write_file soal.Disk.◌>>=◌
    soal.Examples.Crates.decode soal.Examples.Crates.encode soal.Map.insert soal.Map.lookup
    soal.Map.remove soal.Network.digits_of soal.Network.u64_to_string
    soal.Policy.Registry.apply_retention soal.Policy.Registry.load_or
    soal.Policy.Registry.load_policy soal.Policy.Registry.load_snapshots
    soal.Policy.Registry.load_state soal.Policy.Registry.parse_file
    soal.Policy.Registry.prune_snapshot_registry soal.Policy.Registry.register_snapshot
    soal.Policy.Registry.save_policy soal.Policy.Registry.save_snapshots
    soal.Policy.Registry.save_state soal.Policy.Registry.seed_policy soal.Policy.snapshot_due
    soal.Policy.validate soal.Schedule.auto_message soal.Schedule.auto_snapshot
    soal.Schedule.maybe_auto_snapshot soal.Schedule.snapshot_if_due soal.Schedule.snapshot_of_head
    soal.Vault.Dual.commit_from_bytes soal.Vault.Dual.commit_hash
    soal.Vault.Dual.commit_legacy_json_hash soal.Vault.Edit.commit_tree soal.Vault.Edit.ignore
    soal.Vault.Edit.retain_by_policy soal.Vault.Edit.snapshot soal.Vault.Edit.snapshot_at
    soal.Vault.Heads.head soal.Vault.Heads.read_head soal.Vault.Heads.read_to_string
    soal.Vault.Heads.set_head soal.Vault.Node.author_of soal.Vault.Node.make_commit
    soal.Vault.Node.sign_at soal.Vault.Objects.commit_path_bin soal.Vault.Objects.commit_path_json
    soal.Vault.Objects.load_commit soal.Vault.Objects.load_commit_json
    soal.Vault.Objects.save_commit soal.Vault.Objects.tree_path_json
    soal.Codec.CommitWire.commit_cid soal.Codec.CommitWire.encode_commit_body soal.Commit.new
    soal.Codec.Frame.frame soal.Codec.Cbor.write_bstr soal.Codec.Cbor.push_uint
    soal.Commit.signature_bytes soal.Codec.Cbor.write_u64 soal.Codec.CommitWire.write_signed_fields
    soal.Codec.CommitWire.wire_version soal.Codec.Cbor.write_tstr
    soal.Codec.CommitWire.author_to_bytes soal.Codec.Fields.write_hashes
    soal.Codec.Cbor.write_array_header soal.Codec.Cbor.write_map_header
head_text = refl

headed :
    head timed_crates (quiet snapped_at_20.files)
    ≡ (ok (some (of_length 206)), quiet snapped_at_20.files)
headed =
    head_of_digits timed_crates (of_length 206) (sum_hash-IsArray (replicate 206 0))
      snapped_at_20.files head_text

maybe_auto_snapshot-pace_example :
    ((29 < 20 + 10)
      × (maybe_auto_snapshot timed_crates local every_ten 29 (codes "y") (quiet snapped_at_20.files)
          ≡ (ok none, quiet snapped_at_20.files)))
    ⊎ ((20 + 10 ≤ 29)
        × ((maybe_auto_snapshot timed_crates local every_ten 29
              (codes "y")
              (quiet snapped_at_20.files)).0
            ≢ ok none)
        × ((state : PolicyState) × (load_state timed_crates.state_json (quiet snapped_at_20.files)
              ≡ (ok state, quiet snapped_at_20.files))
            × (maybe_auto_snapshot timed_crates local every_ten 29
                  (codes "y")
                  (quiet snapped_at_20.files)
                ≡ (auto_snapshot timed_crates local every_ten 29
                        (auto_message timed_crates (codes "y") 29)
                        state
                      >>= (λ h. pure (some h)))
                    (quiet snapped_at_20.files))))
maybe_auto_snapshot-pace_example =
    maybe_auto_snapshot-pace timed_crates local every_ten 20 (codes "x") (of_length 206)
      (of_length 206) (quiet files) snapped_at_20 (codes "y") 29 state-ReadsBack not_0 takes headed
      (omega arith)
  where
    not_0 : ¬ ◌≡◌ {A = ℕ} 20 0
    not_0 e = omega (arith, e)
