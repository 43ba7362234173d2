-- ===== src/Policy/Registry.antt =====
-- src/policy.rs, lines 132 to 183 and 264 to 358: the files of the policy, of its state, and the
-- registry of snapshots.
pub mod Saved
pub mod Parsed
pub mod Retention
use soal.Base.{
  ℕ, ◌-◌, Bool, true, false, not, Bytes, List, [], ◌∷◌, ◌++◌, String, leb, ◌==◌, if◌then◌else◌,
  length, drop, max, Option, none, some, Result, ok, err, SoalError, Message,
}
use soal.Content.{ContentHash, bytes_eq, codes}
use soal.Content.Hex.{HexCrate, to_hex}
use soal.Disk.{Disk, Io, ◌>>=◌, ◌>>◌, pure, lift, exists, call, contents, replace}
use soal.Policy.{VaultPolicy, PolicyState, default_policy, validate}

abbrev pub policy_file : Bytes
policy_file = codes "policy.json"

abbrev pub state_file : Bytes
state_file = codes "policy_state.json"

abbrev pub snapshots_file : Bytes
snapshots_file = codes "snapshots.json"

-- `path.with_extension("json.tmp")` of a name that ends in ".json".
abbrev pub tmp_of : Bytes → Bytes
tmp_of file = file ++ codes ".tmp"

-- What `serde_json::to_string_pretty` and `serde_json::from_str` do for one type.
pub record Json (A : Type 0) : Type 0 where
  pub to_string : A → Bytes
  pub from_str : Bytes → Option A

pub record SnapshotEntry : Type 0 where
  pub hash : Bytes
  pub timestamp : ℕ
  pub message : Bytes
  pub auto : Bool

pub record SnapshotLog : Type 0 where
  pub entries : List SnapshotEntry

abbrev pub no_state : PolicyState
no_state = record {
  last_auto_snapshot_at = 0;
  last_auto_snapshot_head = none;
  auto_snapshot_count = 0;
  updated_at = 0;
}

abbrev pub from_json {ℓ} : {A : Type ℓ} → Option A → Result A
from_json none = err (SoalError.serde (Message.text "json"))
from_json (some a) = ok a

-- `serde_json::from_str(&fs::read_to_string(path)?)?`
unfoldable pub parse_file : {A : Type 0} → Json A → Bytes → Io A
parse_file json file = do call; text ← contents file; lift (from_json (json.from_str text))

unfoldable pub load_or {ℓ} : {A : Type ℓ} → Bool → A → Io A → Io A
load_or true a load = load
load_or false a load = pure a

module _ (json : Json VaultPolicy) where
  unfoldable pub save_policy : VaultPolicy → Io (Unit {0})
  save_policy policy = do
    lift (validate policy)
    replace (tmp_of policy_file) policy_file (json.to_string policy)

  unfoldable pub parse_policy : Io VaultPolicy
  parse_policy = do p ← parse_file json policy_file; lift (validate p); pure p

  unfoldable pub seed_policy : ℕ → Io VaultPolicy
  seed_policy vault_replicas =
      let p : VaultPolicy = record default_policy { min_replicas = max vault_replicas 1 } in
      do save_policy p; pure p

  -- `vault_replicas` is `vault.config.min_replicas`.
  unfoldable pub load_policy : ℕ → Io VaultPolicy
  load_policy vault_replicas d =
      if exists policy_file d then parse_policy d else seed_policy vault_replicas d

module _ (json : Json PolicyState) where
  unfoldable pub load_state : Io PolicyState
  load_state d = load_or (exists state_file d) no_state (parse_file json state_file) d

  unfoldable pub save_state : PolicyState → Io (Unit {0})
  save_state state = replace (tmp_of state_file) state_file (json.to_string state)

-- `entries.retain(|e| e.hash != hex)`
unfoldable pub retain_others : Bytes → List SnapshotEntry → List SnapshotEntry
retain_others digits [] = []
retain_others digits (e ∷ es) =
    let rest = retain_others digits es in if not (bytes_eq e.hash digits) then e ∷ rest else rest

module _ (json : Json SnapshotLog) where
  unfoldable pub load_snapshots : Io SnapshotLog
  load_snapshots d =
      load_or (exists snapshots_file d) (record { entries = [] }) (parse_file json snapshots_file) d

  unfoldable pub save_snapshots : SnapshotLog → Io (Unit {0})
  save_snapshots log = replace (tmp_of snapshots_file) snapshots_file (json.to_string log)

  -- `now` is the clock's time.
  unfoldable pub register_snapshot : HexCrate → ℕ → ContentHash → Bytes → Bool → Io (Unit {0})
  register_snapshot hex now hash message auto = do
    log ← load_snapshots
    save_snapshots (record {
      entries =
          retain_others (to_hex hex hash) log.entries
          ++ (record { hash = to_hex hex hash; timestamp = now; message = message; auto = auto })
            ∷ [];
    })

  unfoldable pub prune_log : ℕ → SnapshotLog → Io ℕ
  prune_log retain log =
      if leb (length log.entries) retain
      then pure 0
      else (let remove = length log.entries - retain in
          do save_snapshots (record { entries = drop remove log.entries }); pure remove)

  unfoldable pub prune_snapshot_registry : ℕ → Io ℕ
  prune_snapshot_registry retain =
      if retain == 0 then pure 0 else (do log ← load_snapshots; prune_log retain log)

  unfoldable pub apply_retention : VaultPolicy → Io ℕ
  apply_retention policy = prune_snapshot_registry policy.retain_snapshots
