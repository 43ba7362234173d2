-- ===== src/Policy.antt =====
-- src/policy.rs, lines 19 to 114 and 186 to 242: the policy of a vault and its timed snapshots.
pub mod Times
pub mod Updates
pub mod Registry
use soal.Base.{
  ℕ, ◌+◌, ◌-◌, ◌^◌, max, Bool, true, false, not, ◌&&◌, Bytes, List, [], String, ltb, leb, ◌==◌,
  if◌then◌else◌, Option, none, some, Result, ok, err, SoalError, Message, reject, ◌>>=◌, ◌>>◌,
}

pub record VaultPolicy : Type 0 where
  pub min_replicas : ℕ
  pub snapshot_interval_secs : ℕ
  pub retain_snapshots : ℕ
  pub live_mode : Bool
  pub prefer_nodes : List Bytes
  pub max_head_age_secs : ℕ
  pub label : Option Bytes

abbrev pub default_policy : VaultPolicy
default_policy = record {
  min_replicas = 2;
  snapshot_interval_secs = 0;
  retain_snapshots = 0;
  live_mode = false;
  prefer_nodes = [];
  max_head_age_secs = 0;
  label = none;
}

abbrev pub other : String → SoalError
other m = SoalError.other (Message.text m)

unfoldable pub validate : VaultPolicy → Result (Unit {0})
validate p = do
  reject (p.min_replicas == 0) (other "min_replicas must be >= 1")
  reject (ltb 0 p.snapshot_interval_secs && ltb p.snapshot_interval_secs 5)
      (other "snapshot_interval_secs must be 0 or >= 5")

-- `if let Some(x) = o { field = x; }`
abbrev pub set_to {ℓ} : {A : Type ℓ} → Option A → A → A
set_to none old = old
set_to (some new) old = new

unfoldable pub label_of : Bytes → Option Bytes
label_of [] = none
label_of lab = some lab

unfoldable pub set_replicas : Option ℕ → ℕ → ℕ
set_replicas none old = old
set_replicas (some r) old = max r 1

unfoldable pub set_label : Option Bytes → Option Bytes → Option Bytes
set_label none old = old
set_label (some lab) old = label_of lab

unfoldable pub with_updates :
    VaultPolicy
    → Option ℕ
    → Option ℕ
    → Option ℕ
    → Option Bool
    → Option ℕ
    → Option Bytes
    → Result VaultPolicy
with_updates p min_replicas snapshot_interval_secs retain_snapshots live_mode max_head_age_secs
      label =
    let q : VaultPolicy = record p {
      min_replicas = set_replicas min_replicas p.min_replicas;
      snapshot_interval_secs = set_to snapshot_interval_secs p.snapshot_interval_secs;
      retain_snapshots = set_to retain_snapshots p.retain_snapshots;
      live_mode = set_to live_mode p.live_mode;
      max_head_age_secs = set_to max_head_age_secs p.max_head_age_secs;
      label = set_label label p.label;
    } in
    do validate q; ok q

pub record PolicyState : Type 0 where
  pub last_auto_snapshot_at : ℕ
  pub last_auto_snapshot_head : Option Bytes
  pub auto_snapshot_count : ℕ
  pub updated_at : ℕ

-- `now.saturating_sub(..)` is the subtraction that stops at 0.
unfoldable pub snapshot_due : VaultPolicy → PolicyState → ℕ → Bool
snapshot_due p s now =
    if p.snapshot_interval_secs == 0
    then false
    else if s.last_auto_snapshot_at == 0
    then true
    else leb p.snapshot_interval_secs (now - s.last_auto_snapshot_at)

unfoldable pub secs_until_snapshot : VaultPolicy → PolicyState → ℕ → Option ℕ
secs_until_snapshot p s now =
    if p.snapshot_interval_secs == 0
    then none
    else if s.last_auto_snapshot_at == 0
    then some 0
    else (let elapsed = now - s.last_auto_snapshot_at in
        if leb p.snapshot_interval_secs elapsed
        then some 0
        else some (p.snapshot_interval_secs - elapsed))
