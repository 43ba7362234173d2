-- ===== src/Schedule.antt =====
-- src/policy.rs, `apply_policy`, `maybe_auto_snapshot` and `head_stale`, and src/schedule.rs: what the
-- scheduler does to a vault. One time `now` stands for all readings of the clock in a call.
pub mod Pace
use soal.Base.{
  ℕ, ◌+◌, ◌-◌, Bool, true, false, not, ◌||◌, Bytes, List, [], ◌∷◌, ◌++◌, ltb, ◌==◌, if◌then◌else◌,
  Option, none, some, Result, ok, err, panic, SoalError, Message,
}
use soal.Content.{ContentHash, codes}
use soal.Content.Hex.{to_hex}
use soal.Disk.{Disk, Io, ◌>>=◌, ◌>>◌, pure, lift}
use soal.Invite.{saturating_add}
use soal.Network.{u64_to_string}
use soal.Policy.{VaultPolicy, PolicyState, snapshot_due, validate}
use soal.Policy.Registry.{
  Json, load_state, save_state, load_policy, save_policy, register_snapshot, apply_retention,
}
use soal.Replication.{PinSet, ensure_local_pins, or_default}
use soal.Vault.{Crates, Vault}
use soal.Vault.Config.{Method, answered, set_min_replicas}
use soal.Vault.Edit.{snapshot}
use soal.Vault.Heads.{head}
use soal.Vault.Objects.{load_commit}
use soal.Vault.Sweep.{gc_all}

pub record ScheduleTick : Type 0 where
  pub vault : Bytes
  pub snapshot : Option Bytes
  pub pins_added : ℕ
  pub snapshots_pruned : ℕ
  pub gc_removed : ℕ
  pub skipped_reason : Option Bytes

-- The state after a snapshot.
unfoldable pub snapped : PolicyState → ℕ → Bytes → PolicyState
snapped s now digits = record {
  last_auto_snapshot_at = now;
  last_auto_snapshot_head = some digits;
  auto_snapshot_count = saturating_add s.auto_snapshot_count 1;
  updated_at = now;
}

module _ (crates : Crates) where
  open crates use {hex}

  unfoldable pub stale_at : VaultPolicy → ℕ → Option ContentHash → Io Bool
  stale_at policy now none = pure false
  stale_at policy now (some h) = do
    c ← load_commit crates h
    pure (ltb policy.max_head_age_secs (now - c.timestamp))

  unfoldable pub head_stale : VaultPolicy → ℕ → Io Bool
  head_stale policy now =
      if policy.max_head_age_secs == 0
      then pure false
      else (do h ← head crates; stale_at policy now h)

  -- `r?` in a method, with the vault that it leaves.
  unfoldable pub then_set :
      VaultPolicy → Vault → Result (Unit {0}) × Disk → Result (Unit {0}) × Vault × Disk
  then_set policy vault (ok u, d) =
      if not (vault.config.min_replicas == policy.min_replicas)
      then set_min_replicas crates policy.min_replicas vault d
      else (ok tt, vault, d)
  then_set policy vault (err e, d) = (err e, vault, d)
  then_set policy vault (panic, d) = (panic, vault, d)

  unfoldable pub apply_policy : VaultPolicy → Method VaultPolicy
  apply_policy policy vault d =
      answered policy (
        then_set policy vault
          ((do lift (validate policy); save_policy crates.policy_json policy) d))

  unfoldable pub auto_message : Bytes → ℕ → Bytes
  auto_message message_prefix now = message_prefix ++ (codes " auto @" ++ u64_to_string now)

  unfoldable pub auto_snapshot : Vault → VaultPolicy → ℕ → Bytes → PolicyState → Io ContentHash
  auto_snapshot vault policy now msg state = do
    h ← snapshot crates vault now msg
    register_snapshot crates.snapshots_json hex now h msg true
    pruned ← apply_retention crates.snapshots_json policy
    save_state crates.state_json (snapped state now (to_hex hex h))
    pure h

  unfoldable pub snapshot_of_head :
      Vault → VaultPolicy → ℕ → Bytes → PolicyState → Option ContentHash → Io (Option ContentHash)
  snapshot_of_head vault policy now message_prefix state none = pure none
  snapshot_of_head vault policy now message_prefix state (some current) = do
    h ← auto_snapshot vault policy now (auto_message message_prefix now) state
    pure (some h)

  unfoldable pub snapshot_if_due :
      Vault → VaultPolicy → ℕ → Bytes → PolicyState → Io (Option ContentHash)
  snapshot_if_due vault policy now message_prefix state =
      if not (snapshot_due policy state now)
      then pure none
      else (do h ← head crates; snapshot_of_head vault policy now message_prefix state h)

  unfoldable pub maybe_auto_snapshot : Vault → VaultPolicy → ℕ → Bytes → Io (Option ContentHash)
  maybe_auto_snapshot vault policy now message_prefix = do
    state ← load_state crates.state_json
    snapshot_if_due vault policy now message_prefix state

  unfoldable pub force_of_head :
      Vault → VaultPolicy → ℕ → Bytes → PolicyState → Option ContentHash → Io ContentHash
  force_of_head vault policy now message state none =
      lift (err (SoalError.other (Message.text "no HEAD to snapshot")))
  force_of_head vault policy now message state (some current) = do
    h ← snapshot crates vault now message
    pruned ← apply_retention crates.snapshots_json policy
    save_state crates.state_json (snapped state now (to_hex hex h))
    pure h

  unfoldable pub force_auto_snapshot : Vault → ℕ → Bytes → Io ContentHash
  force_auto_snapshot vault now message = do
    policy ← load_policy crates.policy_json vault.config.min_replicas
    state ← load_state crates.state_json
    h ← head crates
    force_of_head vault policy now message state h

  unfoldable pub started : Vault → VaultPolicy → Option ContentHash → ScheduleTick
  started vault policy taken = record {
    vault = vault.name;
    snapshot = elim taken [ none ↦ none | some h ↦ some (to_hex hex h) ];
    pins_added = 0;
    snapshots_pruned = 0;
    gc_removed = 0;
    skipped_reason = elim taken [
      | none ↦ some (
          if policy.snapshot_interval_secs == 0
          then codes "auto-snapshot disabled"
          else codes "interval not elapsed")
      | some h ↦ none
    ];
  }

  unfoldable pub is_taken : Option Bytes → Bool
  is_taken none = false
  is_taken (some digits) = true

  -- `none` is a walk over the history that the fuel ended.
  unfoldable pub with_removed : ScheduleTick → Option ℕ → Option ScheduleTick
  with_removed tick none = none
  with_removed tick (some n) = some (record tick { gc_removed = n })

  unfoldable pub collected : ℕ → ScheduleTick → Io (Option ScheduleTick)
  collected fuel tick =
      if ltb 0 tick.snapshots_pruned || is_taken tick.snapshot
      then (do n ← λ d. or_default (some 0) (gc_all crates fuel d); pure (with_removed tick n))
      else pure (some tick)

  unfoldable pub after_pins : ℕ → VaultPolicy → ScheduleTick → Option ℕ → Io (Option ScheduleTick)
  after_pins fuel policy tick none = pure none
  after_pins fuel policy tick (some added) = do
    pruned ← apply_retention crates.snapshots_json policy
    collected fuel (record tick { pins_added = added; snapshots_pruned = pruned })

  module _ (pins_json : Json PinSet) (fuel : ℕ) where
    unfoldable pub run_tick : Vault → VaultPolicy → ℕ → Io (Option ScheduleTick)
    run_tick vault policy now = do
      taken ← maybe_auto_snapshot vault policy now (codes "scheduled")
      added ← ensure_local_pins crates pins_json fuel now
      after_pins fuel policy (started vault policy taken) added

    unfoldable pub push_tick : List ScheduleTick → Option ScheduleTick → Option (List ScheduleTick)
    push_tick ticks none = none
    push_tick ticks (some t) = some (ticks ++ t ∷ [])

    -- The loop, at the times of its rounds.
    unfoldable pub run_rounds :
        Vault → List ℕ → Option (List ScheduleTick) → Io (Option (List ScheduleTick))
    run_rounds vault times none = pure none
    run_rounds vault [] (some ticks) = pure (some ticks)
    run_rounds vault (now ∷ times) (some ticks) = do
      policy ← load_policy crates.policy_json vault.config.min_replicas
      t ← run_tick vault policy now
      run_rounds vault times (push_tick ticks t)

    -- `times` are those at which the deadline lets the loop go on.
    unfoldable pub run_for : Vault → ℕ → List ℕ → Io (Option (List ScheduleTick))
    run_for vault now times = do
      policy ← load_policy crates.policy_json vault.config.min_replicas
      t ← run_tick vault policy now
      run_rounds vault times (push_tick [] t)
