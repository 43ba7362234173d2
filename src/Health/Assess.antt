-- ===== src/Health/Assess.antt =====
-- src/health.rs, `assess_vault`: the report on one vault. The clock's time is `now`.
use soal.Base.{
  ℕ, ◌-◌, Bool, true, false, not, ◌&&◌, Bytes, List, [], ◌∷◌, ◌++◌, all, length, ltb, if◌then◌else◌,
  Option, none, some,
}
use soal.Content.{ContentHash, codes}
use soal.Content.Hex.{to_hex}
use soal.Disk.{Io, ◌>>=◌, pure}
use soal.Network.{u64_to_string}
use soal.Policy.{VaultPolicy, PolicyState, default_policy, secs_until_snapshot}
use soal.Policy.Registry.{Json, no_state, load_policy, load_state}
use soal.Replication.{PinSet, PeerHave, ReplicationStatus, replication_status, or_default}
use soal.Schedule.{head_stale}
use soal.Store.{list}
use soal.Vault.{Crates, Vault, VaultConfig}
use soal.Vault.Heads.{head, list_heads}
use soal.Vault.Objects.{load_commit, load_tree}
use soal.Vault.Transfer.{is_complete}
use soal.Health.{HealthLevel, healthy, warn, crit, worst}

pub record HealthCheck : Type 0 where
  pub name : Bytes
  pub level : HealthLevel
  pub message : Bytes

pub record PolicySnapshot : Type 0 where
  pub snapshot_interval_secs : ℕ
  pub live_mode : Bool
  pub retain_snapshots : ℕ
  pub max_head_age_secs : ℕ
  pub secs_until_auto_snapshot : Option ℕ
  pub last_auto_snapshot_at : ℕ

-- `replication` stands for `ReplicationSnapshot`, which has the same six numbers.
pub record VaultHealth : Type 0 where
  pub vault : Bytes
  pub vault_id : Bytes
  pub level : HealthLevel
  pub head : Option Bytes
  pub head_age_secs : Option ℕ
  pub encryption : Bool
  pub key_wrapped : Bool
  pub members : ℕ
  pub config_seq : ℕ
  pub config_signed : Bool
  pub complete : Bool
  pub file_count : ℕ
  pub chunk_count : ℕ
  pub alternate_heads : ℕ
  pub replication : ReplicationStatus
  pub policy : PolicySnapshot
  pub checks : List HealthCheck

-- The variables `level` and `checks`.
pub record Report : Type 0 where
  pub level : HealthLevel
  pub checks : List HealthCheck

-- `checks.push(..)`
unfoldable pub pushed : Bytes → HealthLevel → Bytes → Report → Report
pushed name level message r = record r {
  checks = r.checks ++ record { name = name; level = level; message = message } ∷ [];
}

-- `level = worst(level, ..); checks.push(..);`, in either order.
unfoldable pub flagged : Bytes → HealthLevel → Bytes → Report → Report
flagged name level message r = pushed name level message (record r { level = worst r.level level })

unfoldable pub flagged_if : Bool → Bytes → HealthLevel → Bytes → Report → Report
flagged_if b name level message r = if b then flagged name level message r else r

-- What the first part finds of the head.
pub record HeadFacts : Type 0 where
  pub head : Option Bytes
  pub age : Option ℕ
  pub complete : Bool
  pub file_count : ℕ
  pub report : Report

unfoldable pub age_message : ℕ → VaultPolicy → Bytes
age_message age policy =
    codes "HEAD is "
    ++ (u64_to_string age
        ++ (codes "s old (policy max " ++ (u64_to_string policy.max_head_age_secs ++ codes ")")))

unfoldable pub check_replication : ReplicationStatus → Report → Report
check_replication repl r =
    flagged_if (ltb 0 repl.estimated_under_replicated && ltb 1 repl.min_replicas)
      (codes "replication") warn
      (codes "~"
        ++ (u64_to_string repl.estimated_under_replicated
            ++ (codes " chunks under min_replicas=" ++ u64_to_string repl.min_replicas)))
      (flagged_if (ltb 0 repl.missing_local) (codes "local_chunks") crit
        (u64_to_string repl.missing_local ++ codes " live chunks missing locally") r)

unfoldable pub check_key : VaultConfig → Report → Report
check_key config r =
    if config.encryption_enabled && config.key_wrapped
    then pushed (codes "key") healthy (codes "passphrase-wrapped vault key") r
    else if config.encryption_enabled
    then pushed (codes "key") healthy (codes "encryption on (plaintext vault.key on disk)") r
    else r

unfoldable pub is_signed : VaultConfig → Bool
is_signed config = elim config.config_sig [ none ↦ false | some s ↦ true ]

unfoldable pub check_config : VaultConfig → Report → Report
check_config config r =
    flagged_if (not (is_signed config)) (codes "config_sig") warn (codes "vault config is unsigned")
      r

-- The dash is written as its bytes in UTF-8.
unfoldable pub check_heads : ℕ → Report → Report
check_heads alts r =
    flagged_if (ltb 0 alts) (codes "multi_head") warn
      (u64_to_string alts
        ++ (codes " alternate head(s) " ++ (0xe2 ∷ 0x80 ∷ 0x94 ∷ codes " merge recommended")))
      r

unfoldable pub is_healthy : HealthLevel → Bool
is_healthy healthy = true
is_healthy warn = false
is_healthy crit = false

unfoldable pub is_none : List HealthCheck → Bool
is_none [] = true
is_none (c ∷ cs) = false

unfoldable pub check_overall : Report → Report
check_overall r =
    if all (λ c. is_healthy c.level) r.checks && is_none r.checks
    then pushed (codes "overall") healthy (codes "healthy") r
    else r

module _ (crates : Crates) where
  open crates use {hex, blake3}

  unfoldable pub assess_head : VaultPolicy → ℕ → Option ContentHash → Io HeadFacts
  assess_head policy now none = pure (record {
    head = none;
    age = none;
    complete = true;
    file_count = 0;
    report =
        flagged (codes "head") warn (codes "no commits yet")
          (record { level = healthy; checks = [] });
  })
  assess_head policy now (some h) = do
    c ← load_commit crates h
    complete ← is_complete crates h
    tree ← load_tree crates c.tree
    stale ← head_stale crates policy now
    pure (record {
      head = some (to_hex hex h);
      age = some (now - c.timestamp);
      complete = complete;
      file_count = length tree.entries;
      report = flagged_if stale (codes "head_age") warn (age_message (now - c.timestamp) policy) (
          flagged_if (not complete) (codes "completeness") crit
            (codes "HEAD is incomplete (missing tree/chunks)")
            (record { level = healthy; checks = [] }));
    })

  unfoldable pub assessed :
      Vault → VaultPolicy → PolicyState → ℕ → HeadFacts → ℕ → ReplicationStatus → ℕ → VaultHealth
  assessed vault policy state now facts alts repl chunk_count =
      let config = vault.config in
      let r = check_overall (
        check_heads alts
          (check_config config (check_key config (check_replication repl facts.report)))) in
      record {
        vault = vault.name;
        vault_id = config.vault_id;
        level = r.level;
        head = facts.head;
        head_age_secs = facts.age;
        encryption = config.encryption_enabled;
        key_wrapped = config.key_wrapped;
        members = length config.members;
        config_seq = config.config_seq;
        config_signed = is_signed config;
        complete = facts.complete;
        file_count = facts.file_count;
        chunk_count = chunk_count;
        alternate_heads = alts;
        replication = repl;
        policy = record {
          snapshot_interval_secs = policy.snapshot_interval_secs;
          live_mode = policy.live_mode;
          retain_snapshots = policy.retain_snapshots;
          max_head_age_secs = policy.max_head_age_secs;
          secs_until_auto_snapshot = secs_until_snapshot policy state now;
          last_auto_snapshot_at = state.last_auto_snapshot_at;
        };
        checks = r.checks;
      }

  unfoldable pub assess_with :
      Vault → VaultPolicy → PolicyState → ℕ → Option ReplicationStatus → Io (Option VaultHealth)
  assess_with vault policy state now none = pure none
  assess_with vault policy state now (some repl) = do
    h ← head crates
    facts ← assess_head policy now h
    heads ← list_heads crates
    chunks ← list hex blake3
    pure (some (assessed vault policy state now facts (length heads - 1) repl (length chunks)))

  -- `none` is a walk over the history that the fuel ended.
  unfoldable pub assess_vault :
      Json PinSet → Json PeerHave → ℕ → Vault → ℕ → Io (Option VaultHealth)
  assess_vault pins_json have_json fuel vault now = do
    policy ←
        λ d. or_default default_policy (load_policy crates.policy_json vault.config.min_replicas d)
    state ← λ d. or_default no_state (load_state crates.state_json d)
    repl ← replication_status crates pins_json have_json fuel vault
    assess_with vault policy state now repl
