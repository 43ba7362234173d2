-- ===== src/Sync/Job.antt =====
-- src/sync.rs, `SyncJob` with `load_or_create_job` and `persist_job`: the job of a sync and its
-- file. The clock's time is `now`.
use soal.Base.{
  ℕ, Bool, true, false, not, ◌&&◌, Bytes, [], ◌++◌, if◌then◌else◌, Option, none, some, Result, ok,
  err, panic, SoalError,
}
use soal.Content.{ContentHash, bytes_eq, codes}
use soal.Content.Hex.{to_hex}
use soal.Disk.{Disk, Io, exists, call, contents, replace}
use soal.Disk
use soal.Policy.Registry.{Json}
use soal.Set.{Hashes}
use soal.Vault.{Crates}
use soal.Vault.Heads.{read_to_string}

pub data SyncState : Type 0 where
  fetching verifying done failed : SyncState

-- `error` holds the error whose text the source keeps.
pub record SyncJob : Type 0 where
  pub target : ContentHash
  pub epoch : ℕ
  pub state : SyncState
  pub done_commits : Hashes
  pub done_trees : Hashes
  pub done_chunks : Hashes
  pub updated_at : ℕ
  pub error : Option SoalError

pub record SyncResult : Type 0 where
  pub target : ContentHash
  pub commits_imported : ℕ
  pub trees_imported : ℕ
  pub chunks_imported : ℕ
  pub head_updated : Bool

-- The variables of `fetch_dag`, which outlive the block that may fail.
pub record Progress : Type 0 where
  pub job : SyncJob
  pub visited : Hashes
  pub commits_imported : ℕ
  pub trees_imported : ℕ
  pub chunks_imported : ℕ

-- Code of that block.
abbrev pub Task {ℓ} : Type ℓ → Type ℓ
Task A = Progress → Disk → Result A × Progress × Disk

unfoldable pub bind_task {ℓ κ} :
    {A : Type ℓ} {B : Type κ}
    → Result A × Progress × Disk
    → (A → Task B)
    → Result B × Progress × Disk
bind_task (ok a, s, d) f = f a s d
bind_task (err e, s, d) f = (err e, s, d)
bind_task (panic, s, d) f = (panic, s, d)

infixl 5 ◌>>=◌ ◌>>◌
unfoldable pub ◌>>=◌ {ℓ κ} : {A : Type ℓ} {B : Type κ} → Task A → (A → Task B) → Task B
unfolding bind_task
◌>>=◌ m f s d = bind_task (m s d) f

abbrev pub ◌>>◌ {ℓ} : {B : Type ℓ} → Task (Unit {0}) → Task B → Task B
m >> k = m >>= λ _. k

unfoldable pub pure {ℓ} : {A : Type ℓ} → A → Task A
pure a s d = (ok a, s, d)

unfoldable pub with_progress {ℓ} :
    {A : Type ℓ} → Progress → Result A × Disk → Result A × Progress × Disk
with_progress s (r, d) = (r, s, d)

unfoldable pub on_disk {ℓ} : {A : Type ℓ} → Io A → Task A
unfolding with_progress
on_disk io s d = with_progress s (io d)

unfoldable pub update : (Progress → Progress) → Task (Unit {0})
update f s d = (ok tt, f s, d)

abbrev pub is_done : SyncState → Bool
is_done done = true
is_done _ = false

unfoldable pub new : ContentHash → ℕ → SyncJob
new target now = record {
  target = target;
  epoch = now;
  state = fetching;
  done_commits = [];
  done_trees = [];
  done_chunks = [];
  updated_at = now;
  error = none;
}

module _ (crates : Crates) (json : Json SyncJob) (now : ℕ) where
  open crates use {hex, blake3, keys}

  unfoldable pub job_path : ContentHash → Bytes
  job_path target = codes "sync/jobs/" ++ (to_hex hex target ++ codes ".json")

  -- The job in the file, if it is one of this target that has not ended.
  unfoldable pub job_of : ContentHash → Option SyncJob → SyncJob
  job_of target none = new target now
  job_of target (some job) =
      if bytes_eq job.target target && not (is_done job.state) then job else new target now

  unfoldable pub load_or_create_job : ContentHash → Io SyncJob
  load_or_create_job target d =
      if exists (job_path target) d
      then Disk.◌>>=◌ (read_to_string (job_path target))
          (λ s. Disk.pure (job_of target (json.from_str s))) d
      else (ok (new target now), d)

  unfoldable pub persist_job : SyncJob → Io (Unit {0})
  persist_job job =
      Disk.◌>>◌ call
        (replace (job_path job.target ++ codes ".tmp") (job_path job.target) (json.to_string job))

  -- `job.touch(); persist_job(vault, &job)?;`
  unfoldable pub checkpoint : Task (Unit {0})
  checkpoint = do
    update (λ s. record s { job = record (s.job) { updated_at = now } })
    λ s d. on_disk (persist_job s.job) s d

  unfoldable pub enter : SyncState → Task (Unit {0})
  enter state = do update (λ s. record s { job = record (s.job) { state = state } }); checkpoint
