-- ===== src/Sync/Dag.antt =====
-- src/sync.rs, the loop over commits, and `fetch_dag`.
use soal.Base.{
  ℕ, zero, suc, Bool, true, false, not, Bytes, List, [], ◌∷◌, ◌++◌, ltb, length, if◌then◌else◌,
  Option, none, some, Result, ok, err, panic, SoalError, Message, reject,
}
use soal.Content.{ContentHash}
use soal.Codec.Fields.{verify}
use soal.Sync.Job.{
  SyncJob, SyncResult, Progress, Task, ◌>>=◌, ◌>>◌, pure, on_disk, update, enter, fetching,
  verifying, done, failed, load_or_create_job, persist_job,
}
use soal.Sync.Visit.{sync_visit}
use soal.Disk.{Disk, Io, exists, call, contents, replace}
use soal.Disk
use soal.Policy.Registry.{Json}
use soal.Set.{contains, add}
use soal.Vault.{Crates}
use soal.Vault.Heads.{set_head_public}
use soal.Vault.Transfer.{is_complete}
use soal.Vault.Exchange.{max_job_commits}

abbrev pub no_peers : List Bytes → Bool
no_peers [] = true
no_peers (p ∷ peers) = false

module _ (crates : Crates) (json : Json SyncJob) (now : ℕ)
    (answer : Bytes → ContentHash → Result Bytes) (peers : List Bytes) where
  -- `while let Some(c) = queue.pop_front() { .. }`; `false` is a loop that the fuel ended.
  unfoldable pub sync_loop : ℕ → List ContentHash → Task Bool
  sync_loop fuel [] = pure true
  sync_loop zero (c ∷ queue) = pure false
  sync_loop (suc fuel) (c ∷ queue) =
      let skip = sync_loop fuel queue in
      let visit = (do
        update (λ t. record t { visited = add c t.visited })
        parents ← sync_visit crates json now answer peers c
        sync_loop fuel (queue ++ parents)) in
      λ s d.
        if ltb max_job_commits (length s.visited)
        then (err (SoalError.other (Message.text "DAG too deep (MAX_JOB_COMMITS)")), s, d)
        else if contains c s.visited
        then skip s d
        else visit s d

  unfoldable pub finish : ContentHash → Bool → Task SyncResult
  finish target set_head = do
    enter crates json now verifying
    complete ← on_disk (is_complete crates target)
    on_disk (Disk.lift (reject (not complete) (verify "sync finished but target not complete")))
    on_disk (if set_head then set_head_public crates target else Disk.pure tt)
    enter crates json now done
    λ s.
        pure
          (record {
            target = target;
            commits_imported = s.commits_imported;
            trees_imported = s.trees_imported;
            chunks_imported = s.chunks_imported;
            head_updated = set_head;
          })
          s

  unfoldable pub finish_if : ContentHash → Bool → Bool → Task (Option SyncResult)
  finish_if target set_head true = do r ← finish target set_head; pure (some r)
  finish_if target set_head false = pure none

  -- The block of `fetch_dag` whose failure is recorded; `none` is a loop that the fuel ended.
  unfoldable pub sync_block : ℕ → ContentHash → Bool → Task (Option SyncResult)
  sync_block fuel target set_head = do
    ended ← sync_loop fuel (target ∷ [])
    finish_if target set_head ended

  -- The error stands, whether the job was saved or not.
  unfoldable pub still : SoalError → Result (Unit {0}) × Disk → Result (Option SyncResult) × Disk
  still e (ok u, d) = (err e, d)
  still e (err f, d) = (err e, d)
  still e (panic, d) = (panic, d)

  -- `let _ = persist_job(vault, &job);` and the result.
  unfoldable pub record_failure :
      Result (Option SyncResult) × Progress × Disk → Result (Option SyncResult) × Disk
  record_failure (ok r, s, d) = (ok r, d)
  record_failure (err e, s, d) = still e (
      persist_job crates json now
        (record (s.job) { state = failed; error = some e; updated_at = now }) d)
  record_failure (panic, s, d) = (panic, d)

  unfoldable pub fetch_missing : ℕ → ContentHash → Bool → Io (Option SyncResult)
  fetch_missing fuel target set_head = Disk.◌>>=◌ (load_or_create_job crates json now target) λ job.
      let job' : SyncJob = record job { state = fetching; updated_at = now } in
      Disk.◌>>◌ (persist_job crates json now job') (λ d. record_failure (
        sync_block fuel target set_head
          (record {
            job = job';
            visited = [];
            commits_imported = 0;
            trees_imported = 0;
            chunks_imported = 0;
          })
          d))

  abbrev pub no_work : ContentHash → Bool → SyncResult
  no_work target set_head = record {
    target = target;
    commits_imported = 0;
    trees_imported = 0;
    chunks_imported = 0;
    head_updated = set_head;
  }

  unfoldable pub fetch_dag : ℕ → ContentHash → Bool → Io (Option SyncResult)
  fetch_dag fuel target set_head =
      Disk.◌>>◌
        (Disk.lift (reject (no_peers peers) (SoalError.other (Message.text "no peers for sync"))))
        (Disk.◌>>=◌ (is_complete crates target) λ complete.
          if complete
          then Disk.◌>>◌ (if set_head then set_head_public crates target else Disk.pure tt)
              (Disk.pure (some (no_work target set_head)))
          else fetch_missing fuel target set_head)
