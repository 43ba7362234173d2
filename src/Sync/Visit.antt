-- ===== src/Sync/Visit.antt =====
-- src/sync.rs, the body of the loop of `fetch_dag`: one commit of a sync, with its tree and
-- chunks.
use soal.Base.{
  ℕ, zero, suc, ◌+◌, ◌%◌, Bool, true, false, not, ◌&&◌, Bytes, List, [], ◌∷◌, ◌++◌, ltb, ◌==◌,
  length, if◌then◌else◌, Option, none, some, Result, ok, err, panic, SoalError, Message,
}
use soal.Content.{ContentHash}
use soal.Sync.Job.{SyncJob, Task, ◌>>=◌, ◌>>◌, pure, on_disk, update, checkpoint}
use soal.Disk.{Disk, Io, exists, call, contents, replace}
use soal.Disk
use soal.Identity.{verify_commit_signature}
use soal.Policy.Registry.{Json}
use soal.Set.{contains, add}
use soal.Tree.{all_chunk_hashes}
use soal.Vault.{Crates}
use soal.Vault.Objects.{has_commit_object, has_tree_object, load_commit, load_tree}
use soal.Vault.Transfer.{has_chunk, import_stored_chunk, import_tree_bytes, import_commit_bytes}
use soal.Sync.Fetch.{get_blob_with_failover}

module _ (crates : Crates) (json : Json SyncJob) (now : ℕ)
    (answer : Bytes → ContentHash → Result Bytes) (peers : List Bytes) where
  open crates use {hex, blake3, keys}

  unfoldable pub fetch : ContentHash → Io Bytes
  fetch h d = (soal.Base.◌>>=◌ (get_blob_with_failover blake3 answer peers h) (λ p. ok p.1), d)

  unfoldable pub check_present : ContentHash → Io (Unit {0})
  check_present c =
      Disk.◌>>=◌ (load_commit crates c)
        (λ commit. Disk.lift (verify_commit_signature keys hex blake3 commit))

  unfoldable pub obtain_commit : ContentHash → Task (Unit {0})
  obtain_commit c s d =
      if not (has_commit_object crates c d)
      then (do
        on_disk (Disk.◌>>=◌ (fetch c) (import_commit_bytes crates c))
        update (λ t. record t { commits_imported = suc t.commits_imported }))
          s d
      else on_disk (check_present c) s d

  unfoldable pub sync_commit : ContentHash → Task (Unit {0})
  sync_commit c s d =
      if contains c s.job.done_commits
      then (ok tt, s, d)
      else (do
        obtain_commit c
        update (λ t. record t { job = record (t.job) { done_commits = add c t.job.done_commits } })
        checkpoint crates json now)
          s d

  unfoldable pub obtain_tree : ContentHash → Task (Unit {0})
  obtain_tree c s d =
      if not (has_tree_object crates c d)
      then (do
        on_disk (Disk.◌>>=◌ (fetch c) (import_tree_bytes crates c))
        update (λ t. record t { trees_imported = suc t.trees_imported }))
          s d
      else (ok tt, s, d)

  unfoldable pub sync_tree : ContentHash → Task (Unit {0})
  sync_tree c s d =
      if contains c s.job.done_trees
      then (ok tt, s, d)
      else (do
        obtain_tree c
        update (λ t. record t { job = record (t.job) { done_trees = add c t.job.done_trees } })
        checkpoint crates json now)
          s d

  unfoldable pub obtain_chunk : ContentHash → Task (Unit {0})
  obtain_chunk c s d =
      if not (has_chunk crates c d)
      then (do
        on_disk (Disk.◌>>=◌ (fetch c) (import_stored_chunk crates c))
        update (λ t. record t { chunks_imported = suc t.chunks_imported }))
          s d
      else (ok tt, s, d)

  -- Every 32 chunks the job is saved.
  unfoldable pub checkpoint_some : Task (Unit {0})
  checkpoint_some s d =
      if length s.job.done_chunks % 32 == 0 then checkpoint crates json now s d else (ok tt, s, d)

  unfoldable pub sync_chunk : ContentHash → Task (Unit {0})
  sync_chunk c s d =
      if contains c s.job.done_chunks
      then (ok tt, s, d)
      else (do
        obtain_chunk c
        update (λ t. record t { job = record (t.job) { done_chunks = add c t.job.done_chunks } })
        checkpoint_some)
          s d

  unfoldable pub sync_chunks : List ContentHash → Task (Unit {0})
  sync_chunks [] = pure tt
  sync_chunks (c ∷ cs) = do sync_chunk c; sync_chunks cs

  -- What a round does at a commit, and the commit's parents.
  unfoldable pub sync_visit : ContentHash → Task (List ContentHash)
  sync_visit c = do
    sync_commit c
    commit ← on_disk (load_commit crates c)
    sync_tree commit.tree
    tree ← on_disk (load_tree crates commit.tree)
    sync_chunks (all_chunk_hashes tree)
    pure commit.parents
