-- ===== src/Sync/Visited.antt =====
-- src/sync.rs, the body of the loop of `fetch_dag`: it does not touch the set of visited commits.
use soal.Base.{
  ◌≡◌, refl, sym, ◌∙◌, Bool, true, false, not, Bytes, List, [], ◌∷◌, Result, ok, err, panic,
  if◌then◌else◌, ◌==◌, ◌%◌, length,
}
use soal.Content.{ContentHash}
use soal.Disk.{Disk, Io}
use soal.Policy.Registry.{Json}
use soal.Set.{contains}
use soal.Tree.{all_chunk_hashes}
use soal.Vault.{Crates}
use soal.Vault.Objects.{has_commit_object, has_tree_object}
use soal.Vault.Transfer.{has_chunk}
use soal.Sync.Job.{
  SyncJob, Progress, Task, ◌>>=◌, ◌>>◌, bind_task, pure, on_disk, with_progress, update, checkpoint,
  persist_job,
}
use soal.Sync.Visit.{
  obtain_commit, sync_commit, obtain_tree, sync_tree, obtain_chunk, checkpoint_some, sync_chunk,
  sync_chunks, sync_visit,
}

-- The set of visited commits stays, whatever is returned.
pub record IsCalm {ℓ} {A : Type ℓ} (t : Task A) : Type ℓ where
  pub same : (s : Progress) (d : Disk) → (t s d).1.visited ≡ s.visited

>>=-IsCalm {ℓ κ} :
    {A : Type ℓ} {B : Type κ} {m : Task A} {f : A → Task B}
    → IsCalm m
    → ((a : A) → IsCalm (f a))
    → IsCalm (m >>= f)
unfolding ◌>>=◌ bind_task
>>=-IsCalm {A = A} {m = m} {f} hm hf = record { same = λ s d. go s (m s d) (hm.same s d) }
  where
    go :
        (s : Progress) (r : Result A × Progress × Disk)
        → r.1.visited ≡ s.visited
        → (bind_task r f).1.visited ≡ s.visited
    go s (ok a, s1, d1) e = (hf a).same s1 d1 ∙ e
    go s (err x, s1, d1) e = e
    go s (panic, s1, d1) e = e

pure-IsCalm {ℓ} : {A : Type ℓ} (a : A) → IsCalm (pure a)
unfolding pure
pure-IsCalm a = record { same = λ s d. refl }

on_disk-IsCalm {ℓ} : {A : Type ℓ} (io : Io A) → IsCalm (on_disk io)
unfolding on_disk with_progress
on_disk-IsCalm {A = A} io = record { same = λ s d. go s (io d) }
  where
    go : (s : Progress) (r : Result A × Disk) → (with_progress s r).1.visited ≡ s.visited
    go s (r, d) = refl

update-IsCalm :
    (f : Progress → Progress) → ((s : Progress) → (f s).visited ≡ s.visited) → IsCalm (update f)
unfolding update
update-IsCalm f h = record { same = λ s d. h s }

if-IsCalm {ℓ} :
    {A : Type ℓ} (test : Progress → Disk → Bool) (m n : Task A)
    → IsCalm m
    → IsCalm n
    → IsCalm (λ s d. if test s d then m s d else n s d)
if-IsCalm test m n hm hn = record { same = λ s d. go s d (test s d) }
  where
    go : (s : Progress) (d : Disk) (b : Bool) → (if b then m s d else n s d).1.visited ≡ s.visited
    go s d true = hm.same s d
    go s d false = hn.same s d

module _ (crates : Crates) (json : Json SyncJob) (now : soal.Base.ℕ)
    (answer : Bytes → ContentHash → Result Bytes) (peers : List Bytes) where
  checkpoint-IsCalm : IsCalm (checkpoint crates json now)
  unfolding checkpoint
  checkpoint-IsCalm =
      >>=-IsCalm (update-IsCalm _ (λ s. refl)) (λ u. record {
        same = λ s d. (on_disk-IsCalm (persist_job crates json now s.job)).same s d;
      })

  -- Work that a test skips, a change of the job, and a checkpoint.
  step-IsCalm :
      (test : Progress → Disk → Bool) (work : Task (Unit {0})) (f : Progress → Progress)
      (last : Task (Unit {0}))
      → IsCalm work
      → ((s : Progress) → (f s).visited ≡ s.visited)
      → IsCalm last
      → IsCalm (λ s d. if test s d then pure tt s d else (work >> (update f >> last)) s d)
  step-IsCalm test work f last w h l =
      if-IsCalm test (pure tt) _ (pure-IsCalm tt)
        (>>=-IsCalm w (λ u. >>=-IsCalm (update-IsCalm f h) (λ v. l)))

  obtain_commit-IsCalm : (c : ContentHash) → IsCalm (obtain_commit crates json now answer peers c)
  unfolding obtain_commit
  obtain_commit-IsCalm c =
      if-IsCalm (λ s d. not (has_commit_object crates c d)) _ _
        (>>=-IsCalm (on_disk-IsCalm _) (λ u. update-IsCalm _ (λ s. refl))) (on_disk-IsCalm _)

  obtain_tree-IsCalm : (c : ContentHash) → IsCalm (obtain_tree crates json now answer peers c)
  unfolding obtain_tree pure
  obtain_tree-IsCalm c =
      if-IsCalm (λ s d. not (has_tree_object crates c d)) _ (pure tt)
        (>>=-IsCalm (on_disk-IsCalm _) (λ u. update-IsCalm _ (λ s. refl))) (pure-IsCalm tt)

  obtain_chunk-IsCalm : (c : ContentHash) → IsCalm (obtain_chunk crates json now answer peers c)
  unfolding obtain_chunk pure
  obtain_chunk-IsCalm c =
      if-IsCalm (λ s d. not (has_chunk crates c d)) _ (pure tt)
        (>>=-IsCalm (on_disk-IsCalm _) (λ u. update-IsCalm _ (λ s. refl))) (pure-IsCalm tt)

  checkpoint_some-IsCalm : IsCalm (checkpoint_some crates json now answer peers)
  unfolding checkpoint_some pure
  checkpoint_some-IsCalm =
      if-IsCalm (λ s d. length s.job.done_chunks % 32 == 0) _ (pure tt) checkpoint-IsCalm
        (pure-IsCalm tt)

  sync_chunks-IsCalm :
      (cs : List ContentHash) → IsCalm (sync_chunks crates json now answer peers cs)
  unfolding sync_chunks sync_chunk pure
  sync_chunks-IsCalm [] = pure-IsCalm tt
  sync_chunks-IsCalm (c ∷ cs) =
      >>=-IsCalm
        (step-IsCalm (λ s d. contains c s.job.done_chunks) _ _ _ (obtain_chunk-IsCalm c) (λ s. refl)
          checkpoint_some-IsCalm)
        (λ u. sync_chunks-IsCalm cs)

  pub sync_visit-IsCalm : (c : ContentHash) → IsCalm (sync_visit crates json now answer peers c)
  unfolding sync_visit sync_commit sync_tree pure
  sync_visit-IsCalm c =
      >>=-IsCalm
        (step-IsCalm (λ s d. contains c s.job.done_commits) _ _ _ (obtain_commit-IsCalm c)
          (λ s. refl) checkpoint-IsCalm)
        (λ u. >>=-IsCalm (on_disk-IsCalm _) (λ commit.
          >>=-IsCalm
            (step-IsCalm (λ s d. contains commit.tree s.job.done_trees) _ _ _
              (obtain_tree-IsCalm commit.tree) (λ s. refl) checkpoint-IsCalm)
            (λ v. >>=-IsCalm (on_disk-IsCalm _) (λ tree.
              >>=-IsCalm (sync_chunks-IsCalm (all_chunk_hashes tree))
                (λ w. pure-IsCalm commit.parents)))))
