-- ===== src/Sync/Complete.antt =====
-- src/sync.rs, `fetch_dag`: the target on the files that it leaves.
use soal.Base.{
  ℕ, ◌≡◌, refl, sym, ◌∙◌, ap, subst, Bool, true, false, not, Bytes, List, [], ◌∷◌, Option, some,
  Result, ok, err, panic, SoalError, ok_injective, if◌then◌else◌, reject,
}
use soal.Content.{ContentHash}
use soal.Content.Hex.{to_hex}
use soal.Disk.{Disk, Io, quiet}
use soal.Disk
use soal.Disk.Triples.{Files, After-files}
use soal.Disk.Quiet.{>>=-eq-ok}
use soal.Disk.Local.{Agrees, transfer}
use soal.Disk.Apart.{Spares, >>=-Spares, pure-Spares, call-Spares, replace-Spares}
use soal.Policy.Registry.{Json}
use soal.Vault.{Crates}
use soal.Vault.Stored.{IsStored, json-IsApart, tmp-IsApart}
use soal.Vault.Heads.{set_head_public}
use soal.Vault.Heads.Apart.{set_head_public-Spares}
use soal.Vault.Transfer.{is_complete}
use soal.Vault.Transfer.Whole.{is_complete-IsLocal}
use soal.Sync.Job.{
  SyncJob, SyncResult, SyncState, Progress, Task, ◌>>=◌, bind_task, pure, on_disk, with_progress,
  update, job_path, load_or_create_job, persist_job, checkpoint, enter, verifying, done,
}
use soal.Sync.Dag.{
  finish, finish_if, sync_loop, sync_block, still, record_failure, fetch_missing, fetch_dag,
  no_work, no_peers,
}

-- A chain that returns a value has returned one at its first step.
pub >>=-task-ok {ℓ κ} :
    {A : Type ℓ} {B : Type κ} (m : Task A) (f : A → Task B) {b : B} {s s' : Progress} {d d' : Disk}
    → (m >>= f) s d ≡ (ok b, s', d')
    → (a : A) × (s1 : Progress) × (d1 : Disk) × (m s d ≡ (ok a, s1, d1))
      × (f a s1 d1 ≡ (ok b, s', d'))
unfolding ◌>>=◌ bind_task
>>=-task-ok {A = A} m f {b} {s} {s'} {d} {d'} h = go (m s d) refl h
  where
    go :
        (r : Result A × Progress × Disk)
        → m s d ≡ r
        → bind_task r f ≡ (ok b, s', d')
        → (a : A) × (s1 : Progress) × (d1 : Disk) × (m s d ≡ (ok a, s1, d1))
          × (f a s1 d1 ≡ (ok b, s', d'))
    go (ok a, s1, d1) p q = (a, s1, d1, p, q)
    go (err x, s1, d1) p q = cc
    go (panic, s1, d1) p q = cc

on_disk-ok {ℓ} :
    {A : Type ℓ} (io : Io A) {a : A} (s s' : Progress) (d d' : Disk)
    → on_disk io s d ≡ (ok a, s', d')
    → io d ≡ (ok a, d')
unfolding on_disk with_progress
on_disk-ok {A = A} io {a} s s' d d' h = go (io d) refl h
  where
    go : (r : Result A × Disk) → io d ≡ r → with_progress s r ≡ (ok a, s', d') → io d ≡ (ok a, d')
    go (ok b, e) p q = p ∙ cc
    go (err x, e) p q = cc
    go (panic, e) p q = cc

lift-ok {ℓ} :
    {A : Type ℓ} (r : Result A) {a : A} {d d' : Disk}
    → Disk.lift r d ≡ (ok a, d')
    → (r ≡ ok a) × (d' ≡ d)
unfolding Disk.lift
lift-ok r e = (ap (λ p. p.0) e, sym (ap (λ p. p.1) e))

module _ (crates : Crates) (json : Json SyncJob) (now : ℕ) where
  abbrev P : Bytes → Type 0
  P = IsStored crates

  spared {ℓ} :
      {A : Type ℓ} (io : Io A)
      → ((old : Files) → Spares P old io)
      → {a : A} {d d' : Disk} → io d ≡ (ok a, d')
      → Agrees P d.files d'.files
  spared io h {a} {d} {d'} e =
      subst (λ (r : Result _ × Disk). Agrees P d.files r.1.files) e
        (After-files (Agrees P d.files) (io d) ((h d.files).run d (λ n p. refl)))

  persist_job-Spares :
      (job : SyncJob) (old : Files) → Spares P old (persist_job crates json now job)
  unfolding persist_job job_path
  persist_job-Spares job old = >>=-Spares P old (call-Spares P old) (λ u.
      replace-Spares P old _ _ _ (tmp-IsApart crates (to_hex crates.hex job.target))
        (json-IsApart crates (to_hex crates.hex job.target)))

  enter-Agrees :
      (state : SyncState) (s s' : Progress) (d d' : Disk)
      → enter crates json now state s d ≡ (ok tt, s', d')
      → Agrees P d.files d'.files
  unfolding enter checkpoint update ◌>>=◌ bind_task
  enter-Agrees state s s' d d' e = spared _ (persist_job-Spares _) (on_disk-ok _ _ s' d d' e)

  adopting-Spares :
      (target : ContentHash) (set_head : Bool) (old : Files)
      → Spares P old (if set_head then set_head_public crates target else Disk.pure tt)
  adopting-Spares target true old = set_head_public-Spares crates old target
  adopting-Spares target false old = pure-Spares P old tt

  -- The target is complete on the files.
  abbrev pub IsWhole : ContentHash → Files → Type 0
  IsWhole target m = is_complete crates target (quiet m) ≡ (ok true, quiet m)

  is_complete-IsWhole :
      (target : ContentHash) (d d1 : Disk) (m : Files)
      → is_complete crates target d ≡ (ok true, d1)
      → Agrees P d1.files m
      → IsWhole target m
  is_complete-IsWhole target d d1 m e agrees =
      let local = is_complete-IsLocal crates target in
      let (_, same) = local.lucky d d1 true e in
      transfer (is_complete crates target) local d d1 m true
        (λ n p. ap (soal.Map.lookup n) (sym same) ∙ agrees n p) e

  -- What a result says.
  abbrev pub Says : ContentHash → Bool → SyncResult → Type 0
  Says target set_head r = (r.target ≡ target) × (r.head_updated ≡ set_head)

  reject-ok : (b : Bool) (e : SoalError) → reject (not b) e ≡ ok tt → b ≡ true
  reject-ok true e p = refl
  reject-ok false e p = cc

  module _ (answer : Bytes → ContentHash → Result Bytes) (peers : List Bytes) (target : ContentHash)
      (set_head : Bool) where
    finish-IsWhole :
        (r : SyncResult) (s s' : Progress) (d d' : Disk)
        → finish crates json now answer peers target set_head s d ≡ (ok r, s', d')
        → IsWhole target d'.files × Says target set_head r
    unfolding finish pure
    finish-IsWhole r s s' d d' e =
        let (_, s1, d1, p1, e1) = >>=-task-ok (enter crates json now verifying) _ e in
        let (complete, s2, d2, p2, e2) = >>=-task-ok (on_disk (is_complete crates target)) _ e1 in
        let (_, s3, d3, p3, e3) =
          >>=-task-ok (on_disk (Disk.lift (reject (not complete) _))) _ e2 in
        let (_, s4, d4, p4, e4) =
          >>=-task-ok (on_disk (if set_head then set_head_public crates target else Disk.pure tt)) _
            e3 in
        let (_, s5, d5, p5, e5) = >>=-task-ok (enter crates json now done) _ e4 in
        let (passed, d32) = lift-ok (reject (not complete) _) (on_disk-ok _ s2 s3 d2 d3 p3) in
        let adopted : Agrees P d3.files d4.files =
          spared _ (adopting-Spares target set_head) (on_disk-ok _ s3 s4 d3 d4 p4) in
        let ended : Agrees P d4.files d5.files = enter-Agrees done s4 s5 d4 d5 p5 in
        let last : d5 ≡ d' = ap (λ x. x.2) e5 in
        (
          subst (λ (x : Disk). IsWhole target x.files) last
              (is_complete-IsWhole target d1 d2 d5.files
                (subst (λ b. is_complete crates target d1 ≡ (ok b, d2))
                  (reject-ok complete _ passed) (on_disk-ok _ s1 s2 d1 d2 p2))
                (λ n p.
                  ap (λ (x : Disk). soal.Map.lookup n x.files) (sym d32)
                  ∙ adopted n p
                  ∙ ended n p)),
          says r (ok_injective (ap (λ x. x.0) e5)),
        )
      where
        says :
            {a b c : ℕ} (r : SyncResult)
            → (record {
              target = target;
              commits_imported = a;
              trees_imported = b;
              chunks_imported = c;
              head_updated = set_head;
            })
              ≡ r
            → Says target set_head r
        says r e = (
          ap (λ (x : SyncResult). x.target) (sym e),
          ap (λ (x : SyncResult). x.head_updated) (sym e),
        )

    some_injective : {x y : SyncResult} → some x ≡ some y → x ≡ y
    some_injective e = cc

    sync_block-IsWhole :
        (fuel : ℕ) (r : SyncResult) (s s' : Progress) (d d' : Disk)
        → sync_block crates json now answer peers fuel target set_head s d ≡ (ok (some r), s', d')
        → IsWhole target d'.files × Says target set_head r
    unfolding sync_block finish_if pure
    sync_block-IsWhole fuel r s s' d d' e =
        let (ended, s1, d1, p1, e1) =
          >>=-task-ok (sync_loop crates json now answer peers fuel (target ∷ [])) _ e in
        go ended s1 d1 e1
      where
        go :
            (ended : Bool) (s1 : Progress) (d1 : Disk)
            → finish_if crates json now answer peers target set_head ended s1 d1
              ≡ (ok (some r), s', d')
            → IsWhole target d'.files × Says target set_head r
        go true s1 d1 e =
            let (r', s2, d2, p2, e2) =
              >>=-task-ok (finish crates json now answer peers target set_head) _ e in
            let (w, says) = finish-IsWhole r' s1 s2 d1 d2 p2 in
            let last : d2 ≡ d' = ap (λ x. x.2) e2 in
            let same : r' ≡ r = some_injective (ok_injective (ap (λ x. x.0) e2)) in
            (
              subst (λ (x : Disk). IsWhole target x.files) last w,
              subst (Says target set_head) same says,
            )
        go false s1 d1 e = absurd (cc e)

    pub recorded :
        (x : Result (Option SyncResult) × Progress × Disk) (r : Option SyncResult) (d' : Disk)
        → record_failure crates json now answer peers x ≡ (ok r, d')
        → (s' : Progress) × (x ≡ (ok r, s', d'))
    unfolding record_failure
    recorded (ok o, s, d) r d' e = (s, λ i. ((e i).0, s, (e i).1))
    recorded (err f, s, d) r d' e = stays _ e
      where
        stays :
            (y : Result (Unit {0}) × Disk)
            → still crates json now answer peers f y ≡ (ok r, d')
            → (s' : Progress) × (◌≡◌ {A = Result (Option SyncResult) × Progress × Disk}
                (err f, s, d)
                (ok r, s', d'))
        stays (ok u, z) e = absurd (unfold still in cc)
        stays (err g, z) e = absurd (unfold still in cc)
        stays (panic, z) e = absurd (unfold still in cc)
    recorded (panic, s, d) r d' e = absurd cc

    -- For any sequence of failing calls, whatever the peers answer: where fetch_dag returns a
    -- result, the result is for the target and says whether the head was to be set, and is_complete
    -- finds the target complete on the files that fetch_dag leaves.
    pub fetch_dag-IsWhole :
        (fuel : ℕ) (r : SyncResult) (d d' : Disk)
        → fetch_dag crates json now answer peers fuel target set_head d ≡ (ok (some r), d')
        → IsWhole target d'.files × Says target set_head r
    unfolding fetch_dag fetch_missing Disk.pure
    fetch_dag-IsWhole fuel r d d' e =
        let (_, d1, p1, e1) = >>=-eq-ok (Disk.lift (reject (no_peers peers) _)) _ e in
        let (complete, d2, p2, e2) = >>=-eq-ok (is_complete crates target) _ e1 in
        go complete d1 d2 p2 e2
      where
        go :
            (complete : Bool) (d1 d2 : Disk)
            → is_complete crates target d1 ≡ (ok complete, d2)
            → (if complete
                  then Disk.◌>>◌
                      (if set_head then set_head_public crates target else Disk.pure tt)
                      (Disk.pure (some (no_work crates json now answer peers target set_head)))
                  else fetch_missing crates json now answer peers fuel target set_head)
                d2
              ≡ (ok (some r), d')
            → IsWhole target d'.files × Says target set_head r
        go true d1 d2 p e =
            let (_, d3, p3, e3) =
              >>=-eq-ok (if set_head then set_head_public crates target else Disk.pure tt) _ e in
            let same : no_work crates json now answer peers target set_head ≡ r =
              some_injective (ok_injective (ap (λ x. x.0) e3)) in
            (
              subst (λ (x : Disk). IsWhole target x.files) (ap (λ x. x.1) e3)
                  (is_complete-IsWhole target d1 d2 d3.files p
                    (spared _ (adopting-Spares target set_head) p3)),
              subst (Says target set_head) same (refl, refl),
            )
        go false d1 d2 p e =
            let (job, d3, p3, e3) = >>=-eq-ok (load_or_create_job crates json now target) _ e in
            let (_, d4, p4, e4) = >>=-eq-ok (persist_job crates json now _) _ e3 in
            let (s', q) = recorded _ (some r) d' e4 in sync_block-IsWhole fuel r _ s' d4 d' q
