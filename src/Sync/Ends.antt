-- ===== src/Sync/Ends.antt =====
-- src/sync.rs, the loop of `fetch_dag` over commits: how long it runs.
use soal.Base.{
  ℕ, zero, suc, ◌+◌, ◌≤◌, ◌≡◌, ◌≢◌, refl, sym, ◌∙◌, ap, true, false, inl, inr, Bool-cases, Bytes,
  List, [], ◌∷◌, ◌++◌, ltb, length, Bool, reject, if◌then◌else◌, none, some, Result, ok, err, panic,
  arith,
}
use soal.Content.{ContentHash}
use soal.Disk.{Disk, Io}
use soal.Disk
use soal.Policy.Registry.{Json}
use soal.Set.{length-add, Hashes, contains, add}
use soal.Vault.{Crates}
use soal.Vault.Exchange.{max_job_commits}
use soal.Sync.Job.{
  SyncJob, Progress, ◌>>=◌, bind_task, pure, update, load_or_create_job, persist_job,
}
use soal.Sync.Visit.{sync_visit}
use soal.Sync.Visited.{sync_visit-IsCalm}
use soal.Sync.Complete.{>>=-task-ok, recorded}
use soal.Vault.Transfer.{is_complete}
use soal.Sync.Dag.{
  sync_loop, sync_block, finish, finish_if, record_failure, no_peers, fetch_dag, fetch_missing,
  no_work,
}
use soal.Disk.Fuel.{prefix-ends}
use soal.Disk.Quiet.{>>=-eq-ok}
use soal.Vault.Heads.{set_head_public}

module _ (crates : Crates) (json : Json SyncJob) (now : ℕ)
    (answer : Bytes → ContentHash → Result Bytes) (peers : List Bytes) where
  -- Some number of rounds is enough for the loop.
  abbrev Ends : List ContentHash → Progress → Disk → Type 0
  Ends queue s d =
      (fuel : ℕ) × ((s' : Progress) (d' : Disk)
        → sync_loop crates json now answer peers fuel queue s d ≢ (ok false, s', d'))

  abbrev seen : ContentHash → Progress → Progress
  seen c s = record s { visited = add c s.visited }

  visiting :
      (fuel : ℕ) (c : ContentHash) (queue : List ContentHash) (s : Progress) (d : Disk)
      → ltb max_job_commits (length s.visited) ≡ false
      → contains c s.visited ≡ false
      → sync_loop crates json now answer peers (suc fuel) (c ∷ queue) s d
        ≡ bind_task
            (sync_visit crates json now answer peers c (seen c s) d)
            (λ parents. sync_loop crates json now answer peers fuel (queue ++ parents))
  unfolding sync_loop update ◌>>=◌ bind_task
  visiting fuel c queue s d small new = rw (small, new) refl

  -- A round that visits a commit, where the rounds behind it end.
  visited-Ends :
      (c : ContentHash) (queue : List ContentHash) (s : Progress) (d : Disk)
      → ltb max_job_commits (length s.visited) ≡ false
      → contains c s.visited ≡ false
      → ((parents : List ContentHash) (s1 : Progress) (d1 : Disk)
          → s1.visited ≡ add c s.visited
          → Ends (queue ++ parents) s1 d1)
      → Ends (c ∷ queue) s d
  unfolding bind_task
  visited-Ends c queue s d small new rest =
      go (sync_visit crates json now answer peers c (seen c s) d) refl
        ((sync_visit-IsCalm crates json now answer peers c).same (seen c s) d)
    where
      after :
          (fuel : ℕ) (r : Result (List ContentHash) × Progress × Disk)
          → sync_visit crates json now answer peers c (seen c s) d ≡ r
          → {s' : Progress} {d' : Disk}
          → sync_loop crates json now answer peers (suc fuel) (c ∷ queue) s d ≡ (ok false, s', d')
          → bind_task r (λ parents. sync_loop crates json now answer peers fuel (queue ++ parents))
            ≡ (ok false, s', d')
      after fuel r e f =
          ap
            (λ x.
              bind_task x
                (λ parents. sync_loop crates json now answer peers fuel (queue ++ parents)))
            (sym e)
          ∙ sym (visiting fuel c queue s d small new)
          ∙ f

      go :
          (r : Result (List ContentHash) × Progress × Disk)
          → sync_visit crates json now answer peers c (seen c s) d ≡ r
          → r.1.visited ≡ add c s.visited
          → Ends (c ∷ queue) s d
      go (ok parents, s1, d1) e calm =
          let (fuel, ends) = rest parents s1 d1 calm in
          (suc fuel, λ s' d' f. ends s' d' (after fuel _ e f))
      go (err x, s1, d1) e calm = (1, λ s' d' f. cc (after 0 _ e f))
      go (panic, s1, d1) e calm = (1, λ s' d' f. cc (after 0 _ e f))

  -- `room` is how many more commits may be visited.
  loop-Ends :
      (room : ℕ) (queue : List ContentHash) (s : Progress) (d : Disk)
      → suc max_job_commits ≤ room + length s.visited
      → Ends queue s d
  unfolding sync_loop pure
  loop-Ends room [] s d h = (0, λ s' d' e. cc e)
  loop-Ends zero (c ∷ queue) s d h = (1, λ s' d' e. cc (rw (full, sync_loop) at e))
    where
      full : ltb max_job_commits (length s.visited) ≡ true
      full = ground (arith, h)
  loop-Ends (suc room) (c ∷ queue) s d h =
      elim (Bool-cases (ltb max_job_commits (length s.visited))) [
        | inl full ↦ (1, λ s' d' e. cc (rw (full, sync_loop) at e))
        | inr small ↦ elim (Bool-cases (contains c s.visited)) [
          | inl old ↦
              let (fuel, ends) = loop-Ends (suc room) queue s d h in
              (suc fuel, λ s' d' e. ends s' d' (rw (small, old, sync_loop) at e))
          | inr new ↦ visited-Ends c queue s d small new (λ parents s1 d1 same.
              loop-Ends room (queue ++ parents) s1 d1
                (omega (arith, h, length-add c s.visited new, ap (λ (v : Hashes). length v) same)))
        ]
      ]

  module _ (target : ContentHash) (set_head : Bool) where
    block-ends :
        (s : Progress) (d : Disk)
        → s.visited ≡ []
        → (fuel : ℕ) × ((d' : Disk)
            → record_failure crates json now answer peers
                (sync_block crates json now answer peers fuel target set_head s d)
              ≢ (ok none, d'))
    unfolding sync_block pure
    block-ends s d fresh =
        let (fuel, ends) = loop-Ends (suc max_job_commits) (target ∷ []) s d (omega arith) in
        (
          fuel,
          λ d' e.
              let (s', q) = recorded crates json now answer peers target set_head _ none d' e in
              let (ended, s1, d1, p, q1) =
                >>=-task-ok (sync_loop crates json now answer peers fuel (target ∷ [])) _ q in
              stops fuel ends ended s1 d1 p s' d' q1,
        )
      where
        stops :
            (fuel : ℕ)
            → ((s' : Progress) (d' : Disk)
                → sync_loop crates json now answer peers fuel (target ∷ []) s d
                  ≢ (ok false, s', d'))
            → (ended : Bool) (s1 : Progress) (d1 : Disk)
            → sync_loop crates json now answer peers fuel (target ∷ []) s d ≡ (ok ended, s1, d1)
            → (s' : Progress) (d' : Disk)
            → finish_if crates json now answer peers target set_head ended s1 d1 ≢ (ok none, s', d')
        stops fuel ends false s1 d1 p s' d' e = ends s1 d1 p
        stops fuel ends true s1 d1 p s' d' e =
            unfold finish_if in
            let (r, s2, d2, p2, e2) =
              >>=-task-ok (finish crates json now answer peers target set_head) _ e in
            cc e2

    -- For any sequence of failing calls, whatever the peers answer and however the history
    -- branches: some number of rounds is enough for fetch_dag.
    pub fetch_dag_ends :
        (d : Disk)
        → (fuel : ℕ) × ((d' : Disk)
            → fetch_dag crates json now answer peers fuel target set_head d ≢ (ok none, d'))
    unfolding fetch_dag fetch_missing Disk.pure
    fetch_dag_ends d =
        prefix-ends (Disk.lift (reject (no_peers peers) _)) (λ fuel u. _) d
          (λ u d1 e1.
            prefix-ends (is_complete crates target) (λ fuel complete. _) d1
              (λ complete d2 e2. go complete d2))
      where
        go :
            (complete : Bool) (d2 : Disk)
            → (fuel : ℕ) × ((d' : Disk)
                → (if complete
                      then Disk.◌>>◌
                          (if set_head then set_head_public crates target else Disk.pure tt)
                          (Disk.pure (some (no_work crates json now answer peers target set_head)))
                      else fetch_missing crates json now answer peers fuel target set_head)
                    d2
                  ≢ (ok none, d'))
        go true d2 = (
          0,
          λ d' e.
              let (_, d3, p3, e3) =
                >>=-eq-ok (if set_head then set_head_public crates target else Disk.pure tt) _ e in
              cc e3,
        )
        go false d2 =
            prefix-ends (load_or_create_job crates json now target) (λ fuel job. _) d2
              (λ job d3 e3.
                prefix-ends (persist_job crates json now _) (λ fuel u. _) d3
                  (λ u d4 e4. block-ends _ d4 refl))
