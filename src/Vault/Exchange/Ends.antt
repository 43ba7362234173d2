-- ===== src/Vault/Exchange/Ends.antt =====
-- src/vault.rs, the loop of `collect_provide_hashes` over commits: how long it runs.
use soal.Base.{
  ℕ, zero, suc, ◌+◌, ◌≤◌, ◌≡◌, ◌≢◌, refl, sym, ◌∙◌, ap, true, false, not, ◌&&◌, inl, inr, Bool,
  Bool-cases, Bytes, List, [], ◌∷◌, ◌++◌, ltb, length, Option, none, some, Result, ok, err, panic,
  arith, ok_injective,
}
use soal.Content.{ContentHash}
use soal.Disk.{Disk, pure}
use soal.Disk.Quiet.{>>=-eq-ok}
use soal.Disk.Fuel.{prefix-ends}
use soal.Set.{Hashes, contains, add, length-add}
use soal.Tree.{all_chunk_hashes}
use soal.Vault.{Crates}
use soal.Vault.Objects.{has_commit_object, has_tree_object, load_commit, load_tree}
use soal.Vault.Transfer.{export_stored_chunk, export_tree_bytes, export_commit_bytes}
use soal.Vault.Exchange.{
  Provided, max_job_commits, push_if, provide_chunk, provide_chunks, provide_tree, provide_commit,
  provide_walk, collect_provide_hashes,
}

module _ (crates : Crates) where
  -- The set of commits that were seen stays.
  abbrev Same : Provided → Provided → Type 0
  Same s s' = s'.seen_commits ≡ s.seen_commits

  returned {ℓ} :
      {A : Type ℓ} {a b : A} {d e : Disk} → ◌≡◌ {A = Result A × Disk} (ok a, d) (ok b, e) → a ≡ b
  returned e = ok_injective (ap (λ p. p.0) e)

  same : {s s' : Provided} → s ≡ s' → Same s s'
  same e = ap (λ (x : Provided). x.seen_commits) (sym e)

  push_if-Same :
      (ch : ContentHash) (s s' : Provided) (r : Result Bytes × Disk) (d' : Disk)
      → push_if crates ch s r ≡ (ok s', d')
      → Same s s'
  unfolding push_if
  push_if-Same ch s s' (ok bytes, d) d' e = ap (λ (x : Provided). x.seen_commits) (sym (returned e))
  push_if-Same ch s s' (err x, d) d' e = ap (λ (x : Provided). x.seen_commits) (sym (returned e))
  push_if-Same ch s s' (panic, d) d' e = absurd (cc e)

  provide_chunk-Same :
      (ch : ContentHash) (s s' : Provided) (d d' : Disk)
      → provide_chunk crates ch s d ≡ (ok s', d')
      → Same s s'
  unfolding provide_chunk
  provide_chunk-Same ch s s' d d' e = elim (Bool-cases (contains ch s.seen_blobs)) [
    | inl old ↦ same (returned (rw (old, provide_chunk) at e))
    | inr new ↦
        push_if-Same ch s s' (export_stored_chunk crates ch d) d' (rw (new, provide_chunk) at e)
  ]

  provide_chunks-Same :
      (chs : List ContentHash) (s s' : Provided) (d d' : Disk)
      → provide_chunks crates chs s d ≡ (ok s', d')
      → Same s s'
  unfolding provide_chunks pure
  provide_chunks-Same [] s s' d d' e = same (returned e)
  provide_chunks-Same (ch ∷ chs) s s' d d' e =
      let (s1, d1, p, q) = >>=-eq-ok (provide_chunk crates ch s) _ e in
      provide_chunks-Same chs s1 s' d1 d' q ∙ provide_chunk-Same ch s s1 d d1 p

  provide_tree-Same :
      (hash : ContentHash) (s s' : Provided) (d d' : Disk)
      → provide_tree crates hash s d ≡ (ok s', d')
      → Same s s'
  unfolding provide_tree
  provide_tree-Same hash s s' d d' e =
      elim (Bool-cases (has_tree_object crates hash d && not (contains hash s.seen_blobs))) [
        | inr skip ↦ same (returned (rw (skip, provide_tree) at e))
        | inl work ↦
            let (bytes, d1, _, q) =
              >>=-eq-ok (export_tree_bytes crates hash) _ (rw (work, provide_tree) at e) in
            let (tree, d2, _, q2) = >>=-eq-ok (load_tree crates hash) _ q in
            provide_chunks-Same (all_chunk_hashes tree) _ s' d2 d' q2
      ]

  provide_commit-Same :
      (cid : ContentHash) (s s' : Provided) (parents : List ContentHash) (d d' : Disk)
      → provide_commit crates cid s d ≡ (ok (s', parents), d')
      → Same s s'
  unfolding provide_commit pure
  provide_commit-Same cid s s' parents d d' e =
      let (bytes, d1, _, q) = >>=-eq-ok (export_commit_bytes crates cid) _ e in
      let (commit, d2, _, q2) = >>=-eq-ok (load_commit crates cid) _ q in
      let (s3, d3, p3, q3) = >>=-eq-ok (provide_tree crates commit.tree _) _ q2 in
      let kept : s3 ≡ s' = ap (λ x. x.0) (returned q3) in
      same kept
      ∙ provide_tree-Same commit.tree _ s3 d2 d3 p3
      ∙ chosen (contains cid s.seen_blobs) bytes
    where
      chosen :
          (b : Bool) (bytes : Bytes)
          → Same s (
              soal.Base.if◌then◌else◌ b s
                (record s { out = s.out ++ (cid, bytes) ∷ []; seen_blobs = add cid s.seen_blobs }))
      chosen true bytes = refl
      chosen false bytes = refl

  -- Some number of rounds is enough for the loop.
  abbrev Ends : List ContentHash → Provided → Disk → Type 0
  Ends queue s d = (fuel : ℕ) × ((d' : Disk) → provide_walk crates fuel queue s d ≢ (ok none, d'))

  abbrev seen : ContentHash → Provided → Provided
  seen cid s = record s { seen_commits = add cid s.seen_commits }

  later :
      (cid : ContentHash) (queue : List ContentHash) (s : Provided) (d : Disk)
      → contains cid s.seen_commits ≡ true
      → Ends queue s d
      → Ends (cid ∷ queue) s d
  unfolding provide_walk
  later cid queue s d old (fuel, ends) = (suc fuel, λ d' e. ends d' (rw (old, provide_walk) at e))

  full :
      (cid : ContentHash) (queue : List ContentHash) (s : Provided) (d : Disk)
      → contains cid s.seen_commits ≡ false
      → ltb max_job_commits (length (add cid s.seen_commits)) ≡ true
      → Ends (cid ∷ queue) s d
  unfolding provide_walk
  full cid queue s d new big = (1, λ d' e. cc (rw (new, big, provide_walk) at e))

  visited :
      (cid : ContentHash) (queue : List ContentHash) (s : Provided) (d : Disk)
      → contains cid s.seen_commits ≡ false
      → ltb max_job_commits (length (add cid s.seen_commits)) ≡ false
      → Ends queue (seen cid s) d
      → ((s1 : Provided) (parents : List ContentHash) (d1 : Disk)
          → provide_commit crates cid (seen cid s) d ≡ (ok (s1, parents), d1)
          → Ends (queue ++ parents) s1 d1)
      → Ends (cid ∷ queue) s d
  unfolding provide_walk
  visited cid queue s d new small absent rest = elim (Bool-cases (has_commit_object crates cid d)) [
    | inr gone ↦
        let (fuel, ends) = absent in
        (suc fuel, λ d' e. ends d' (rw (new, small, gone, provide_walk) at e))
    | inl there ↦
        let (fuel, ends) =
          prefix-ends (provide_commit crates cid (seen cid s))
            (λ fuel p. provide_walk crates fuel (queue ++ p.1) p.0) d
            (λ p d1 e. rest p.0 p.1 d1 e) in
        (suc fuel, λ d' e. ends d' (rw (new, small, there, provide_walk) at e))
  ]

  -- `room` is how many more commits may be seen.
  walk-Ends :
      (room : ℕ) (queue : List ContentHash) (s : Provided) (d : Disk)
      → max_job_commits ≤ room + length s.seen_commits
      → Ends queue s d
  unfolding provide_walk pure
  walk-Ends room [] s d h = (0, λ d' e. cc e)
  walk-Ends zero (cid ∷ queue) s d h = elim (Bool-cases (contains cid s.seen_commits)) [
    | inl old ↦ later cid queue s d old (walk-Ends zero queue s d h)
    | inr new ↦ full cid queue s d new (ground (arith, h, length-add cid s.seen_commits new))
  ]
  walk-Ends (suc room) (cid ∷ queue) s d h = elim (Bool-cases (contains cid s.seen_commits)) [
    | inl old ↦ later cid queue s d old (walk-Ends (suc room) queue s d h)
    | inr new ↦ elim (Bool-cases (ltb max_job_commits (length (add cid s.seen_commits)))) [
      | inl big ↦ full cid queue s d new big
      | inr small ↦
          visited cid queue s d new small
            (walk-Ends room queue (seen cid s) d
              (omega (arith, h, length-add cid s.seen_commits new)))
            (λ s1 parents d1 e. walk-Ends room (queue ++ parents) s1 d1 (
              omega (
                arith,
                h,
                length-add cid s.seen_commits new,
                ap (λ (v : Hashes). length v)
                    (provide_commit-Same cid (seen cid s) s1 parents d d1 e),
              )))
    ]
  ]

-- For any sequence of failing calls, and however the history branches: some number of rounds is
-- enough for collect_provide_hashes.
pub collect_provide_hashes_ends :
    (crates : Crates) (hash : ContentHash) (d : Disk)
    → (fuel : ℕ) × ((d' : Disk) → collect_provide_hashes crates fuel hash d ≢ (ok none, d'))
unfolding collect_provide_hashes
collect_provide_hashes_ends crates hash d =
    walk-Ends crates max_job_commits (hash ∷ []) _ d (omega arith)
