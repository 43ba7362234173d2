-- ===== src/Vault/Exchange/Serving.antt =====
-- src/vault.rs, the blobs of `collect_provide_hashes`.
use mathlib.Core.List.{Memᴰ}
use mathlib.Core.List.Memᴰ
use soal.Base.{
  ℕ, zero, suc, ◌≡◌, refl, sym, subst, inl, inr, Bool, true, false, not, ◌&&◌, Bytes, List, [], ◌∷◌,
  ◌++◌, ltb, length, Option, some, Result, ok, err, panic, if◌then◌else◌,
}
use soal.Content.{ContentHash}
use soal.Codec.Frame.{cid_of}
use soal.Disk.{Disk, pure}
use soal.Disk.Triples.{Files, After}
use soal.Disk.Unchanged.{Reads, >>=-Reads, pure-Reads, fail-Reads, if-Reads}
use soal.Set.{contains, add}
use soal.Tree.{all_chunk_hashes}
use soal.Vault.{Crates}
use soal.Vault.Objects.{has_commit_object, has_tree_object}
use soal.Vault.Transfer.{export_stored_chunk}
use soal.Vault.Transfer.Served.{
  Has, load_tree-Reads, load_commit-Reads, export_tree_bytes-Reads, export_commit_bytes-Reads,
  export_stored_chunk-Reads,
}
use soal.Vault.Exchange.{
  Blobs, Provided, max_job_commits, push_if, provide_chunk, provide_chunks, provide_tree,
  provide_commit, provide_walk, collect_provide_hashes,
}

module _ (crates : Crates) (old : Files) where
  open crates use {blake3}

  -- Each blob has the hash that it is sent under.
  abbrev pub AreOf : Blobs → Type 0
  AreOf blobs = (h : ContentHash) (bytes : Bytes) → Memᴰ (h, bytes) blobs → cid_of blake3 bytes ≡ h

  pushed :
      (blobs : Blobs) (h : ContentHash) (bytes : Bytes)
      → AreOf blobs
      → cid_of blake3 bytes ≡ h
      → AreOf (blobs ++ (h, bytes) ∷ [])
  pushed blobs h bytes all e k b m = elim (Memᴰ.append_cases blobs m) [
    | inl there ↦ all k b there
    | inr new ↦
        subst (λ (x : ContentHash × Bytes). cid_of blake3 x.1 ≡ x.0)
          (sym (Memᴰ.eq_of_singleton new)) e
  ]

  abbrev State : Provided → Type 0
  State s = AreOf s.out

  provide_chunk-Reads :
      (ch : ContentHash) (s : Provided) → State s → Reads old (provide_chunk crates ch s) State
  unfolding provide_chunk pure
  provide_chunk-Reads ch s all =
      if-Reads old (λ d. contains ch s.seen_blobs) _ _ (pure-Reads old s all)
        (record {
          run = λ d h.
              push (export_stored_chunk crates ch d)
                ((export_stored_chunk-Reads crates ch old).run d h);
        })
    where
      push :
          (r : Result Bytes × Disk)
          → After (λ bytes m. (m ≡ old) × Has crates ch old bytes) (λ m. m ≡ old) r
          → After (λ s' m. (m ≡ old) × State s') (λ m. m ≡ old) (push_if crates ch s r)
      push (ok bytes, d) p = unfold After push_if in (p.0, pushed s.out ch bytes all p.1)
      push (err e, d) p = unfold After push_if in (p, all)
      push (panic, d) p = unfold After push_if in p

  provide_chunks-Reads :
      (chs : List ContentHash) (s : Provided)
      → State s
      → Reads old (provide_chunks crates chs s) State
  unfolding provide_chunks
  provide_chunks-Reads [] s all = pure-Reads old s all
  provide_chunks-Reads (ch ∷ chs) s all =
      >>=-Reads old State (provide_chunk-Reads ch s all)
        (λ s' all'. provide_chunks-Reads chs s' all')

  provide_tree-Reads :
      (hash : ContentHash) (s : Provided) → State s → Reads old (provide_tree crates hash s) State
  unfolding provide_tree pure
  provide_tree-Reads hash s all =
      if-Reads old (λ d. has_tree_object crates hash d && not (contains hash s.seen_blobs)) _ _
        (>>=-Reads old (Has crates hash old) (export_tree_bytes-Reads crates hash old) (λ bytes e.
          >>=-Reads old (λ t. Unit {0}) (load_tree-Reads crates hash old)
            (λ tree _.
              provide_chunks-Reads (all_chunk_hashes tree) _ (pushed s.out hash bytes all e))))
        (pure-Reads old s all)

  provide_commit-Reads :
      (cid : ContentHash) (s : Provided)
      → State s
      → Reads old (provide_commit crates cid s) (λ p. State p.0)
  unfolding provide_commit
  provide_commit-Reads cid s all =
      >>=-Reads old (Has crates cid old) (export_commit_bytes-Reads crates cid old) (λ bytes e.
        >>=-Reads old (λ c. Unit {0}) (load_commit-Reads crates cid old)
          (λ commit _.
            >>=-Reads old State
              (provide_tree-Reads commit.tree _ (chosen bytes e (contains cid s.seen_blobs)))
              (λ s' all'. pure-Reads old (s', commit.parents) all')))
    where
      chosen :
          (bytes : Bytes)
          → cid_of blake3 bytes ≡ cid
          → (b : Bool)
          → State (
              if b
              then s
              else record s { out = s.out ++ (cid, bytes) ∷ []; seen_blobs = add cid s.seen_blobs })
      chosen bytes e true = all
      chosen bytes e false = pushed s.out cid bytes all e

  abbrev Sent : Option Blobs → Type 0
  Sent o = (blobs : Blobs) → o ≡ some blobs → AreOf blobs

  provide_walk-Reads :
      (fuel : ℕ) (queue : List ContentHash) (s : Provided)
      → State s
      → Reads old (provide_walk crates fuel queue s) Sent
  unfolding provide_walk
  provide_walk-Reads fuel [] s all =
      pure-Reads old _ (λ blobs e. subst AreOf (some_injective e) all)
    where
      some_injective : {x y : Blobs} → some x ≡ some y → x ≡ y
      some_injective e = cc
  provide_walk-Reads zero (cid ∷ queue) s all = pure-Reads old _ (λ blobs e. absurd cc)
  provide_walk-Reads (suc fuel) (cid ∷ queue) s all =
      let seen = record s { seen_commits = add cid s.seen_commits } in
      if-Reads old (λ d. contains cid s.seen_commits) _ _ (provide_walk-Reads fuel queue s all)
        (if-Reads old (λ d. ltb max_job_commits (length seen.seen_commits)) _ _ (fail-Reads old _)
          (if-Reads old (λ d. not (has_commit_object crates cid d)) _ _
            (provide_walk-Reads fuel queue seen all)
            (>>=-Reads old (λ p. State p.0) (provide_commit-Reads cid seen all)
              (λ p all'. provide_walk-Reads fuel (queue ++ p.1) p.0 all'))))

-- For any sequence of failing calls and any number of rounds: each blob that collect_provide_hashes
-- returns has the hash that it is paired with, and no file is changed, whether it returns or fails.
pub collect_provide_hashes-After :
    (crates : Crates) (fuel : ℕ) (hash : ContentHash) (d : Disk)
    → After
        (λ o m. (m ≡ d.files) × ((blobs : Blobs) → o ≡ some blobs → AreOf crates d.files blobs))
        (λ m. m ≡ d.files)
        (collect_provide_hashes crates fuel hash d)
unfolding collect_provide_hashes
collect_provide_hashes-After crates fuel hash d =
    (provide_walk-Reads crates d.files fuel (hash ∷ []) _ (λ h b k. absurd (Memᴰ.not-nil k))).run d
      refl
