-- ===== src/Vault/Live/Ends.antt =====
-- src/vault.rs, the marking walks: how many rounds they take.
use mathlib.Core.List.{Memᴰ}
use mathlib.Core.List.Memᴰ
use soal.Base.{
  ℕ, zero, suc, ◌+◌, ◌≤◌, ◌≡◌, ◌≢◌, refl, subst, ap, inl, inr, true, false, ◌++◌, List, [], ◌∷◌,
  reverse, none, Result, ok, err, panic, Bool-cases, if◌then◌else◌, length, length-append, arith,
  not,
}
use mathlib.Core.List.{reverse-cons}
use soal.Content.{ContentHash, bytes_eq_iff}
use soal.Commit.{Commit}
use soal.Disk.{Disk, quiet, pure, ◌>>=◌}
use soal.Disk.Triples.{Files}
use soal.Disk.Quiet.{>>=-quiet, IsReading, >>=-IsReading, pure-IsReading, if-IsReading}
use soal.Set.{Hashes, contains, add, contains-add}
use soal.Vault.{Crates}
use soal.Vault.Objects.{has_commit_object, has_tree_object, load_commit}
use soal.Vault.Objects.Reading.{load_commit-IsReading, load_tree-IsReading}
use soal.Vault.Heads.Reading.{live_roots-IsReading}
use soal.Vault.Live.Rounds.{Holds}
use soal.Vault.Live.Reach.{Linked, mem_of_reverse}
use soal.Vault.Live.{
  Mark, walk, mark_chunks, mark_objects, live_roots, live_object_hashes, live_chunk_hashes,
  live_chunk_hashes_from_roots,
}

length-reverse {ℓ} : {A : Type ℓ} (xs : List A) → length (reverse xs) ≡ length xs
length-reverse [] = refl
length-reverse (x ∷ xs) =
    rw (reverse-cons x xs) (omega (arith, length-append (reverse xs) (x ∷ []), length-reverse xs))

module _ (crates : Crates) (m : Files) where
  unfoldable pub parents_of : Result Commit → ℕ
  parents_of (ok c) = length c.parents
  parents_of (err e) = 0
  parents_of panic = 0

  -- How many parents the commit has that is loaded for a hash.
  unfoldable pub parent_count : ContentHash → ℕ
  parent_count h = parents_of (load_commit crates h (quiet m)).0

  -- The parents of the listed commits that a walk has not seen.
  unfoldable pub unseen : List ContentHash → Hashes → ℕ
  unseen [] seen = 0
  unseen (u ∷ us) seen = (if contains u seen then 0 else parent_count u) + unseen us seen

  unseen-add-le :
      (h : ContentHash) (us : List ContentHash) (seen : Hashes)
      → unseen us (add h seen) ≤ unseen us seen
  unfolding unseen
  unseen-add-le h [] seen = omega arith
  unseen-add-le h (u ∷ us) seen = ground (arith, contains-add h u seen, unseen-add-le h us seen)

  unseen-add :
      (h : ContentHash) (us : List ContentHash) (seen : Hashes)
      → Memᴰ h us
      → contains h seen ≡ false
      → unseen us (add h seen) + parent_count h ≤ unseen us seen
  unfolding unseen
  unseen-add h [] seen k new = absurd (Memᴰ.not-nil k)
  unseen-add h (u ∷ us) seen k new = elim (Memᴰ.cases_cons k) [
    | inl e ↦ ground (arith, contains-add h u seen, bytes_eq_iff h u, unseen-add-le h us seen)
    | inr t ↦ ground (arith, contains-add h u seen, unseen-add h us seen t new)
  ]

  walk-IsReading :
      (mark : Mark crates)
      → ((h : ContentHash) (c : Commit) (live : Hashes) → IsReading (mark h c live))
      → (fuel : ℕ) (queue : List ContentHash) (seen live : Hashes)
      → IsReading (walk crates mark fuel queue seen live)
  unfolding walk
  walk-IsReading mark reads fuel [] seen live = pure-IsReading _
  walk-IsReading mark reads zero (h ∷ queue) seen live = pure-IsReading _
  walk-IsReading mark reads (suc fuel) (h ∷ queue) seen live =
      if-IsReading (λ d. contains h seen) _ _ (walk-IsReading mark reads fuel queue seen live)
        (if-IsReading (λ d. not (has_commit_object crates h d)) _ _
          (walk-IsReading mark reads fuel queue (add h seen) live)
          (>>=-IsReading _ _ (load_commit-IsReading crates h) (λ c.
            >>=-IsReading _ _ (reads h c live) (λ live'.
              walk-IsReading mark reads fuel (reverse c.parents ++ queue) (add h seen) live'))))

  module _ (mark : Mark crates)
      (reads : (h : ContentHash) (c : Commit) (live : Hashes) → IsReading (mark h c live))
      (us roots : List ContentHash)
      (all_there : (h : ContentHash)
        → Linked crates m (λ a. Memᴰ a roots) h
        → has_commit_object crates h (quiet m) ≡ true
        → Memᴰ h us) where
    walk_ends :
        (fuel : ℕ) (queue : List ContentHash) (seen live : Hashes) (d : Disk)
        → ((x : ContentHash) → Memᴰ x queue → Linked crates m (λ a. Memᴰ a roots) x)
        → length queue + unseen us seen ≤ fuel
        → walk crates mark fuel queue seen live (quiet m) ≢ (ok none, d)
    unfolding walk
    walk_ends fuel [] seen live d led small e = unfold pure in cc
    walk_ends zero (h ∷ queue) seen live d led small e = absurd (omega arith)
    walk_ends (suc fuel) (h ∷ queue) seen live d led small e = elim (Bool-cases (contains h seen)) [
      | inl old ↦
          walk_ends fuel queue seen live d (λ x k. led x (Memᴰ.tail k)) (omega arith)
            (rw (old, walk) at e)
      | inr new ↦ elim (Bool-cases (has_commit_object crates h (quiet m))) [
        | inr absent ↦
            walk_ends fuel queue (add h seen) live d (λ x k. led x (Memᴰ.tail k))
              (omega (arith, unseen-add-le h us seen)) (rw (new, absent, walk) at e)
        | inl there ↦
            let (c, p, e1) =
              >>=-quiet (load_commit crates h) _ (load_commit-IsReading crates h)
                (rw (new, there, walk) at e) in
            let (live', q, e2) = >>=-quiet (mark h c live) _ (reads h c live) e1 in
            let held : Holds crates m h c = record { present = there; loaded = p } in
            walk_ends fuel (reverse c.parents ++ queue) (add h seen) live' d
              (λ x k. elim (Memᴰ.append_cases (reverse c.parents) k) [
                | inl up ↦
                    Linked.parent c (led h (Memᴰ.head refl)) held (mem_of_reverse x c.parents up)
                | inr old ↦ led x (Memᴰ.tail old)
              ])
              (omega (
                arith,
                length-append (reverse c.parents) queue,
                length-reverse c.parents,
                unseen-add h us seen (all_there h (led h (Memᴰ.head refl)) there) new,
                count h c (quiet m) p,
              ))
              e2
      ]
    ]
      where
        count :
            (h : ContentHash) (c : Commit) (d1 : Disk)
            → load_commit crates h (quiet m) ≡ (ok c, d1)
            → parent_count h ≡ length c.parents
        count h c d1 p = unfold parent_count parents_of in ap parents_of (ap (λ r. r.0) p)

  mark_objects-IsReading :
      (h : ContentHash) (c : Commit) (live : Hashes) → IsReading (mark_objects crates h c live)
  unfolding mark_objects
  mark_objects-IsReading h c live = pure-IsReading _

  mark_chunks-IsReading :
      (h : ContentHash) (c : Commit) (live : Hashes) → IsReading (mark_chunks crates h c live)
  unfolding mark_chunks
  mark_chunks-IsReading h c live =
      if-IsReading (has_tree_object crates c.tree) _ _
        (>>=-IsReading _ _ (load_tree-IsReading crates c.tree) (λ tree. pure-IsReading _))
        (record { left = λ f. refl })

  pub live_object_hashes-IsReading : (fuel : ℕ) → IsReading (live_object_hashes crates fuel)
  unfolding live_object_hashes
  live_object_hashes-IsReading fuel =
      >>=-IsReading _ _ (live_roots-IsReading crates)
        (λ roots. walk-IsReading (mark_objects crates) mark_objects-IsReading fuel _ [] [])

  pub live_chunk_hashes-IsReading : (fuel : ℕ) → IsReading (live_chunk_hashes crates fuel)
  unfolding live_chunk_hashes live_chunk_hashes_from_roots
  live_chunk_hashes-IsReading fuel =
      >>=-IsReading _ _ (live_roots-IsReading crates)
        (λ roots. walk-IsReading (mark_chunks crates) mark_chunks-IsReading fuel _ [] [])

  module _ (us roots : List ContentHash)
      (all_there : (h : ContentHash)
        → Linked crates m (λ a. Memᴰ a roots) h
        → has_commit_object crates h (quiet m) ≡ true
        → Memᴰ h us)
      (start : live_roots crates (quiet m) ≡ (ok roots, quiet m)) (fuel : ℕ)
      (enough : length roots + unseen us [] ≤ fuel) (d : Disk) where
    from_roots :
        (mark : Mark crates)
        → ((h : ContentHash) (c : Commit) (live : Hashes) → IsReading (mark h c live))
        → (live_roots crates >>= (λ rs. walk crates mark fuel (reverse rs) [] [])) (quiet m)
          ≢ (ok none, d)
    from_roots mark reads e =
        let (rs, p, e1) = >>=-quiet (live_roots crates) _ (live_roots-IsReading crates) e in
        let same : rs ≡ roots = cc (p, start) in
        walk_ends mark reads us roots all_there fuel (reverse rs) [] [] d
          (λ x k.
            Linked.root (subst (λ (l : List ContentHash). Memᴰ x l) same (mem_of_reverse x rs k)))
          (omega (arith, length-reverse rs, ap (λ (x : List ContentHash). length x) same)) e1

    -- On a disk with no failing call, where a list names every commit that the vault has and that
    -- what live_roots returns leads to: a number of rounds that is at least the number of these
    -- roots and of parents of the commits in the list is enough for live_object_hashes and for
    -- live_chunk_hashes, whatever the history.
    pub live_hashes_end :
        (live_object_hashes crates fuel (quiet m) ≢ (ok none, d))
        × (live_chunk_hashes crates fuel (quiet m) ≢ (ok none, d))
    unfolding live_object_hashes live_chunk_hashes live_chunk_hashes_from_roots
    live_hashes_end = (
      from_roots (mark_objects crates) mark_objects-IsReading,
      from_roots (mark_chunks crates) mark_chunks-IsReading,
    )
