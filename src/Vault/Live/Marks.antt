-- ===== src/Vault/Live/Marks.antt =====
-- src/vault.rs, what `live_object_hashes` and `live_chunk_hashes` mark as live: commits and their
-- trees, or the chunks of the trees.
use mathlib.Core.List.{Memᴰ}
use soal.Base.{
  ℕ, ◌≡◌, ◌↔◌, sym, subst, ◌⊎◌, inl, inr, true, false, [], reverse, some, ok, Result, Bool-cases,
}
use soal.Content.{ContentHash}
use soal.Commit.{Commit}
use soal.Tree.{Tree, all_chunk_hashes}
use soal.Disk.{Disk, quiet, ◌>>=◌}
use soal.Disk.Triples.{Files}
use soal.Disk.Quiet.{>>=-quiet, pure-eq}
use soal.Set.{
  Hashes, contains, add, add_all, contains-add_cases, contains-add_self, contains-add_old,
  contains-add_all, contains-add_all_old, contains-add_all_cases,
}
use soal.Vault.{Crates}
use soal.Vault.Objects.{has_tree_object, load_tree}
use soal.Vault.Objects.Reading.{load_tree-IsReading}
use soal.Vault.Heads.Reading.{live_roots-IsReading}
use soal.Vault.Live.{
  Mark, walk, mark_chunks, mark_objects, live_roots, live_object_hashes, live_chunk_hashes,
  live_chunk_hashes_from_roots,
}
use soal.Vault.Live.Roots.{IsRoot, live_roots_iff}
use soal.Vault.Live.Reach.{IsLive, Item, Marks, walk_left, mem-reverse, mem_of_reverse}
use soal.Vault.Live.Complete.{walk_iff}

module _ (crates : Crates) (m : Files) where
  -- The commit itself, and its tree.
  abbrev pub IsObject : Item crates m
  IsObject h c x = (x ≡ h) ⊎ (x ≡ c.tree)

  -- A chunk of the commit's tree, where the vault has that.
  pub record IsChunk (h : ContentHash) (c : Commit) (x : ContentHash) : Type 0 where
    pub tree : Tree
    pub present : has_tree_object crates c.tree (quiet m) ≡ true
    pub loaded : load_tree crates c.tree (quiet m) ≡ (ok tree, quiet m)
    pub chunk : Memᴰ x (all_chunk_hashes tree)

  objects : Marks crates m (mark_objects crates) IsObject
  unfolding mark_objects
  objects = record {
    stays = λ h c live live' d e. sym (pure-eq e).1;
    only = λ h c live live' d x e k.
        elim (contains-add_cases c.tree x (add h live)
          (subst (λ s. contains x s ≡ true) (sym (pure-eq e).0) k)) [
            | inl t ↦ inr (inr t)
            | inr f ↦ elim (contains-add_cases h x live f) [
              | inl q ↦ inr (inl q)
              | inr old ↦ inl old
            ]
          ];
    keeps = λ h c live live' d x e k.
        subst (λ s. contains x s ≡ true) (pure-eq e).0
          (contains-add_old c.tree x (add h live) (contains-add_old h x live k));
    marks = λ h c live live' d x e i.
        subst (λ s. contains x s ≡ true) (pure-eq e).0
          (elim i [
            | inl q ↦ rw q (contains-add_old c.tree h (add h live) (contains-add_self h live))
            | inr q ↦ rw q (contains-add_self c.tree (add h live))
          ]);
  }

  -- The two ways that `mark_chunks` returns.
  chunk_cases :
      (h : ContentHash) (c : Commit) (live live' : Hashes) (d : Disk)
      → mark_chunks crates h c live (quiet m) ≡ (ok live', d)
      → ((has_tree_object crates c.tree (quiet m) ≡ false) × (live ≡ live') × (d ≡ quiet m))
        ⊎ ((tree : Tree) × (has_tree_object crates c.tree (quiet m) ≡ true)
            × (load_tree crates c.tree (quiet m) ≡ (ok tree, quiet m))
            × (add_all (all_chunk_hashes tree) live ≡ live')
            × (d ≡ quiet m))
  unfolding mark_chunks
  chunk_cases h c live live' d e = elim (Bool-cases (has_tree_object crates c.tree (quiet m))) [
    | inr none_there ↦
        let (q, s) = no_tree (rw (none_there, mark_chunks) at e) in inl (none_there, q, s)
    | inl there ↦
        let (tree, p, e1) =
          >>=-quiet (load_tree crates c.tree) _ (load_tree-IsReading crates c.tree)
            (rw (there, mark_chunks) at e) in
        let (q, s) = pure-eq e1 in inr (tree, there, p, q, sym s)
  ]
    where
      no_tree :
          {l k : Hashes} {a b : Disk}
          → ◌≡◌ {A = Result Hashes × Disk} (ok l, a) (ok k, b)
          → (l ≡ k) × (b ≡ a)
      no_tree e = (cc, cc)

  chunks : Marks crates m (mark_chunks crates) IsChunk
  chunks = record {
    stays = λ h c live live' d e. elim (chunk_cases h c live live' d e) [
      | inl (_, _, s) ↦ s
      | inr (_, _, _, _, s) ↦ s
    ];
    only = λ h c live live' d x e k. elim (chunk_cases h c live live' d e) [
      | inl (_, s, _) ↦ inl (subst (λ a. contains x a ≡ true) (sym s) k)
      | inr (tree, there, p, s, _) ↦
          elim (contains-add_all_cases x (all_chunk_hashes tree) live
            (subst (λ a. contains x a ≡ true) (sym s) k)) [
              | inl q ↦ inr (record { tree = tree; present = there; loaded = p; chunk = q })
              | inr old ↦ inl old
            ]
    ];
    keeps = λ h c live live' d x e k. elim (chunk_cases h c live live' d e) [
      | inl (_, s, _) ↦ subst (λ a. contains x a ≡ true) s k
      | inr (tree, there, p, s, _) ↦
          subst (λ a. contains x a ≡ true) s (contains-add_all_old x (all_chunk_hashes tree) live k)
    ];
    marks = λ h c live live' d x e i. elim (chunk_cases h c live live' d e) [
      | inl (gone, s, _) ↦ absurd (cc (gone, i.present))
      | inr (tree, there, p, s, _) ↦
          let same : tree ≡ i.tree = cc (p, i.loaded) in
          subst (λ a. contains x a ≡ true) s
            (contains-add_all x (all_chunk_hashes tree) live
              (subst (λ (t : Tree). Memᴰ x (all_chunk_hashes t)) (sym same) i.chunk))
    ];
  }

  module _ (fuel : ℕ) (out : Hashes) (d : Disk) where
    -- From the roots, a walk that returns.
    marked_iff :
        (mark : Mark crates) (item : Item crates m)
        → Marks crates m mark item
        → (live_roots crates >>= (λ roots. walk crates mark fuel (reverse roots) [] [])) (quiet m)
          ≡ (ok (some out), d)
        → (d ≡ quiet m)
          × ((x : ContentHash) → (contains x out ≡ true) ↔ IsLive crates m item (IsRoot crates m) x)
    marked_iff mark item spec e =
        let (roots, p, w) = >>=-quiet (live_roots crates) _ (live_roots-IsReading crates) e in
        (
          walk_left crates m mark item spec fuel (reverse roots) [] [] out d w,
          λ x.
              walk_iff crates m item mark spec fuel (IsRoot crates m) (reverse roots) out d x
                (λ h k. mem-reverse h roots ((live_roots_iff crates m roots h p).1 k))
                (λ h k. (live_roots_iff crates m roots h p).0 (mem_of_reverse h roots k)) w,
        )

    -- On a disk with no failing call, a set that live_object_hashes returns holds exactly the
    -- commits that the vault has and loads, and that the roots lead to along the parents of such
    -- commits, and the trees of these commits; the disk is unchanged. Where protected_commit_roots
    -- returns, the roots are what HEAD, HEADS and the registered snapshots name; where it fails,
    -- the only root is what HEAD names, if it can be read.
    pub live_object_hashes_iff :
        live_object_hashes crates fuel (quiet m) ≡ (ok (some out), d)
        → (d ≡ quiet m)
          × ((x : ContentHash)
              → (contains x out ≡ true) ↔ IsLive crates m IsObject (IsRoot crates m) x)
    unfolding live_object_hashes
    live_object_hashes_iff e = marked_iff (mark_objects crates) IsObject objects e

    -- On a disk with no failing call, a set that live_chunk_hashes returns holds exactly the chunks
    -- of the trees, as far as the vault has them and loads them, of the commits that the vault has
    -- and loads, and that the roots lead to along the parents of such commits; the disk is
    -- unchanged. Where protected_commit_roots returns, the roots are what HEAD, HEADS and the
    -- registered snapshots name; where it fails, the only root is what HEAD names, if it can be
    -- read.
    pub live_chunk_hashes_iff :
        live_chunk_hashes crates fuel (quiet m) ≡ (ok (some out), d)
        → (d ≡ quiet m)
          × ((x : ContentHash)
              → (contains x out ≡ true) ↔ IsLive crates m IsChunk (IsRoot crates m) x)
    unfolding live_chunk_hashes live_chunk_hashes_from_roots
    live_chunk_hashes_iff e = marked_iff (mark_chunks crates) IsChunk chunks e
