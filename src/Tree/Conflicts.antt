-- ===== src/Tree/Conflicts.antt =====
-- `merge_with_conflicts` of src/tree.rs: which entries survive, and where the other side's go.
use mathlib.Core.Option.{or_else}
use soal.Base.{
  ℕ, ◌≡◌, ◌≢◌, refl, ap, ◌∙◌, Bool, true, false, Bytes, List, [], ◌∷◌, ◌++◌, Option, none, some,
  arith, if◌then◌else◌, Bool-cases, inl, inr, All,
}
use soal.Content.{ContentHash, bytes_eq, bytes_eq_iff, bytes_eq_refl}
use soal.Map.{Map, lookup, lookup-insert}
use soal.Paths.{conflict_path_name, sanitize_conflict_label}
use soal.Tree.{
  TreeEntry, file, dir, Tree, hashes_eq, entry_eq, merge_entry, merge_conflicts,
  merge_with_conflicts,
}

hashes_eq_iff : (a b : List ContentHash) → (hashes_eq a b ≡ true) → a ≡ b
unfolding hashes_eq
hashes_eq_iff [] [] h = refl
hashes_eq_iff [] (y ∷ b) h = cc
hashes_eq_iff (x ∷ a) [] h = cc
hashes_eq_iff (x ∷ a) (y ∷ b) h = ground (arith, bytes_eq_iff x y, hashes_eq_iff a b)

pub entry_eq→eq : (a b : TreeEntry) → entry_eq a b ≡ true → a ≡ b
unfolding entry_eq
entry_eq→eq (file s cs) (file t ds) h = ground (arith, hashes_eq_iff cs ds)
entry_eq→eq (file s cs) (dir k) h = cc
entry_eq→eq (dir k) (file s cs) h = cc
entry_eq→eq (dir a) (dir b) h = ap dir ((bytes_eq_iff a b).0 h)

module _ (label k : Bytes) where
  -- No path of `theirs` has its conflict copy at `k`.
  abbrev pub NoCopy : Map TreeEntry → Type 0
  NoCopy = All (λ e. bytes_eq (conflict_path_name e.0 label) k ≡ false)

  -- No path of `theirs` is `k`.
  abbrev pub NoPath : Map TreeEntry → Type 0
  NoPath = All (λ e. bytes_eq e.0 k ≡ false)

  -- One round, at a path that is not its conflict copy.
  lookup-merge_entry :
      (ours : Map TreeEntry) (n : ℕ) (path : Bytes) (theirs : TreeEntry)
      → bytes_eq (conflict_path_name path label) k ≡ false
      → lookup k (merge_entry label (ours, n) path theirs).0
        ≡ or_else (lookup k ours) (if bytes_eq path k then some theirs else none)
  unfolding merge_entry or_else
  lookup-merge_entry ours n path theirs h = ground (
    arith,
    lookup-insert path k theirs ours,
    lookup-insert (conflict_path_name path label) k theirs ours,
    bytes_eq_iff path k,
  )

  or_else-if :
      (b : Bool) (a c : Option TreeEntry) (v : TreeEntry)
      → or_else (or_else a (if b then some v else none)) c ≡ or_else a (if b then some v else c)
  unfolding or_else
  or_else-if b a c v = ground arith

  lookup-merge_conflicts :
      (s : Map TreeEntry × ℕ) (theirs : Map TreeEntry)
      → NoCopy theirs
      → lookup k (merge_conflicts label s theirs).0 ≡ or_else (lookup k s.0) (lookup k theirs)
  unfolding merge_conflicts
  lookup-merge_conflicts s [] h = unfold lookup in or_else-none (lookup k s.0)
    where
      or_else-none : (a : Option TreeEntry) → a ≡ or_else a none
      or_else-none none = unfold or_else in refl
      or_else-none (some a) = unfold or_else in refl
  lookup-merge_conflicts s ((j, v) ∷ theirs) (h, hs) =
      lookup-merge_conflicts (merge_entry label s j v) theirs hs
      ∙ ap (λ o. or_else o (lookup k theirs)) (lookup-merge_entry s.0 s.1 j v h)
      ∙ or_else-if (bytes_eq j k) (lookup k s.0) (lookup k theirs) v
      ∙ ap (or_else (lookup k s.0)) (cons_lookup j v theirs)
    where
      cons_lookup :
          (i : Bytes) (w : TreeEntry) (m : Map TreeEntry)
          → (if bytes_eq i k then some w else lookup k m) ≡ lookup k ((i, w) ∷ m)
      cons_lookup i w m = unfold lookup in refl

  lookup_of_NoPath : (theirs : Map TreeEntry) → NoPath theirs → lookup k theirs ≡ none
  unfolding lookup
  lookup_of_NoPath [] h = refl
  lookup_of_NoPath ((j, v) ∷ theirs) (h, hs) = rw h (lookup_of_NoPath theirs hs)

  -- Rounds at other paths, with their copies elsewhere, leave `k` alone.
  untouched :
      (s : Map TreeEntry × ℕ) (theirs : Map TreeEntry)
      → NoCopy theirs
      → NoPath theirs
      → lookup k (merge_conflicts label s theirs).0 ≡ lookup k s.0
  untouched s theirs c p =
      lookup-merge_conflicts s theirs c
      ∙ ap (or_else (lookup k s.0)) (lookup_of_NoPath theirs p)
      ∙ right (lookup k s.0)
    where
      right : (a : Option TreeEntry) → or_else a none ≡ a
      right none = unfold or_else in refl
      right (some a) = unfold or_else in refl

-- At a path that is not the conflict copy of a path of the other tree, a merge with conflicts has
-- our entry if we have one and the other tree's entry otherwise.
pub lookup-merge_with_conflicts :
    (t theirs : Tree) (from_label k : Bytes)
    → NoCopy (sanitize_conflict_label from_label) k theirs.entries
    → lookup k (merge_with_conflicts t theirs from_label).0.entries
      ≡ or_else (lookup k t.entries) (lookup k theirs.entries)
unfolding merge_with_conflicts
lookup-merge_with_conflicts t theirs from_label k h =
    lookup-merge_conflicts (sanitize_conflict_label from_label) k (t.entries, 0) theirs.entries h

merge_conflicts-append :
    (label : Bytes) (s : Map TreeEntry × ℕ) (a b : Map TreeEntry)
    → merge_conflicts label s (a ++ b) ≡ merge_conflicts label (merge_conflicts label s a) b
unfolding merge_conflicts
merge_conflicts-append label s [] b = refl
merge_conflicts-append label s ((j, v) ∷ a) b =
    merge_conflicts-append label (merge_entry label s j v) a b

merge_entry_copies :
    (label : Bytes) (s : Map TreeEntry × ℕ) (path : Bytes) (mine theirs : TreeEntry)
    → lookup path s.0 ≡ some mine
    → entry_eq mine theirs ≡ false
    → lookup (conflict_path_name path label) (merge_entry label s path theirs).0 ≡ some theirs
unfolding merge_entry
merge_entry_copies label s path mine theirs p d = ground (
  arith,
  p,
  d,
  lookup-insert (conflict_path_name path label) (conflict_path_name path label) theirs s.0,
  bytes_eq_refl (conflict_path_name path label),
)

-- At a path where the two trees have different entries, the merge has the other tree's entry at the
-- conflict copy of the path, provided no entry of the other tree that is merged before has that
-- path or its copy at that path, and none that is merged after has the conflict copy as its path or
-- as its own copy.
pub conflict_copy :
    (t theirs : Tree) (from_label label path : Bytes) (mine other : TreeEntry)
    (before after : Map TreeEntry)
    → label ≡ sanitize_conflict_label from_label
    → theirs.entries ≡ before ++ (path, other) ∷ after
    → lookup path t.entries ≡ some mine
    → mine ≢ other
    → NoCopy label path before × NoPath label path before
    → NoCopy label (conflict_path_name path label) after
      × NoPath label (conflict_path_name path label) after
    → lookup (conflict_path_name path label) (merge_with_conflicts t theirs from_label).0.entries
      ≡ some other
unfolding merge_with_conflicts merge_conflicts merge_entry
conflict_copy t theirs from_label label path mine other before after named e p d hb ha =
    let copy : Bytes = conflict_path_name path label in
    let s : Map TreeEntry × ℕ = merge_conflicts label (t.entries, 0) before in
    let q : lookup path s.0 ≡ some mine =
      untouched label path (t.entries, 0) before hb.0 hb.1 ∙ p in
    let diverges : entry_eq mine other ≡ false = elim (Bool-cases (entry_eq mine other)) [
      | inl same ↦ absurd (d (entry_eq→eq mine other same))
      | inr differ ↦ differ
    ] in
    rw (← named, e, merge_conflicts-append label (t.entries, 0) before ((path, other) ∷ after))
      (untouched label copy (merge_entry label s path other) after ha.0 ha.1
        ∙ merge_entry_copies label s path mine other q diverges)
