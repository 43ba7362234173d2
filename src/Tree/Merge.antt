-- ===== src/Tree/Merge.antt =====
-- `merge` of src/tree.rs, by what is at each path.
use mathlib.Core.Option.{or_else}
use soal.Base.{
  ◌≡◌, refl, ap, ◌∙◌, Bytes, [], ◌∷◌, Option, none, some, if◌then◌else◌, Bool-cases, inl, inr,
  subst,
}
use soal.Content.{bytes_eq, bytes_eq_iff}
use soal.Map.{Map, lookup, insert, Below, IsSorted, lookup-insert}
use soal.Map.Order.{insert-IsSorted, lookup_of_Below, IsSorted-ext}
use soal.Tree.{TreeEntry, Tree, merge_entries, merge}

merge_entries-IsSorted :
    (ours theirs : Map TreeEntry) → IsSorted ours → IsSorted (merge_entries ours theirs)
unfolding merge_entries
merge_entries-IsSorted ours [] s = s
merge_entries-IsSorted ours ((k, v) ∷ theirs) s =
    merge_entries-IsSorted (insert k v ours) theirs (insert-IsSorted k v ours s)

abbrev pub IsTree : Tree → Type 0
IsTree t = IsSorted t.entries

lookup_step :
    (k j : Bytes) (v : TreeEntry) (ours theirs : Map TreeEntry)
    → IsSorted ((j, v) ∷ theirs)
    → or_else (lookup k theirs) (if bytes_eq j k then some v else lookup k ours)
      ≡ or_else (lookup k ((j, v) ∷ theirs)) (lookup k ours)
unfolding lookup or_else
lookup_step k j v ours theirs (b, s) = elim (Bool-cases (bytes_eq j k)) [
  | inr p ↦ rw p
  | inl p ↦
      let none_k : lookup k theirs ≡ none =
        lookup_of_Below k theirs (subst (λ i. Below i theirs) ((bytes_eq_iff j k).0 p) b) s in
      rw (p, none_k)
]

lookup-merge_entries :
    (k : Bytes) (ours theirs : Map TreeEntry)
    → IsSorted theirs
    → lookup k (merge_entries ours theirs) ≡ or_else (lookup k theirs) (lookup k ours)
unfolding merge_entries
lookup-merge_entries k ours [] s = unfold lookup or_else in refl
lookup-merge_entries k ours ((j, v) ∷ theirs) (b, s) =
    lookup-merge_entries k (insert j v ours) theirs s
    ∙ ap (or_else (lookup k theirs)) (lookup-insert j k v ours)
    ∙ lookup_step k j v ours theirs (b, s)

-- At every path, the merge of a tree with a sorted tree has the entry of the latter if it has one,
-- and the entry of the former otherwise.
pub lookup-merge :
    (k : Bytes) (t other : Tree)
    → IsTree other
    → lookup k (merge t other).entries ≡ or_else (lookup k other.entries) (lookup k t.entries)
unfolding merge
lookup-merge k t other s = lookup-merge_entries k t.entries other.entries s

pub merge-IsTree : (t other : Tree) → IsTree t → IsTree (merge t other)
unfolding merge
merge-IsTree t other s = merge_entries-IsSorted t.entries other.entries s

-- Trees with the same lookups are the same tree.
pub Tree_ext :
    (t u : Tree)
    → IsTree t
    → IsTree u
    → ((k : Bytes) → lookup k t.entries ≡ lookup k u.entries)
    → t ≡ u
Tree_ext t u s r h = ap (λ m. record { entries = m }) (IsSorted-ext t.entries u.entries s r h)

-- Merging sorted trees is associative: both groupings give the same tree.
pub merge_assoc :
    (t u w : Tree) → IsTree t → IsTree u → IsTree w → merge (merge t u) w ≡ merge t (merge u w)
merge_assoc t u w st su sw =
    Tree_ext (merge (merge t u) w) (merge t (merge u w))
      (merge-IsTree (merge t u) w (merge-IsTree t u st)) (merge-IsTree t (merge u w) st)
      (λ k.
        rw
          (
            lookup-merge k (merge t u) w sw,
            lookup-merge k t u su,
            lookup-merge k t (merge u w) (merge-IsTree u w su),
            lookup-merge k u w sw,
          )
          (or_else_assoc (lookup k w.entries) (lookup k u.entries) (lookup k t.entries)))
  where
    or_else_assoc : (a b c : Option TreeEntry) → or_else a (or_else b c) ≡ or_else (or_else a b) c
    or_else_assoc none b c = unfold or_else in refl
    or_else_assoc (some a) b c = unfold or_else in refl

-- Merging a sorted tree with itself gives the same tree.
pub merge_self : (t : Tree) → IsTree t → merge t t ≡ t
merge_self t s =
    Tree_ext (merge t t) t (merge-IsTree t t s) s
      (λ k. lookup-merge k t t s ∙ same (lookup k t.entries))
  where
    same : (a : Option TreeEntry) → or_else a a ≡ a
    same none = unfold or_else in refl
    same (some a) = unfold or_else in refl
