-- ===== src/Health/Diff.antt =====
-- src/health.rs, `diff_commits`: which paths its three lists name.
use soal.Base.{
  ◌≡◌, refl, ◌∙◌, subst, Bool, true, false, not, Bytes, List, [], ◌∷◌, ◌++◌, Option, none, some,
  arith, if◌then◌else◌,
}
use soal.Content.{bytes_eq, bytes_eq_iff}
use soal.Map.{Map, lookup, IsSorted}
use soal.Map.Order.{lookup_of_Below}
use soal.Set.{is_listed}
use soal.Tree.{Tree, TreeEntry, entry_eq}
use soal.Tree.Merge.{IsTree}
use soal.Health.{
  Grown, diff_entry, diff_entries, diff_removed, insert_path, sort_paths, TreeDiff, diff_trees,
}

-- What a path is, by what the older and the newer tree have there.
unfoldable pub is_added : Option TreeEntry → Option TreeEntry → Bool
is_added none (some new) = true
is_added none none = false
is_added (some old) new = false

unfoldable pub is_removed : Option TreeEntry → Option TreeEntry → Bool
is_removed (some old) none = true
is_removed (some old) (some new) = false
is_removed none new = false

unfoldable pub is_changed : Option TreeEntry → Option TreeEntry → Bool
is_changed (some old) (some new) = not (entry_eq old new)
is_changed (some old) none = false
is_changed none new = false

is_listed-append :
    (p q : Bytes) (l : List Bytes)
    → is_listed p (l ++ q ∷ []) ≡ (if is_listed p l then true else bytes_eq q p)
unfolding is_listed
is_listed-append p q [] = ground arith
is_listed-append p q (r ∷ l) = ground (arith, is_listed-append p q l)

is_listed-insert_path :
    (p q : Bytes) (l : List Bytes)
    → is_listed p (insert_path q l) ≡ (if bytes_eq q p then true else is_listed p l)
unfolding is_listed insert_path
is_listed-insert_path p q [] = refl
is_listed-insert_path p q (r ∷ l) = ground (arith, is_listed-insert_path p q l)

is_listed-sort_paths : (p : Bytes) (l : List Bytes) → is_listed p (sort_paths l) ≡ is_listed p l
unfolding is_listed sort_paths
is_listed-sort_paths p [] = refl
is_listed-sort_paths p (q ∷ l) =
    ground (arith, is_listed-insert_path p q (sort_paths l), is_listed-sort_paths p l)

added-diff_entry :
    (p q : Bytes) (e : TreeEntry) (old : Option TreeEntry) (g : Grown)
    → is_listed p (diff_entry q e old g).added ≡ (
        if is_listed p g.added then true else if bytes_eq q p then is_added old (some e) else false)
unfolding diff_entry is_added
added-diff_entry p q e none g = ground (arith, is_listed-append p q g.added)
added-diff_entry p q e (some o) g = ground arith

changed-diff_entry :
    (p q : Bytes) (e : TreeEntry) (old : Option TreeEntry) (g : Grown)
    → is_listed p (diff_entry q e old g).changed ≡ (
        if is_listed p g.changed
        then true
        else if bytes_eq q p
        then is_changed old (some e)
        else false)
unfolding diff_entry is_changed
changed-diff_entry p q e none g = ground arith
changed-diff_entry p q e (some o) g = ground (arith, is_listed-append p q g.changed)

lookup_cons :
    (p q : Bytes) (e : TreeEntry) (m : Map TreeEntry)
    → lookup p ((q, e) ∷ m) ≡ (if bytes_eq q p then some e else lookup p m)
unfolding lookup
lookup_cons p q e m = refl

-- The path of an entry of a sorted map is at no later entry.
lookup_rest :
    (p q : Bytes) (e : TreeEntry) (m : Map TreeEntry)
    → IsSorted ((q, e) ∷ m)
    → bytes_eq q p ≡ true
    → lookup p m ≡ none
lookup_rest p q e m (b, s) h =
    subst (λ r. lookup r m ≡ none) ((bytes_eq_iff q p).0 h) (lookup_of_Below q m b s)

added-diff_entries :
    (p : Bytes) (older m : Map TreeEntry) (g : Grown)
    → IsSorted m
    → is_listed p (diff_entries older m g).added
      ≡ (if is_listed p g.added then true else is_added (lookup p older) (lookup p m))
unfolding diff_entries is_added
added-diff_entries p older [] g s = unfold lookup in ground arith
added-diff_entries p older ((q, e) ∷ m) g s = ground (
  arith,
  added-diff_entries p older m (diff_entry q e (lookup q older) g) s.1,
  added-diff_entry p q e (lookup q older) g,
  lookup_cons p q e m,
  lookup_rest p q e m s,
  bytes_eq_iff q p,
)

changed-diff_entries :
    (p : Bytes) (older m : Map TreeEntry) (g : Grown)
    → IsSorted m
    → is_listed p (diff_entries older m g).changed
      ≡ (if is_listed p g.changed then true else is_changed (lookup p older) (lookup p m))
unfolding diff_entries is_changed
changed-diff_entries p older [] g s = unfold lookup in ground arith
changed-diff_entries p older ((q, e) ∷ m) g s = ground (
  arith,
  changed-diff_entries p older m (diff_entry q e (lookup q older) g) s.1,
  changed-diff_entry p q e (lookup q older) g,
  lookup_cons p q e m,
  lookup_rest p q e m s,
  bytes_eq_iff q p,
)

is_listed-diff_removed :
    (p : Bytes) (newer m : Map TreeEntry) (removed : List Bytes)
    → is_listed p (diff_removed newer m removed)
      ≡ (if is_listed p removed then true else is_removed (lookup p m) (lookup p newer))
unfolding diff_removed is_removed
is_listed-diff_removed p newer [] removed = unfold lookup in ground arith
is_listed-diff_removed p newer ((q, e) ∷ m) removed = ground (
  arith,
  is_listed-diff_removed p newer m removed,
  is_listed-diff_removed p newer m (removed ++ q ∷ []),
  is_listed-append p q removed,
  lookup_cons p q e m,
  bytes_eq_iff q p,
)

-- What the three lists of a difference say of a path.
unfoldable pub Tells : TreeDiff → Bytes → Option TreeEntry → Option TreeEntry → Type 0
Tells d p old new =
    (is_listed p d.added ≡ is_added old new)
    × (is_listed p d.removed ≡ is_removed old new)
    × (is_listed p d.changed ≡ is_changed old new)

-- For a newer tree with its paths in ascending order, and any path: diff_trees names the path as
-- added exactly if only the newer tree has it, as removed exactly if only the older has it, and as
-- changed exactly if both have it with entries that differ.
pub diff_trees-Tells :
    (from to p : Bytes) (a b : Tree)
    → IsTree b
    → Tells (diff_trees from to a b) p (lookup p a.entries) (lookup p b.entries)
unfolding Tells diff_trees is_listed
diff_trees-Tells from to p a b s =
    let g : Grown = record { added = []; changed = [] } in
    (
      is_listed-sort_paths p (diff_entries a.entries b.entries g).added
          ∙ added-diff_entries p a.entries b.entries g s,
      is_listed-sort_paths p (diff_removed b.entries a.entries [])
          ∙ is_listed-diff_removed p b.entries a.entries [],
      is_listed-sort_paths p (diff_entries a.entries b.entries g).changed
          ∙ changed-diff_entries p a.entries b.entries g s,
    )
