-- ===== src/Examples/Trees.antt =====
-- Merges of trees at concrete values.
use mathlib.Core.Option.{or_else}
use soal.Base.{◌≡◌, ◌≢◌, refl, [], ◌∷◌, replicate, some}
use soal.Content.{codes}
use soal.Map.{lookup}
use soal.Tree.{Tree, TreeEntry, file, dir, merge_with_conflicts}
use soal.Health.{diff_trees}
use soal.Health.Diff.{diff_trees-Tells, Tells}
use soal.Tree.Conflicts.{lookup-merge_with_conflicts, conflict_copy}
use soal.Paths.{conflict_path_name}

abbrev mine : TreeEntry
mine = file 1 (replicate 32 1 ∷ [])

abbrev their_own : TreeEntry
their_own = file 2 (replicate 32 2 ∷ [])

abbrev ours : Tree
ours = record { entries = (codes "a.txt", mine) ∷ [] }

abbrev theirs : Tree
theirs = record { entries = (codes "a.txt", their_own) ∷ (codes "b", dir (replicate 32 3)) ∷ [] }

lookup-merge_with_conflicts_example :
    lookup (codes "a.txt") (merge_with_conflicts ours theirs (codes "peer 1")).0.entries
    ≡ or_else (lookup (codes "a.txt") ours.entries) (lookup (codes "a.txt") theirs.entries)
unfolding soal.Paths.conflict_path_name soal.Paths.sanitize_conflict_label soal.Content.bytes_eq
    lookup soal.Paths.is_empty soal.Paths.label_chars soal.Paths.label_byte
    soal.Paths.is_ascii_alphabetic soal.Paths.split_dir soal.Paths.rfind soal.Paths.split_ext
lookup-merge_with_conflicts_example =
    lookup-merge_with_conflicts ours theirs (codes "peer 1") (codes "a.txt") (refl, (refl, tt))

conflict_copy_example :
    lookup
      (conflict_path_name (codes "a.txt") (codes "peer_1"))
      (merge_with_conflicts ours theirs (codes "peer 1")).0.entries
    ≡ some their_own
unfolding soal.Paths.conflict_path_name soal.Paths.sanitize_conflict_label soal.Content.bytes_eq
    lookup soal.Paths.is_empty soal.Paths.label_chars soal.Paths.label_byte
    soal.Paths.is_ascii_alphabetic soal.Paths.split_dir soal.Paths.rfind soal.Paths.split_ext
conflict_copy_example =
    conflict_copy ours theirs (codes "peer 1") (codes "peer_1") (codes "a.txt") mine their_own []
      ((codes "b", dir (replicate 32 3)) ∷ []) refl refl refl differ (tt, tt)
      ((refl, tt), (refl, tt))
  where
    differ : mine ≢ their_own
    differ e = cc

diff_trees-Tells_example :
    Tells
      (diff_trees (codes "00") (codes "ff") ours theirs)
      (codes "b")
      (lookup (codes "b") ours.entries)
      (lookup (codes "b") theirs.entries)
unfolding soal.Content.bytes_ltb
diff_trees-Tells_example =
    diff_trees-Tells (codes "00") (codes "ff") (codes "b") ours theirs (refl, (tt, tt))
