-- ===== src/Health.antt =====
-- src/health.rs, `worst` and `diff_commits`: the worst of two levels, and the paths in which two
-- commits differ.
pub mod Diff
pub mod Assess
pub mod Graded
use soal.Base.{not, Bytes, List, [], ◌∷◌, ◌++◌, if◌then◌else◌, Option, none, some}
use soal.Content.{ContentHash, bytes_ltb}
use soal.Content.Hex.{to_hex}
use soal.Disk.{Io, ◌>>=◌, pure}
use soal.Map
use soal.Map.{Map}
use soal.Tree.{Tree, TreeEntry, entry_eq}
use soal.Vault.{Crates}
use soal.Vault.Objects.{load_commit, load_tree}

pub data HealthLevel : Type 0 where
  healthy warn crit : HealthLevel

unfoldable pub worst : HealthLevel → HealthLevel → HealthLevel
worst crit b = crit
worst warn crit = crit
worst healthy crit = crit
worst warn warn = warn
worst warn healthy = warn
worst healthy warn = warn
worst healthy healthy = healthy

pub record TreeDiff : Type 0 where
  pub from : Bytes
  pub to : Bytes
  pub added : List Bytes
  pub removed : List Bytes
  pub changed : List Bytes

-- The two lists that the loop over the newer tree fills.
pub record Grown : Type 0 where
  pub added : List Bytes
  pub changed : List Bytes

-- One round of that loop: `old` is what the older tree has at the path.
unfoldable pub diff_entry : Bytes → TreeEntry → Option TreeEntry → Grown → Grown
diff_entry path entry none g = record g { added = g.added ++ path ∷ [] }
diff_entry path entry (some old) g =
    if not (entry_eq old entry) then record g { changed = g.changed ++ path ∷ [] } else g

unfoldable pub diff_entries : Map TreeEntry → Map TreeEntry → Grown → Grown
diff_entries older [] g = g
diff_entries older ((path, entry) ∷ m) g =
    diff_entries older m (diff_entry path entry (Map.lookup path older) g)

-- The loop over the paths of the older tree.
unfoldable pub diff_removed : Map TreeEntry → Map TreeEntry → List Bytes → List Bytes
diff_removed newer [] removed = removed
diff_removed newer ((path, entry) ∷ m) removed =
    diff_removed newer m
      (elim (Map.lookup path newer) [ none ↦ removed ++ path ∷ [] | some e ↦ removed ])

-- `Vec::sort` on the paths: a path goes in front of the first one that it is below.
unfoldable pub insert_path : Bytes → List Bytes → List Bytes
insert_path p [] = p ∷ []
insert_path p (q ∷ qs) = if bytes_ltb p q then p ∷ q ∷ qs else q ∷ insert_path p qs

unfoldable pub sort_paths : List Bytes → List Bytes
sort_paths [] = []
sort_paths (p ∷ ps) = insert_path p (sort_paths ps)

unfoldable pub diff_trees : Bytes → Bytes → Tree → Tree → TreeDiff
diff_trees from to ta tb =
    let g = diff_entries ta.entries tb.entries (record { added = []; changed = [] }) in
    record {
      from = from;
      to = to;
      added = sort_paths g.added;
      removed = sort_paths (diff_removed tb.entries ta.entries []);
      changed = sort_paths g.changed;
    }

unfoldable pub diff_commits : Crates → ContentHash → ContentHash → Io TreeDiff
diff_commits crates from to = do
  ca ← load_commit crates from
  cb ← load_commit crates to
  ta ← load_tree crates ca.tree
  tb ← load_tree crates cb.tree
  pure (diff_trees (to_hex crates.hex from) (to_hex crates.hex to) ta tb)
