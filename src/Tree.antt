-- ===== src/Tree.antt =====
-- src/tree.rs, lines 14 to 132: directory trees and their merges.
pub mod Merge
pub mod Conflicts
use soal.Base.{
  ℕ, zero, suc, ◌+◌, Bool, ◌&&◌, Bytes, List, [], ◌∷◌, ◌++◌, Option, none, some, Result, ok, err,
  panic, ◌==◌, if◌then◌else◌, ◌>>=◌,
}
use soal.Content.{ContentHash, bytes_eq}
use soal.Map
use soal.Map.{Map}
use soal.Paths.{normalize_path, normalize_and_validate, conflict_path_name, sanitize_conflict_label}

pub data TreeEntry : Type 0 where
  file : ℕ → List ContentHash → TreeEntry
  dir : ContentHash → TreeEntry

-- `entries` are sorted by their paths.
pub record Tree : Type 0 where
  pub entries : Map TreeEntry

unfoldable pub new : Tree
new = record { entries = [] }

unfoldable pub hashes_eq : List ContentHash → List ContentHash → Bool
hashes_eq [] [] = Bool.true
hashes_eq (a ∷ xs) (b ∷ ys) = bytes_eq a b && hashes_eq xs ys
hashes_eq _ _ = Bool.false

-- The derived `==`.
unfoldable pub entry_eq : TreeEntry → TreeEntry → Bool
unfolding hashes_eq
entry_eq (file s cs) (file t ds) = s == t && hashes_eq cs ds
entry_eq (dir h) (dir k) = bytes_eq h k
entry_eq _ _ = Bool.false

put : Tree → Bytes → TreeEntry → Tree
put t path entry = record { entries = Map.insert path entry t.entries }

-- `normalize_and_validate(path).unwrap_or_else(|_| normalize_path(path))`
unfoldable pub lenient_path : Bytes → Bytes
lenient_path path = elim (normalize_and_validate path) [ ok n ↦ n | _ ↦ normalize_path path ]

unfoldable pub add_file : Tree → Bytes → ℕ → List ContentHash → Tree
unfolding put lenient_path
add_file t path size chunks = put t (lenient_path path) (file size chunks)

unfoldable pub try_add_file : Tree → Bytes → ℕ → List ContentHash → Result Tree
unfolding put
try_add_file t path size chunks = do
  path' ← normalize_and_validate path
  ok (put t path' (file size chunks))

unfoldable pub add_dir : Tree → Bytes → ContentHash → Tree
unfolding put lenient_path
add_dir t path hash = put t (lenient_path path) (dir hash)

-- The loop of `merge`: theirs wins.
unfoldable pub merge_entries : Map TreeEntry → Map TreeEntry → Map TreeEntry
merge_entries ours [] = ours
merge_entries ours ((k, v) ∷ theirs) = merge_entries (Map.insert k v ours) theirs

unfoldable pub merge : Tree → Tree → Tree
unfolding merge_entries
merge t other = record { entries = merge_entries t.entries other.entries }

-- One round of `merge_with_conflicts`, with the count of conflicts.
unfoldable pub merge_entry : Bytes → Map TreeEntry × ℕ → Bytes → TreeEntry → Map TreeEntry × ℕ
merge_entry label (ours, n) path theirs = elim (Map.lookup path ours) [
  | none ↦ (Map.insert path theirs ours, n)
  | some mine ↦
      if entry_eq mine theirs
      then (ours, n)
      else (Map.insert (conflict_path_name path label) theirs ours, n + 1)
]

unfoldable pub merge_conflicts : Bytes → Map TreeEntry × ℕ → Map TreeEntry → Map TreeEntry × ℕ
merge_conflicts label s [] = s
merge_conflicts label s ((k, v) ∷ theirs) = merge_conflicts label (merge_entry label s k v) theirs

unfoldable pub merge_with_conflicts : Tree → Tree → Bytes → Tree × ℕ
merge_with_conflicts t theirs from_label =
    let label = sanitize_conflict_label from_label in
    let (m, n) = merge_conflicts label (t.entries, 0) theirs.entries in (record { entries = m }, n)

unfoldable pub entry_chunks : TreeEntry → List ContentHash
entry_chunks (file s chunks) = chunks
entry_chunks (dir h) = []

unfoldable pub chunks_of : Map TreeEntry → List ContentHash
unfolding entry_chunks
chunks_of [] = []
chunks_of ((k, v) ∷ m) = entry_chunks v ++ chunks_of m

unfoldable pub all_chunk_hashes : Tree → List ContentHash
unfolding chunks_of
all_chunk_hashes t = chunks_of t.entries
