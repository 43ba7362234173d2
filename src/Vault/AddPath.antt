-- ===== src/Vault/AddPath.antt =====
-- src/vault.rs, `add_path`: adding files to a vault. What the path on disk holds is an argument.
use soal.Base.{
  ℕ, suc, ◌+◌, Bool, true, false, not, Bytes, List, [], ◌∷◌, ◌++◌, ltb, ◌==◌, length, if◌then◌else◌,
  Option, none, some, Result, ok, err, panic, SoalError, Message, reject,
}
use soal.Content.{ContentHash, codes}
use soal.Chunking.{FastCdc, chunk_bytes}
use soal.Disk.{Io, ◌>>=◌, ◌>>◌, pure, lift}
use soal.Paths.{is_empty, normalize_and_validate}
use soal.Tree.{Tree, try_add_file}
use soal.Vault.{Crates, Vault}
use soal.Vault.Objects.{save_tree}
use soal.Vault.Heads.{head}
use soal.Vault.Live.{optional}
use soal.Vault.Node.{other}
use soal.Vault.Edit.{store_chunks, head_tree, commit_tree}

-- A file to add: its logical path, its size and the hashes of its chunks.
pub record FileEntry : Type 0 where
  pub path : Bytes
  pub size : ℕ
  pub chunks : List ContentHash

-- What the path on disk is: a file, a folder with the relative paths of the files below it in their
-- order, or neither.
pub data Source : Type 0 where
  file : Bytes → Source
  dir : List (Bytes × Bytes) → Source
  neither : Source

module _ (crates : Crates) (cuts : FastCdc) where
  open crates use {blake3}

  unfoldable pub add_one : Vault → Bytes → Bytes → Io FileEntry
  add_one vault logical bytes = do
    hashes ← store_chunks crates vault (chunk_bytes blake3 cuts bytes) []
    pure (record { path = logical; size = length bytes; chunks = hashes })

  abbrev below : Bytes → Bytes → Bytes
  below base_name rel = if is_empty base_name then rel else base_name ++ (codes "/" ++ rel)

  -- One round of the loop over the files of a folder.
  unfoldable pub add_below : Vault → Bytes → Bytes → Bytes → Io (List FileEntry)
  add_below vault base_name rel bytes = do
    rel_str ← lift (normalize_and_validate rel)
    if is_empty rel_str then pure [] else (do
      hashes ← store_chunks crates vault (chunk_bytes blake3 cuts bytes) []
      logical ← lift (normalize_and_validate (below base_name rel_str))
      pure ((record { path = logical; size = length bytes; chunks = hashes }) ∷ []))

  unfoldable pub add_dir_files :
      Vault → Bytes → List (Bytes × Bytes) → List FileEntry → Io (List FileEntry)
  add_dir_files vault base_name [] entries = pure entries
  add_dir_files vault base_name ((rel, bytes) ∷ files) entries = do
    new ← add_below vault base_name rel bytes
    add_dir_files vault base_name files (entries ++ new)

  unfoldable pub file_entries : Vault → Bytes → Source → Io (List FileEntry)
  file_entries vault base_name (file bytes) = do
    lift (
        reject (is_empty base_name)
          (SoalError.invalid_path (Message.text "logical file name required")))
    e ← add_one vault base_name bytes
    pure (e ∷ [])
  file_entries vault base_name (dir files) = add_dir_files vault base_name files []
  file_entries vault base_name neither = lift (err (other "path is neither file nor dir"))

  unfoldable pub add_entries : List FileEntry → Tree → Result Tree
  add_entries [] tree = ok tree
  add_entries (e ∷ entries) tree =
      soal.Base.◌>>=◌ (try_add_file tree e.path e.size e.chunks) (add_entries entries)

  abbrev add_message : Source → Bytes → Bytes
  add_message (dir files) base_name = codes "Add dir " ++ base_name
  add_message _ base_name = codes "Add " ++ base_name

  -- `base_name` is empty, or normalized and valid.
  unfoldable pub base_of : Bytes → Result Bytes
  base_of base_name = if is_empty base_name then ok [] else normalize_and_validate base_name

  unfoldable pub add_path : Vault → ℕ → Source → Bytes → Io ContentHash
  add_path vault now source name = do
    base_name ← lift (base_of name)
    entries ← file_entries vault base_name source
    lift (reject (length entries == 0) (other "nothing to add"))
    old ← head_tree crates
    tree ← lift (add_entries entries old)
    tree_hash ← save_tree crates tree
    parent ← head crates
    commit_tree crates vault now tree_hash (optional parent) (add_message source base_name)
