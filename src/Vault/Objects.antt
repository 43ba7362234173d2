-- ===== src/Vault/Objects.antt =====
-- src/vault.rs, `save_tree`, `save_commit`, `load_tree`, `load_commit` and the paths of objects:
-- the commits and trees of a vault, in files named by their hashes.
pub mod Reading
pub mod Integrity
use soal.Base.{
  Bool, not, ◌&&◌, ◌||◌, Bytes, ◌++◌, if◌then◌else◌, Result, ok, err, SoalError, Message, reject,
}
use soal.Content.{ContentHash, bytes_eq, codes}
use soal.Content.Hex.{to_hex}
use soal.Tree.{Tree}
use soal.Commit.{Commit}
use soal.Codec.Frame.{cid_of}
use soal.Codec.TreeWire.{encode_tree_wire}
use soal.Codec.CommitWire.{encode_commit_wire}
use soal.Disk.{Disk, Io, ◌>>=◌, ◌>>◌, pure, lift, exists, read_file, write_file}
use soal.Vault.{Crates}
use soal.Vault.Dual.{
  commit_from_wire_or_json, commit_from_bytes, commit_legacy_json_hash, commit_hash,
  tree_from_wire_or_json, tree_from_bytes, tree_legacy_json_hash, tree_hash,
}

abbrev pub commits_dir : Bytes
commits_dir = codes "commits/"

abbrev pub trees_dir : Bytes
trees_dir = codes "trees/"

module _ (crates : Crates) where
  open crates use {hex, blake3}

  unfoldable pub tree_path_bin : ContentHash → Bytes
  tree_path_bin hash = trees_dir ++ (to_hex hex hash ++ codes ".bin")

  unfoldable pub tree_path_json : ContentHash → Bytes
  tree_path_json hash = trees_dir ++ (to_hex hex hash ++ codes ".json")

  unfoldable pub commit_path_bin : ContentHash → Bytes
  commit_path_bin hash = commits_dir ++ (to_hex hex hash ++ codes ".bin")

  unfoldable pub commit_path_json : ContentHash → Bytes
  commit_path_json hash = commits_dir ++ (to_hex hex hash ++ codes ".json")

  unfoldable pub has_commit_object : ContentHash → Disk → Bool
  has_commit_object hash d = exists (commit_path_bin hash) d || exists (commit_path_json hash) d

  unfoldable pub has_tree_object : ContentHash → Disk → Bool
  has_tree_object hash d = exists (tree_path_bin hash) d || exists (tree_path_json hash) d

  unfoldable pub save_tree : Tree → Io ContentHash
  save_tree tree = do
    hash ← lift (tree_hash crates tree)
    bytes ← lift (encode_tree_wire tree)
    write_file (tree_path_bin hash) bytes
    pure hash

  unfoldable pub save_commit : Commit → Io ContentHash
  save_commit commit = do
    hash ← lift (commit_hash crates commit)
    bytes ← lift (encode_commit_wire hex blake3 commit)
    write_file (commit_path_bin hash) bytes
    pure hash

  -- `if actual != hash { return Err(SoalError::hash_mismatch(&hash, &actual)); }`
  unfoldable pub check_hash : ContentHash → ContentHash → Result (Unit {0})
  check_hash hash actual = reject (not (bytes_eq actual hash)) (SoalError.hash_mismatch hash actual)

  -- The two branches of `load_commit`.
  unfoldable pub load_commit_bin : ContentHash → Io Commit
  load_commit_bin hash = do
    bytes ← read_file (commit_path_bin hash)
    lift (check_hash hash (cid_of blake3 bytes))
    commit ← lift (commit_from_wire_or_json crates bytes)
    actual ← lift (commit_hash crates commit)
    lift (check_hash hash actual)
    pure commit

  unfoldable pub load_commit_json : ContentHash → Io Commit
  load_commit_json hash = do
    bytes ← read_file (commit_path_json hash)
    commit ← lift (commit_from_bytes crates bytes)
    let actual = commit_legacy_json_hash crates commit
    lift (
        reject (not (bytes_eq actual hash) && not (bytes_eq (cid_of blake3 bytes) hash))
          (SoalError.hash_mismatch hash actual))
    pure commit

  unfoldable pub load_commit : ContentHash → Io Commit
  load_commit hash d =
      if exists (commit_path_bin hash) d
      then load_commit_bin hash d
      else if exists (commit_path_json hash) d
      then load_commit_json hash d
      else (err (SoalError.commit_not_found (to_hex hex hash)), d)

  unfoldable pub load_tree_bin : ContentHash → Io Tree
  load_tree_bin hash = do
    bytes ← read_file (tree_path_bin hash)
    lift (check_hash hash (cid_of blake3 bytes))
    tree ← lift (tree_from_wire_or_json crates bytes)
    actual ← lift (tree_hash crates tree)
    lift (check_hash hash actual)
    pure tree

  unfoldable pub load_tree_json : ContentHash → Io Tree
  load_tree_json hash = do
    bytes ← read_file (tree_path_json hash)
    tree ← lift (tree_from_bytes crates bytes)
    let actual = tree_legacy_json_hash crates tree
    lift (
        reject (not (bytes_eq actual hash) && not (bytes_eq (cid_of blake3 bytes) hash))
          (SoalError.hash_mismatch hash actual))
    pure tree

  unfoldable pub load_tree : ContentHash → Io Tree
  load_tree hash d =
      if exists (tree_path_bin hash) d
      then load_tree_bin hash d
      else if exists (tree_path_json hash) d
      then load_tree_json hash d
      else (err (SoalError.tree_not_found (to_hex hex hash)), d)
