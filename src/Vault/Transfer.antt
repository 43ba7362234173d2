-- ===== src/Vault/Transfer.antt =====
-- src/vault.rs, the `export_` and `import_` functions, `resolve_blob` and `is_complete`: the
-- objects of a vault as bytes that are sent to other nodes and received from them.
pub mod Received
pub mod Served
pub mod Whole
use soal.Base.{
  Bool, true, false, not, ◌&&◌, Bytes, List, [], ◌∷◌, if◌then◌else◌, Result, ok, err, SoalError,
  reject,
}
use soal.Content.{ContentHash, bytes_eq}
use soal.Content.Hex.{to_hex}
use soal.Codec.Frame.{domain_tree, domain_commit, cid_of}
use soal.Codec.TreeWire.{encode_tree_wire}
use soal.Codec.CommitWire.{encode_commit_wire}
use soal.Disk.{Disk, Io, ◌>>=◌, ◌>>◌, pure, lift, exists, read_file, write_file}
use soal.Identity.{verify_commit_signature}
use soal.Store.{get, put_verified, store_exists}
use soal.Tree.{all_chunk_hashes}
use soal.Vault.{Crates}
use soal.Vault.Dual.{
  is_framed, tree_from_wire_or_json, tree_from_bytes, tree_legacy_json_hash, tree_hash,
  commit_from_wire_or_json, commit_from_bytes, commit_legacy_json_hash, commit_hash,
}
use soal.Vault.Objects.{
  tree_path_bin, tree_path_json, commit_path_bin, commit_path_json, has_tree_object,
  has_commit_object, load_tree, load_commit, check_hash,
}

module _ (crates : Crates) where
  open crates use {hex, blake3, keys, commit_json, tree_json}

  unfoldable pub has_chunk : ContentHash → Disk → Bool
  has_chunk hash d = store_exists hex blake3 hash d

  unfoldable pub export_stored_chunk : ContentHash → Io Bytes
  export_stored_chunk hash = get hex blake3 hash

  unfoldable pub import_stored_chunk : ContentHash → Bytes → Io (Unit {0})
  import_stored_chunk hash bytes = do fresh ← put_verified hex blake3 hash bytes; pure tt

  -- The wire form of a loaded object, or else its JSON form, whichever has the hash.
  unfoldable pub wire_or_legacy : ContentHash → Bytes → Bytes → Result Bytes
  wire_or_legacy hash wire legacy =
      if bytes_eq (cid_of blake3 wire) hash
      then ok wire
      else if bytes_eq (cid_of blake3 legacy) hash
      then ok legacy
      else err (SoalError.hash_mismatch hash (cid_of blake3 wire))

  unfoldable pub export_loaded_tree : ContentHash → Io Bytes
  export_loaded_tree hash = do
    tree ← load_tree crates hash
    wire ← lift (encode_tree_wire tree)
    lift (wire_or_legacy hash wire (tree_json.to_string tree))

  unfoldable pub export_tree_bin : ContentHash → Io Bytes
  export_tree_bin hash = do
    bytes ← read_file (tree_path_bin crates hash)
    if bytes_eq (cid_of blake3 bytes) hash then pure bytes else export_loaded_tree hash

  unfoldable pub export_tree_bytes : ContentHash → Io Bytes
  export_tree_bytes hash d =
      if exists (tree_path_bin crates hash) d
      then export_tree_bin hash d
      else export_loaded_tree hash d

  unfoldable pub export_loaded_commit : ContentHash → Io Bytes
  export_loaded_commit hash = do
    commit ← load_commit crates hash
    wire ← lift (encode_commit_wire hex blake3 commit)
    lift (wire_or_legacy hash wire (commit_json.to_string commit))

  unfoldable pub export_commit_bin : ContentHash → Io Bytes
  export_commit_bin hash = do
    bytes ← read_file (commit_path_bin crates hash)
    if bytes_eq (cid_of blake3 bytes) hash then pure bytes else export_loaded_commit hash

  unfoldable pub export_commit_bytes : ContentHash → Io Bytes
  export_commit_bytes hash d =
      if exists (commit_path_bin crates hash) d
      then export_commit_bin hash d
      else export_loaded_commit hash d

  unfoldable pub import_framed_tree : ContentHash → Bytes → Io (Unit {0})
  import_framed_tree hash bytes = do
    tree ← lift (tree_from_wire_or_json crates bytes)
    actual ← lift (tree_hash crates tree)
    lift (check_hash crates hash actual)
    write_file (tree_path_bin crates hash) bytes

  unfoldable pub import_json_tree : ContentHash → Bytes → Io (Unit {0})
  import_json_tree hash bytes = do
    tree ← lift (tree_from_bytes crates bytes)
    let actual = tree_legacy_json_hash crates tree
    lift (
        reject (not (bytes_eq actual hash) && not (bytes_eq (cid_of blake3 bytes) hash))
          (SoalError.hash_mismatch hash actual))
    write_file (tree_path_json crates hash) bytes

  unfoldable pub import_tree_bytes : ContentHash → Bytes → Io (Unit {0})
  import_tree_bytes hash bytes = do
    lift (check_hash crates hash (cid_of blake3 bytes))
    if is_framed domain_tree bytes
        then import_framed_tree hash bytes
        else import_json_tree hash bytes

  unfoldable pub import_framed_commit : ContentHash → Bytes → Io (Unit {0})
  import_framed_commit hash bytes = do
    commit ← lift (commit_from_wire_or_json crates bytes)
    actual ← lift (commit_hash crates commit)
    lift (check_hash crates hash actual)
    lift (verify_commit_signature keys hex blake3 commit)
    write_file (commit_path_bin crates hash) bytes

  unfoldable pub import_json_commit : ContentHash → Bytes → Io (Unit {0})
  import_json_commit hash bytes = do
    commit ← lift (commit_from_bytes crates bytes)
    let actual = commit_legacy_json_hash crates commit
    lift (
        reject (not (bytes_eq actual hash) && not (bytes_eq (cid_of blake3 bytes) hash))
          (SoalError.hash_mismatch hash actual))
    write_file (commit_path_json crates hash) bytes

  unfoldable pub import_commit_bytes : ContentHash → Bytes → Io (Unit {0})
  import_commit_bytes hash bytes = do
    lift (check_hash crates hash (cid_of blake3 bytes))
    (if is_framed domain_commit bytes
        then import_framed_commit hash bytes
        else import_json_commit hash bytes)

  unfoldable pub resolve_blob : ContentHash → Io Bytes
  resolve_blob hash d =
      if has_chunk hash d
      then export_stored_chunk hash d
      else if has_tree_object crates hash d
      then export_tree_bytes hash d
      else if has_commit_object crates hash d
      then export_commit_bytes hash d
      else (err (SoalError.chunk_not_found (to_hex hex hash)), d)

  -- `for ch in chunks { if !self.has_chunk(&ch) { return Ok(false); } }`
  unfoldable pub has_chunks : List ContentHash → Disk → Bool
  has_chunks [] d = true
  has_chunks (ch ∷ chunks) d = has_chunk ch d && has_chunks chunks d

  unfoldable pub has_tree_and_chunks : ContentHash → Io Bool
  has_tree_and_chunks tree_hash' d =
      if not (has_tree_object crates tree_hash' d)
      then (ok false, d)
      else (do
        tree ← load_tree crates tree_hash'
        λ e. (ok (has_chunks (all_chunk_hashes tree) e), e))
          d

  unfoldable pub is_complete : ContentHash → Io Bool
  is_complete commit_hash' d =
      if not (has_commit_object crates commit_hash' d)
      then (ok false, d)
      else (do commit ← load_commit crates commit_hash'; has_tree_and_chunks commit.tree) d
