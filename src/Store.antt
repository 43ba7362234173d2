-- ===== src/Store.antt =====
-- src/store.rs, lines 30 to 110: the store of chunks in one directory, whose files `Disk` holds.
-- `root` and the making of the directory are left out: a name stands for the path below the root.
pub mod Put
pub mod Sound
use soal.Base.{
  ℕ, ◌-◌, ◌≡◌, Bool, true, false, not, Bytes, List, [], ◌∷◌, ◌++◌, String, ltb, length, take, drop,
  Option, none, some, Result, ok, err, SoalError, reject, if◌then◌else◌,
}
use soal.Content.{ContentHash, Blake3, bytes_eq, codes}
use soal.Content.Hex.{HexCrate, to_hex, from_hex}
use soal.Map.{Map}
use soal.Disk.{
  Disk, Io, ◌>>=◌, ◌>>◌, pure, lift, exists, read_file, create, write_all, sync_all, rename, call,
}

abbrev pub chunk_suffix : Bytes
chunk_suffix = codes ".chunk"

-- `name.strip_suffix(".chunk")`
unfoldable pub strip_suffix : Bytes → Bytes → Option Bytes
strip_suffix suffix name =
    let n = length name - length suffix in
    if ltb (length name) (length suffix)
    then none
    else if bytes_eq (drop n name) suffix
    then some (take n name)
    else none

module _ (hex : HexCrate) (blake3 : Blake3) where
  unfoldable pub path_for : ContentHash → Bytes
  path_for hash = to_hex hex hash ++ chunk_suffix

  -- `path.with_extension("chunk.tmp")`; the digits hold no dot.
  unfoldable pub tmp_for : ContentHash → Bytes
  tmp_for hash = to_hex hex hash ++ codes ".chunk.tmp"

  unfoldable pub put_new : ContentHash → Bytes → Io Bool
  put_new hash bytes = do
    create (tmp_for hash)
    write_all (tmp_for hash) bytes
    sync_all
    rename (tmp_for hash) (path_for hash)
    pure true

  -- The branch of `put_verified` in which the path exists.
  unfoldable pub put_again : ContentHash → Bytes → Io Bool
  put_again hash bytes = do
    existing ← read_file (path_for hash)
    lift (reject (not (bytes_eq existing bytes)) (SoalError.cid_collision (to_hex hex hash)))
    pure false

  unfoldable pub put_verified : ContentHash → Bytes → Io Bool
  put_verified hash bytes d =
      let actual = blake3.hash bytes in
      if not (bytes_eq actual hash)
      then (err (SoalError.hash_mismatch hash actual), d)
      else if exists (path_for hash) d
      then put_again hash bytes d
      else put_new hash bytes d

  unfoldable pub put : ContentHash → Bytes → Io Bool
  put hash bytes = put_verified hash bytes

  unfoldable pub get_existing : ContentHash → Io Bytes
  get_existing hash = do
    buf ← read_file (path_for hash)
    lift (
        reject (not (bytes_eq (blake3.hash buf) hash))
          (SoalError.hash_mismatch hash (blake3.hash buf)))
    pure buf

  unfoldable pub get : ContentHash → Io Bytes
  get hash d =
      if not (exists (path_for hash) d)
      then (err (SoalError.chunk_not_found (to_hex hex hash)), d)
      else get_existing hash d

  unfoldable pub store_exists : ContentHash → Disk → Bool
  store_exists hash d = exists (path_for hash) d

  -- One round of the loop of `list`.
  unfoldable pub list_entry : Bytes → List ContentHash → List ContentHash
  list_entry name hashes = elim (strip_suffix chunk_suffix name) [
    | none ↦ hashes
    | some hexpart ↦ elim (from_hex hex hexpart) [ ok h ↦ hashes ++ h ∷ [] | _ ↦ hashes ]
  ]

  -- The directory lists its files in the order of their names here.
  unfoldable pub list_entries : Map Bytes → List ContentHash → List ContentHash
  list_entries [] hashes = hashes
  list_entries ((name, bytes) ∷ m) hashes = list_entries m (list_entry name hashes)

  unfoldable pub list : Io (List ContentHash)
  list d = (call >>= λ _. pure (list_entries d.files [])) d
