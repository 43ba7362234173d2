-- ===== src/Codec/TreeWire.antt =====
-- src/codec.rs, lines 244 to 396: the wire form of trees.
pub mod Entries
pub mod RoundTrip
pub mod Accepted
use soal.Base.{
  ℕ, zero, suc, Bool, not, Bytes, List, [], ◌∷◌, ◌++◌, String, ltb, leb, ◌==◌, if◌then◌else◌,
  length, Option, none, some, Result, ok, err, panic, SoalError, Message, reject, ◌||◌,
}
use soal.Base
use soal.Content.{ContentHash, Blake3, bytes_eq, bytes_ltb}
use soal.Map
use soal.Map.{Map}
use soal.Paths.{validate_path}
use soal.Tree.{TreeEntry, file, dir, Tree, new}
use soal.Codec.Frame.{domain_tree, frame, unframe, cid_of}
use soal.Codec.Cbor.{
  Cursor, Cursor_new, Reader, ◌>>=◌, ◌>>◌, pure, lift, fail, ◌▷◌, write_u64, write_bstr, write_tstr,
  write_array_header, write_map_header, read_tstr, read_u64_value, read_map_header,
  read_array_header, finish,
}
use soal.Codec.Fields.{
  ok_or, verify, read_fixed, with_capacity, read_hashes, key_order, write_hashes, repeat,
}

abbrev pub max_tree_entries : ℕ
max_tree_entries = 1_000_000

unfoldable pub write_entry : TreeEntry → Bytes → Bytes
write_entry (file size chunks) buf =
    buf
    ▷ write_map_header 3
    ▷ write_u64 1
    ▷ write_u64 0
    ▷ write_u64 2
    ▷ write_u64 size
    ▷ write_u64 3
    ▷ write_array_header (length chunks)
    ▷ write_hashes chunks
write_entry (dir hash) buf =
    buf ▷ write_map_header 2 ▷ write_u64 1 ▷ write_u64 1 ▷ write_u64 2 ▷ write_bstr hash

unfoldable pub write_entries : Map TreeEntry → Bytes → Bytes
write_entries [] buf = buf
write_entries ((path, entry) ∷ m) buf = write_entries m (buf ▷ write_tstr path ▷ write_entry entry)

unfoldable pub encode_tree_body : Tree → Result Bytes
encode_tree_body tree =
    Base.◌>>◌
      (reject (ltb max_tree_entries (length tree.entries)) (verify "tree exceeds MAX_TREE_ENTRIES"))
      (ok (
        []
        ▷ write_map_header 1
        ▷ write_u64 1
        ▷ write_map_header (length tree.entries)
        ▷ write_entries tree.entries))

-- The variables of the loop over one entry's map.
pub record EntryFields : Type 0 where
  pub entry_type : Option ℕ
  pub size : Option ℕ
  pub chunks : Option (List ContentHash)
  pub dir_hash : Option ContentHash
  pub last_k : Option ℕ

abbrev pub no_fields : EntryFields
no_fields = record { entry_type = none; size = none; chunks = none; dir_hash = none; last_k = none }

-- `entry_type == Some(1)`
abbrev pub is_dir : Option ℕ → Bool
is_dir none = Bool.false
is_dir (some t) = t == 1

unfoldable pub entry_field : ℕ → EntryFields → Reader EntryFields
entry_field k f =
    if k == 1
    then (do t ← read_u64_value; pure (record f { entry_type = some t }))
    else if k == 2
    then (if is_dir f.entry_type
        then (do
          h ← read_fixed 32 "Dir hash must be 32 bytes"
          pure (record f { dir_hash = some h }))
        else (do n ← read_u64_value; pure (record f { size = some n })))
    else if k == 3
    then (do
      alen ← read_array_header
      with_capacity alen
      hs ← read_hashes "chunk CID must be 32 bytes" alen []
      pure (record f { chunks = some hs }))
    else fail (Message.numbers "unknown TreeEntry key {other}" (k ∷ []))

unfoldable pub entry_round : EntryFields → Reader EntryFields
entry_round f = do
  k ← read_u64_value
  lift (key_order "entry map keys not sorted" f.last_k k)
  entry_field k (record f { last_k = some k })

unfoldable pub file_of : EntryFields → Result TreeEntry
file_of f =
    Base.◌>>=◌ (ok_or f.size "File missing size")
      λ size. Base.◌>>=◌ (ok_or f.chunks "File missing chunks") λ chunks. ok (file size chunks)

unfoldable pub dir_of : EntryFields → Result TreeEntry
dir_of f = Base.◌>>=◌ (ok_or f.dir_hash "Dir missing hash") λ hash. ok (dir hash)

unfoldable pub entry_of : EntryFields → Result TreeEntry
unfolding file_of dir_of
entry_of f = elim f.entry_type [
  | none ↦ err (verify "TreeEntry missing/invalid type")
  | some t ↦
      if t == 0
      then file_of f
      else if t == 1
      then dir_of f
      else err (verify "TreeEntry missing/invalid type")
]

-- `path.as_str() <= prev.as_str()`
unfoldable pub path_order : Option Bytes → Bytes → Result (Unit {0})
path_order none path = ok tt
path_order (some prev) path =
    reject (bytes_ltb path prev || bytes_eq path prev)
      (verify "tree entry keys not strictly sorted")

-- One round of the loop over the entries; its variables are `tree` and `last_path`.
unfoldable pub tree_round : Tree × Option Bytes → Reader (Tree × Option Bytes)
tree_round (tree, last_path) = do
  path ← read_tstr
  lift (path_order last_path path)
  lift (validate_path path)
  em ← read_map_header
  fields ← repeat entry_round em no_fields
  entry ← lift (entry_of fields)
  pure (record { entries = Map.insert path entry tree.entries }, some path)

unfoldable pub tree_body : Reader Tree
tree_body = do
  n ← read_map_header
  lift (reject (not (n == 1)) (verify "TreeBody must have exactly key 1"))
  key ← read_u64_value
  lift (
      reject (not (key == 1))
        (SoalError.verify (Message.numbers "unexpected TreeBody key {key}" (key ∷ []))))
  n_entries ← read_map_header
  lift (reject (ltb max_tree_entries n_entries) (verify "tree exceeds MAX_TREE_ENTRIES"))
  s ← repeat tree_round n_entries (new, none)
  finish
  pure s.0

unfoldable pub decode_tree_body : Bytes → Result Tree
decode_tree_body bytes = Base.◌>>=◌ (tree_body (Cursor_new bytes)) λ (tree, c). ok tree

unfoldable pub encode_tree_wire : Tree → Result Bytes
encode_tree_wire tree = Base.◌>>=◌ (encode_tree_body tree) λ body. ok (frame domain_tree body)

unfoldable pub decode_tree_wire : Bytes → Result Tree
decode_tree_wire wire = Base.◌>>=◌ (unframe domain_tree wire) decode_tree_body

module _ (blake3 : Blake3) where
  unfoldable pub tree_cid : Tree → Result ContentHash
  tree_cid tree = Base.◌>>=◌ (encode_tree_wire tree) λ wire. ok (cid_of blake3 wire)
