-- ===== src/Codec/TreeWire/Entries.antt =====
-- One entry of a tree, as src/codec.rs writes and reads it.
use soal.Base.{
  ℕ, ◌*◌, ◌^◌, ◌<◌, ◌≡◌, refl, sym, subst, Bytes, List, [], ◌++◌, arith, length, ok, Option, some,
}
use soal.Content.{ContentHash}
use soal.Map.{insert}
use soal.Tree.{TreeEntry, file, dir, Tree}
use soal.Codec.Cbor.{Reader, ◌>>=◌, pure, lift, read_map_header}
use soal.Codec.Cbor.Reads.{Reads, >>=-Reads, >>=-Reads_pure, lift-Reads}
use soal.Codec.Cbor.Items.{
  u64, bstr, array_header, map_header, writers, u64-Reads, array_header-Reads, map_header-Reads,
}
use soal.Codec.Fields.{key_order, repeat}
use soal.Codec.Fields.RoundTrip.{
  hashes, next_round, last_round, fixed-Reads, hashes-Reads, write_hashes-append,
  with_capacity-Reads, AreHashes,
}
use soal.Codec.TreeWire.{EntryFields, no_fields, write_entry, entry_field, entry_round, entry_of}

-- What holds of every entry that a Rust value can hold and that was made of content hashes.
abbrev pub IsEntry : TreeEntry → Type 0
IsEntry (file size chunks) = (size < 2 ^ 64) × (length chunks * 32 < 2 ^ 63) × AreHashes chunks
IsEntry (dir hash) = length hash ≡ 32

-- The bytes of an entry.
abbrev pub entry_bytes : TreeEntry → Bytes
entry_bytes (file size chunks) =
    map_header 3
    ++ ((u64 1 ++ u64 0)
        ++ ((u64 2 ++ u64 size) ++ (u64 3 ++ (array_header (length chunks) ++ hashes chunks))))
entry_bytes (dir hash) = map_header 2 ++ ((u64 1 ++ u64 1) ++ (u64 2 ++ bstr hash))

pub write_entry-append : (e : TreeEntry) (buf : Bytes) → write_entry e buf ≡ buf ++ entry_bytes e
unfolding write_entry
write_entry-append (file size chunks) buf = simp (writers, write_hashes-append)
write_entry-append (dir hash) buf = simp writers

-- One key with its value.
round-Reads :
    (k : ℕ) (f g : EntryFields) (s : Bytes)
    → k < 2 ^ 64
    → key_order "entry map keys not sorted" f.last_k k ≡ ok tt
    → Reads (entry_field k (record f { last_k = some k })) s g
    → Reads (entry_round f) (u64 k ++ s) g
unfolding entry_round
round-Reads k f g s hk o r =
    >>=-Reads _ (u64-Reads k hk)
      (>>=-Reads _ {s = []} (subst (λ t. Reads (lift t) [] tt) (sym o) (lift-Reads tt)) r)

-- The variables of the loop behind each key.
abbrev typed : ℕ → EntryFields
typed t = record no_fields { entry_type = some t; last_k = some 1 }

abbrev sized : ℕ → EntryFields
sized n = record (typed 0) { size = some n; last_k = some 2 }

abbrev filled : ℕ → List ContentHash → EntryFields
filled n hs = record (sized n) { chunks = some hs; last_k = some 3 }

abbrev hashed : ContentHash → EntryFields
hashed h = record (typed 1) { dir_hash = some h; last_k = some 2 }

type_round : (t : ℕ) → t < 2 → Reads (entry_round no_fields) (u64 1 ++ u64 t) (typed t)
unfolding entry_field
type_round t h =
    round-Reads 1 no_fields (typed t) (u64 t) (omega arith) (unfold key_order in refl)
      (>>=-Reads_pure _ (u64-Reads t (omega arith)) (λ c. unfold pure in refl))

size_round : (n : ℕ) → n < 2 ^ 64 → Reads (entry_round (typed 0)) (u64 2 ++ u64 n) (sized n)
unfolding entry_field
size_round n h =
    round-Reads 2 (typed 0) (sized n) (u64 n) (omega arith) (unfold key_order in refl)
      (>>=-Reads_pure _ (u64-Reads n h) (λ c. unfold pure in refl))

chunks_round :
    (n : ℕ) (hs : List ContentHash)
    → length hs * 32 < 2 ^ 63
    → AreHashes hs
    → Reads (entry_round (sized n)) (u64 3 ++ (array_header (length hs) ++ hashes hs)) (filled n hs)
unfolding entry_field
chunks_round n hs h a =
    round-Reads 3 (sized n) (filled n hs) (array_header (length hs) ++ hashes hs) (omega arith)
      (unfold key_order in refl)
      (>>=-Reads _ (array_header-Reads (length hs) (omega arith)) (
        >>=-Reads _ {s = []} (with_capacity-Reads (length hs) h) (
          >>=-Reads_pure _ (hashes-Reads "chunk CID must be 32 bytes" hs [] a)
            (λ c. unfold pure in refl))))

hash_round :
    (h : ContentHash) → length h ≡ 32 → Reads (entry_round (typed 1)) (u64 2 ++ bstr h) (hashed h)
unfolding entry_field
hash_round h e =
    round-Reads 2 (typed 1) (hashed h) (bstr h) (omega arith) (unfold key_order in refl) (
      >>=-Reads_pure _ (fixed-Reads 32 "Dir hash must be 32 bytes" h e (omega arith))
        (λ c. unfold pure in refl))

-- What `tree_round` does behind the path.
abbrev pub rest_of_round : Tree → Bytes → Reader (Tree × Option Bytes)
rest_of_round tree path = do
  em ← read_map_header
  fields ← repeat entry_round em no_fields
  entry ← lift (entry_of fields)
  pure (record { entries = insert path entry tree.entries }, some path)

file_loop :
    (size : ℕ) (chunks : List ContentHash)
    → IsEntry (file size chunks)
    → Reads
        (repeat entry_round 3 no_fields)
        ((u64 1 ++ u64 0)
          ++ ((u64 2 ++ u64 size) ++ (u64 3 ++ (array_header (length chunks) ++ hashes chunks))))
        (filled size chunks)
file_loop size chunks (hs, hl, ha) =
    next_round entry_round 2 no_fields (type_round 0 (omega arith)) (
      next_round entry_round 1 (typed 0) (size_round size hs)
        (last_round entry_round (sized size) (chunks_round size chunks hl ha)))

dir_loop :
    (hash : ContentHash)
    → length hash ≡ 32
    → Reads
        (repeat entry_round 2 no_fields)
        ((u64 1 ++ u64 1) ++ (u64 2 ++ bstr hash))
        (hashed hash)
dir_loop hash e =
    next_round entry_round 1 no_fields (type_round 1 (omega arith))
      (last_round entry_round (typed 1) (hash_round hash e))

pub rest_of_round-Reads :
    (tree : Tree) (path : Bytes) (e : TreeEntry)
    → IsEntry e
    → Reads
        (rest_of_round tree path)
        (entry_bytes e)
        (record { entries = insert path e tree.entries }, some path)
rest_of_round-Reads tree path (file size chunks) h =
    >>=-Reads _ (map_header-Reads 3 (omega arith))
      (>>=-Reads_pure _ (file_loop size chunks h) (λ c. unfold pure lift ◌>>=◌ entry_of in refl))
rest_of_round-Reads tree path (dir hash) h =
    >>=-Reads _ (map_header-Reads 2 (omega arith))
      (>>=-Reads_pure _ (dir_loop hash h) (λ c. unfold pure lift ◌>>=◌ entry_of in refl))
