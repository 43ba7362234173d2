-- ===== src/Codec/CommitWire.antt =====
-- src/codec.rs, lines 225 to 237 and 403 to 584: the wire form of commits.
pub mod Form
pub mod Signed
pub mod RoundTrip
use soal.Base.{
  ℕ, zero, suc, ◌-◌, ◌^◌, Bool, not, Bytes, List, [], ◌∷◌, ◌++◌, String, ltb, leb, ◌==◌,
  if◌then◌else◌, length, Option, none, some, Result, ok, err, panic, SoalError, Message, reject,
}
use mathlib.Core.Option
use soal.Base
use soal.Content.{ContentHash, Blake3, codes}
use soal.Content.Hex.{HexCrate, from_hex}
use soal.Commit.{Commit, protocol_version_1, signature_bytes}
use soal.Codec.Frame.{domain_commit, frame, unframe, cid_of}
use soal.Codec.Cbor.{
  Cursor, Cursor_new, Reader, ◌>>=◌, ◌>>◌, pure, lift, fail, ◌▷◌, write_u64, write_bstr, write_tstr,
  write_array_header, write_map_header, read_tstr, read_u64_value, read_map_header,
  read_array_header, finish,
}
use soal.Codec.Fields.{
  ok_or, verify, read_fixed, with_capacity, read_hashes, key_order, write_hashes, repeat,
}

abbrev pub max_commit_parents : ℕ
max_commit_parents = 16

-- `if commit.protocol_version == 0 { PROTOCOL_VERSION } else { .. }`
unfoldable pub wire_version : ℕ → ℕ
wire_version v = if v == 0 then protocol_version_1 else v

abbrev pub too_many_parents : SoalError
too_many_parents = verify "too many parents"

-- The fields 1 to 6 of both bodies.
unfoldable pub write_signed_fields : Commit → Bytes → Bytes → Bytes
write_signed_fields c author buf =
    buf
    ▷ write_u64 1
    ▷ write_bstr c.tree
    ▷ write_u64 2
    ▷ write_array_header (length c.parents)
    ▷ write_hashes c.parents
    ▷ write_u64 3
    ▷ write_bstr author
    ▷ write_u64 4
    ▷ write_u64 c.timestamp
    ▷ write_u64 5
    ▷ write_tstr c.message
    ▷ write_u64 6
    ▷ write_u64 (wire_version c.protocol_version)

-- The variables of the loop of `decode_commit_body`.
pub record CommitFields : Type 0 where
  pub tree : Option ContentHash
  pub parents : Option (List ContentHash)
  pub author : Option Bytes
  pub timestamp : Option ℕ
  pub message : Option Bytes
  pub protocol_version : Option ℕ
  pub signature : Option Bytes
  pub last_k : Option ℕ

abbrev pub no_fields : CommitFields
no_fields = record {
  tree = none;
  parents = none;
  author = none;
  timestamp = none;
  message = none;
  protocol_version = none;
  signature = none;
  last_k = none;
}

abbrev pub or_one : Option ℕ → ℕ
or_one none = 1
or_one (some v) = v

unfoldable pub read_parents : Reader (List ContentHash)
read_parents = do
  alen ← read_array_header
  lift (reject (ltb max_commit_parents alen) too_many_parents)
  with_capacity alen
  read_hashes "parent CID len" alen []

unfoldable pub read_version : Reader ℕ
read_version = do
  v ← read_u64_value
  lift (reject (ltb (2 ^ 16 - 1) v) (verify "protocol_version overflow"))
  pure v

module _ (hex : HexCrate) (blake3 : Blake3) where
  unfoldable pub author_to_bytes : Bytes → Bytes
  author_to_bytes author = elim (from_hex hex author) [
    | ok h ↦ h
    | _ ↦ blake3.hash (codes "soal-author:" ++ author)
  ]

  unfoldable pub author_from_bytes : Bytes → Bytes
  author_from_bytes bytes = hex.encode bytes

  unfoldable pub encode_commit_body : Commit → Result Bytes
  encode_commit_body c =
      Base.◌>>◌ (reject (ltb max_commit_parents (length c.parents)) too_many_parents) (
        ok (
          []
          ▷ write_map_header 7
          ▷ write_signed_fields c (author_to_bytes c.author)
          ▷ write_u64 7
          ▷ write_bstr (signature_bytes hex c)))

  unfoldable pub encode_commit_sign_body : Commit → Result Bytes
  encode_commit_sign_body c =
      Base.◌>>◌ (reject (ltb max_commit_parents (length c.parents)) too_many_parents)
        (ok ([] ▷ write_map_header 6 ▷ write_signed_fields c (author_to_bytes c.author)))

  unfoldable pub commit_sign_message : Commit → Result Bytes
  commit_sign_message c =
      Base.◌>>=◌ (encode_commit_sign_body c) λ body. ok (frame domain_commit body)

  unfoldable pub commit_field : ℕ → CommitFields → Reader CommitFields
  commit_field k f =
      if k == 1
      then (do b ← read_fixed 32 "tree CID len"; pure (record f { tree = some b }))
      else if k == 2
      then (do ps ← read_parents; pure (record f { parents = some ps }))
      else if k == 3
      then (do
        b ← read_fixed 32 "author len"
        pure (record f { author = some (author_from_bytes b) }))
      else if k == 4
      then (do t ← read_u64_value; pure (record f { timestamp = some t }))
      else if k == 5
      then (do m ← read_tstr; pure (record f { message = some m }))
      else if k == 6
      then (do v ← read_version; pure (record f { protocol_version = some v }))
      else if k == 7
      then (do
        s ← read_fixed 64 "signature must be 64 bytes"
        pure (record f { signature = some s }))
      else fail (Message.numbers "unknown CommitBody key {other}" (k ∷ []))

  unfoldable pub commit_round : CommitFields → Reader CommitFields
  commit_round f = do
    k ← read_u64_value
    lift (key_order "CommitBody keys not sorted" f.last_k k)
    commit_field k (record f { last_k = some k })

  unfoldable pub commit_of : CommitFields → Result Commit
  commit_of f = Base.◌>>=◌ (ok_or f.tree "missing tree") λ tree.
      Base.◌>>=◌ (ok_or f.parents "missing parents") λ parents.
        Base.◌>>=◌ (ok_or f.author "missing author") λ author.
          Base.◌>>=◌ (ok_or f.timestamp "missing timestamp") λ timestamp.
            Base.◌>>=◌ (ok_or f.message "missing message") λ message. ok (record {
              tree = tree;
              parents = parents;
              author = author;
              timestamp = timestamp;
              message = message;
              protocol_version = or_one f.protocol_version;
              signature = Option.map hex.encode f.signature;
            })

  unfoldable pub commit_body : Reader Commit
  commit_body = do
    n ← read_map_header
    lift (
        reject (not (n == 7))
          (SoalError.verify (Message.numbers "CommitBody must have 7 keys, got {n}" (n ∷ []))))
    f ← repeat commit_round n no_fields
    finish
    lift (commit_of f)

  unfoldable pub decode_commit_body : Bytes → Result Commit
  decode_commit_body bytes = Base.◌>>=◌ (commit_body (Cursor_new bytes)) λ (c, _). ok c

  unfoldable pub encode_commit_wire : Commit → Result Bytes
  encode_commit_wire c = Base.◌>>=◌ (encode_commit_body c) λ body. ok (frame domain_commit body)

  unfoldable pub decode_commit_wire : Bytes → Result Commit
  decode_commit_wire wire = Base.◌>>=◌ (unframe domain_commit wire) decode_commit_body

  unfoldable pub commit_cid : Commit → Result ContentHash
  commit_cid c = Base.◌>>=◌ (encode_commit_wire c) λ wire. ok (cid_of blake3 wire)
