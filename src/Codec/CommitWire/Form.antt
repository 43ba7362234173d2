-- ===== src/Codec/CommitWire/Form.antt =====
-- The wire form of a commit of src/codec.rs: what a reader of its bytes gets.
use soal.Base.{
  ℕ, ◌^◌, ◌≤◌, ◌<◌, ◌≡◌, refl, true, Bytes, ◌++◌, arith, length, ok, Result, Option, none, some,
  ◌==◌, ==_iff, if◌then◌else◌, Bool-cases, inl, inr,
}
use soal.Content.{ContentHash, Blake3, IsArray, IsBytes, codes}
use soal.Content.Hex.{HexCrate, from_hex, from_hex-IsArray, from_hex-to_hex, to_hex, trim_id}
use soal.Content.Text.{trim}
use soal.Commit.{Commit, signature_bytes, decode_signature, no_signature}
use soal.Codec.Utf8.{is_utf8}
use soal.Codec.Fields.RoundTrip.{AreHashes}
use soal.Codec.CommitWire.{
  wire_version, author_to_bytes, encode_commit_body, max_commit_parents, write_signed_fields,
}

-- What holds of every `Commit` that a Rust value can hold and that was made of content hashes.
pub record IsWireCommit (c : Commit) : Type 0 where
  pub tree : length c.tree ≡ 32
  pub count : length c.parents ≤ max_commit_parents
  pub parents : AreHashes c.parents
  pub timestamp : c.timestamp < 2 ^ 64
  pub message : length c.message < 2 ^ 63
  pub utf8 : is_utf8 c.message ≡ true
  pub version : c.protocol_version < 2 ^ 16

no_signature-IsArray : IsArray 64 no_signature
no_signature-IsArray = record { size = refl; bytes = omega arith }

module _ (hex : HexCrate) (blake3 : Blake3) where
  pub author_to_bytes-IsArray : (a : Bytes) → IsArray 32 (author_to_bytes hex blake3 a)
  unfolding author_to_bytes
  author_to_bytes-IsArray a = go (from_hex hex a) refl
    where
      go :
          (r : Result ContentHash)
          → from_hex hex a ≡ r
          → IsArray 32 (elim r [ ok h ↦ h | _ ↦ blake3.hash (codes "soal-author:" ++ a) ])
      go (ok h) e = from_hex-IsArray hex a h e
      go _ e = blake3.hash-IsArray (codes "soal-author:" ++ a)

  decode_signature-IsArray : (s : Bytes) → IsArray 64 (decode_signature hex s)
  unfolding decode_signature
  decode_signature-IsArray s = go (hex.decode (trim s)) refl
    where
      sized : (bs : Bytes) → IsBytes bs → IsArray 64 (if length bs == 64 then bs else no_signature)
      sized bs h = elim (Bool-cases (length bs == 64)) [
        | inl p ↦ rw p (record { size = (==_iff (length bs) 64).0 p; bytes = h })
        | inr p ↦ rw p no_signature-IsArray
      ]

      go :
          (o : Option Bytes)
          → hex.decode (trim s) ≡ o
          → IsArray 64 (elim o [
            | none ↦ no_signature
            | some bs ↦ if length bs == 64 then bs else no_signature
          ])
      go none e = no_signature-IsArray
      go (some bs) e = sized bs (hex.decode-IsBytes (trim s) bs e)

  pub signature_bytes-IsArray : (c : Commit) → IsArray 64 (signature_bytes hex c)
  unfolding signature_bytes
  signature_bytes-IsArray c = go c.signature
    where
      go :
          (o : Option Bytes)
          → IsArray 64 (elim o [ none ↦ no_signature | some s ↦ decode_signature hex s ])
      go none = no_signature-IsArray
      go (some s) = decode_signature-IsArray s

  -- Hex digits for the author and the signature, and a version that is not 0.
  unfoldable pub wire_form : Commit → Commit
  wire_form c = record c {
    author = hex.encode (author_to_bytes hex blake3 c.author);
    protocol_version = wire_version c.protocol_version;
    signature = some (hex.encode (signature_bytes hex c));
  }

  pub author_of_digits : (b : Bytes) → IsArray 32 b → author_to_bytes hex blake3 (hex.encode b) ≡ b
  unfolding author_to_bytes
  author_of_digits b h =
      let e : from_hex hex (hex.encode b) ≡ ok b = unfold to_hex in from_hex-to_hex hex b h in
      rw (e, author_to_bytes)

  pub signature_of_digits : (b : Bytes) → IsArray 64 b → decode_signature hex (hex.encode b) ≡ b
  unfolding decode_signature
  signature_of_digits b h =
      ground
        (arith, trim_id (hex.encode b) (hex.encode_digits b), hex.decode-encode b h.bytes, h.size)

  wire_version_idem : (v : ℕ) → wire_version (wire_version v) ≡ wire_version v
  unfolding wire_version
  wire_version_idem v = ground arith

  pub encode-wire_form :
      (c : Commit) → encode_commit_body hex blake3 (wire_form c) ≡ encode_commit_body hex blake3 c
  unfolding encode_commit_body wire_form write_signed_fields signature_bytes
  encode-wire_form c = simp (
    author_of_digits _ (author_to_bytes-IsArray c.author),
    signature_of_digits _ (signature_bytes-IsArray c),
    wire_version_idem c.protocol_version,
  )
