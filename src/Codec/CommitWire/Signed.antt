-- ===== src/Codec/CommitWire/Signed.antt =====
-- src/codec.rs, lines 439 to 473: what the signature of a commit covers.
use soal.Base.{
  ok_injective, ◌^◌, ◌≤◌, ◌<◌, ◌≡◌, refl, sym, ap, ◌∙◌, Bytes, [], ◌++◌, append_assoc,
  append_cancel_left, arith, length, length-append, none, ok, le→ltb_false,
}
use soal.Content.{Blake3}
use soal.Content.Hex.{HexCrate}
use soal.Commit.{Commit, signature_bytes, no_signature}
use soal.Codec.Frame.{domain_commit, frame, frame_injective, length-frame}
use soal.Codec.Cbor.{write_map_header, write_u64, write_bstr, push_uint}
use soal.Codec.Cbor.Items.{u64, bstr, map_header, writers}
use soal.Codec.Cbor.Sequence.{length-push_uint}
use soal.Codec.Fields.RoundTrip.{write_hashes-append}
use soal.Codec.CommitWire.{
  author_to_bytes, wire_version, write_signed_fields, encode_commit_body, encode_commit_sign_body,
  commit_sign_message, decode_commit_body, max_commit_parents,
}
use soal.Codec.CommitWire.Form.{IsWireCommit, wire_form, author_to_bytes-IsArray}
use soal.Codec.CommitWire.RoundTrip.{decode-encode_commit_body}

signed_fields-append :
    (c : Commit) (author buf : Bytes)
    → write_signed_fields c author buf ≡ buf ++ write_signed_fields c author []
unfolding write_signed_fields
signed_fields-append c author buf = simp (writers, write_hashes-append) refl

abbrev unsigned : Commit → Commit
unsigned c = record c { signature = none }

same_fields :
    (c : Commit) (author : Bytes)
    → write_signed_fields (unsigned c) author [] ≡ write_signed_fields c author []
unfolding write_signed_fields
same_fields c author = refl

unsigned-IsWireCommit : (c : Commit) → IsWireCommit c → IsWireCommit (unsigned c)
unsigned-IsWireCommit c w = record {
  tree = w.tree;
  count = w.count;
  parents = w.parents;
  timestamp = w.timestamp;
  message = w.message;
  utf8 = w.utf8;
  version = w.version;
}

-- The last pair of an unsigned commit.
abbrev tail : Bytes
tail = u64 7 ++ bstr no_signature

tail_size : length tail ≤ 82
unfolding u64 bstr write_u64 write_bstr push_uint
tail_size = omega arith

header_size : length (map_header 7) ≤ 9
unfolding map_header write_map_header
header_size = length-push_uint 5 7

module _ (hex : HexCrate) (blake3 : Blake3) where
  abbrev fields : Commit → Bytes
  fields c = write_signed_fields c (author_to_bytes hex blake3 c.author) []

  sign_message-fields :
      (c : Commit)
      → IsWireCommit c
      → commit_sign_message hex blake3 c ≡ ok (frame domain_commit (map_header 6 ++ fields c))
  unfolding commit_sign_message encode_commit_sign_body
  sign_message-fields c w = rw (le→ltb_false max_commit_parents (length c.parents) w.count) (
      ap (λ b. ok (frame domain_commit b))
        (signed_fields-append c (author_to_bytes hex blake3 c.author) (write_map_header 6 [])
          ∙ ap (λ h. h ++ fields c) header))
    where
      header : write_map_header 6 [] ≡ map_header 6
      header = unfold map_header in refl

  body-fields :
      (c : Commit)
      → IsWireCommit c
      → encode_commit_body hex blake3 (unsigned c) ≡ ok (map_header 7 ++ (fields c ++ tail))
  unfolding encode_commit_body signature_bytes
  body-fields c w = rw (le→ltb_false max_commit_parents (length c.parents) w.count) (
      ap ok (
        simp writers (
          ap (λ b. b ++ tail)
            (signed_fields-append (unsigned c) (author_to_bytes hex blake3 c.author) (map_header 7)
              ∙ ap (λ b. map_header 7 ++ b) (same_fields c (author_to_bytes hex blake3 c.author)))
          ∙ append_assoc (map_header 7) (fields c) tail)))

  body_size :
      (c : Commit) (msg : Bytes)
      → msg ≡ frame domain_commit (map_header 6 ++ fields c)
      → length msg < 2 ^ 62
      → length (map_header 7 ++ (fields c ++ tail)) < 2 ^ 63
  body_size c msg e h = omega (
    arith,
    h,
    ap length e,
    length-frame domain_commit (map_header 6 ++ fields c),
    length-append (map_header 6) (fields c),
    length-append (map_header 7) (fields c ++ tail),
    length-append (fields c) tail,
    tail_size,
    header_size,
  )

  same_wire_form :
      (a b : Commit) (msg : Bytes)
      → IsWireCommit a
      → IsWireCommit b
      → commit_sign_message hex blake3 a ≡ ok msg
      → commit_sign_message hex blake3 b ≡ ok msg
      → length msg < 2 ^ 62
      → wire_form hex blake3 (unsigned a) ≡ wire_form hex blake3 (unsigned b)
  same_wire_form a b msg v w e f h =
      let ma : msg ≡ frame domain_commit (map_header 6 ++ fields a) =
        ok_injective (sym e ∙ sign_message-fields a v) in
      let mb : msg ≡ frame domain_commit (map_header 6 ++ fields b) =
        ok_injective (sym f ∙ sign_message-fields b w) in
      let (_, bodies) = frame_injective domain_commit domain_commit _ _ refl refl (sym ma ∙ mb) in
      let same : fields a ≡ fields b = append_cancel_left (map_header 6) bodies in
      let da =
        decode-encode_commit_body hex blake3 (unsigned a) _ (unsigned-IsWireCommit a v)
          (body-fields a v) (body_size a msg ma h) in
      let db =
        decode-encode_commit_body hex blake3 (unsigned b) _ (unsigned-IsWireCommit b w)
          (body-fields b w) (body_size b msg mb h) in
      ok_injective
        (sym da ∙ ap (λ x. decode_commit_body hex blake3 (map_header 7 ++ (x ++ tail))) same ∙ db)

  -- Two commits of 32-byte hashes, at most 16 parents, UTF-8 messages and values of their word
  -- sizes, which have one message to sign and that shorter than 2^62 bytes, agree in the tree, the
  -- parents, the author's bytes, the timestamp, the message and the version written for them.
  pub commit_sign_message_injective :
      (a b : Commit) (msg : Bytes)
      → IsWireCommit a
      → IsWireCommit b
      → commit_sign_message hex blake3 a ≡ ok msg
      → commit_sign_message hex blake3 b ≡ ok msg
      → length msg < 2 ^ 62
      → (a.tree ≡ b.tree)
        × (a.parents ≡ b.parents)
        × (author_to_bytes hex blake3 a.author ≡ author_to_bytes hex blake3 b.author)
        × (a.timestamp ≡ b.timestamp)
        × (a.message ≡ b.message)
        × (wire_version a.protocol_version ≡ wire_version b.protocol_version)
  unfolding wire_form
  commit_sign_message_injective a b msg v w e f h =
      let same = same_wire_form a b msg v w e f h in
      let digits = ap (λ (c : Commit). c.author) same in
      let pa = author_to_bytes-IsArray hex blake3 a.author in
      let pb = author_to_bytes-IsArray hex blake3 b.author in
      (
        ap (λ (c : Commit). c.tree) same,
        ap (λ (c : Commit). c.parents) same,
        cc (hex.decode-encode _ pa.bytes, hex.decode-encode _ pb.bytes, digits),
        ap (λ (c : Commit). c.timestamp) same,
        ap (λ (c : Commit). c.message) same,
        ap (λ (c : Commit). c.protocol_version) same,
      )
