-- ===== src/Codec/Wires.antt =====
-- src/codec.rs, the framed forms of trees and commits: what is stored under a content id.
use soal.Base.{◌^◌, ◌<◌, ◌≡◌, ◌≢◌, refl, sym, ap, ◌∙◌, Bytes, arith, length, ok, >>=-ok}
use soal.Content.{Blake3}
use soal.Content.Hex.{HexCrate}
use soal.Tree.{Tree}
use soal.Commit.{Commit}
use soal.Codec.Frame.{
  domain_tree, domain_commit, frame, unframe, unframe-frame, unframe_inv, frame_injective,
  length-frame,
}
use soal.Codec.TreeWire.{encode_tree_body, encode_tree_wire, decode_tree_wire}
use soal.Codec.TreeWire.RoundTrip.{IsWireTree, decode-encode_tree_body}
use soal.Codec.CommitWire.{encode_commit_body, encode_commit_wire, decode_commit_wire}
use soal.Codec.CommitWire.Form.{IsWireCommit, wire_form, encode-wire_form}
use soal.Codec.CommitWire.RoundTrip.{decode-encode_commit_body}

encode_tree_wire_inv :
    (t : Tree) (wire : Bytes)
    → encode_tree_wire t ≡ ok wire
    → (body : Bytes) × (encode_tree_body t ≡ ok body) × (wire ≡ frame domain_tree body)
unfolding encode_tree_wire
encode_tree_wire_inv t wire e = let (body, p, q) = >>=-ok (encode_tree_body t) _ e in (body, p, cc)

body_size :
    (d body wire : Bytes) → wire ≡ frame d body → length wire < 2 ^ 63 → length body < 2 ^ 63
body_size d body wire e h = omega (arith, h, ap length e, length-frame d body)

-- A tree with strictly sorted, valid UTF-8 paths, 32-byte hashes and at most a million entries,
-- whose encoding is shorter than 2^63 bytes, decodes from the wire that encode_tree_wire makes of
-- it to the same tree.
pub decode-encode_tree_wire :
    (t : Tree) (wire : Bytes)
    → IsWireTree t
    → encode_tree_wire t ≡ ok wire
    → length wire < 2 ^ 63
    → decode_tree_wire wire ≡ ok t
unfolding decode_tree_wire
decode-encode_tree_wire t wire w e h =
    let (body, p, q) = encode_tree_wire_inv t wire e in
    rw (q, unframe-frame domain_tree body refl)
      (decode-encode_tree_body t body w p (body_size domain_tree body wire q h))

module _ (hex : HexCrate) (blake3 : Blake3) where
  encode_commit_wire_inv :
      (c : Commit) (wire : Bytes)
      → encode_commit_wire hex blake3 c ≡ ok wire
      → (body : Bytes) × (encode_commit_body hex blake3 c ≡ ok body)
        × (wire ≡ frame domain_commit body)
  unfolding encode_commit_wire
  encode_commit_wire_inv c wire e =
      let (body, p, q) = >>=-ok (encode_commit_body hex blake3 c) _ e in (body, p, cc)

  encode_commit_wire-wire_form :
      (c : Commit)
      → encode_commit_wire hex blake3 (wire_form hex blake3 c) ≡ encode_commit_wire hex blake3 c
  unfolding encode_commit_wire
  encode_commit_wire-wire_form c = rw (encode-wire_form hex blake3 c)

  -- A commit of 32-byte hashes, at most 16 parents, a UTF-8 message and values of their word sizes,
  -- whose wire is shorter than 2^63 bytes, decodes from its wire to its wire form (hex digits for
  -- author and signature, version not 0), and that wire form encodes to the same wire.
  pub decode-encode_commit_wire :
      (c : Commit) (wire : Bytes)
      → IsWireCommit c
      → encode_commit_wire hex blake3 c ≡ ok wire
      → length wire < 2 ^ 63
      → (decode_commit_wire hex blake3 wire ≡ ok (wire_form hex blake3 c))
        × (encode_commit_wire hex blake3 (wire_form hex blake3 c) ≡ ok wire)
  unfolding decode_commit_wire
  decode-encode_commit_wire c wire w e h =
      let (body, p, q) = encode_commit_wire_inv c wire e in
      (
        rw (q, unframe-frame domain_commit body refl)
            (decode-encode_commit_body hex blake3 c body w p
              (body_size domain_commit body wire q h)),
        encode_commit_wire-wire_form c ∙ e,
      )

  -- Bytes that decode_tree_wire accepts as a tree are not accepted by decode_commit_wire as a
  -- commit.
  pub tree_or_commit :
      (wire : Bytes) (t : Tree) (c : Commit)
      → decode_tree_wire wire ≡ ok t
      → decode_commit_wire hex blake3 wire ≢ ok c
  unfolding decode_tree_wire decode_commit_wire
  tree_or_commit wire t c e f =
      let (b, p, _) = >>=-ok (unframe domain_tree wire) _ e in
      let (d, q, _) = >>=-ok (unframe domain_commit wire) _ f in
      let (same, _) =
        frame_injective domain_tree domain_commit b d refl refl
          (sym (unframe_inv domain_tree wire b p) ∙ unframe_inv domain_commit wire d q) in
      ground (arith, same)
