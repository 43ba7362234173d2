-- ===== src/Examples/Wires.antt =====
-- Trees, commits and announcements on the wire at concrete values.
use soal.Base.{
  ℕ, ◌*◌, ◌^◌, ◌<◌, ◌≡◌, ◌≢◌, refl, sym, Bytes, List, [], ◌∷◌, ◌++◌, length, replicate, Option,
  none, some, Result, ok, arith,
}
use soal.Content.{codes, ContentHash}
use soal.Examples.Crates.{hex, blake3}
use soal.Tree.{Tree, file, dir}
use soal.Commit.{Commit}
use soal.Codec.Frame.{
  domain_tree, domain_head, frame, cid_of, verify_framed, frame_cid, verify_framed_inv,
  verify_framed-frame_cid,
}
use soal.Codec.Cbor.{push_uint, expect_major_uint}
use soal.Codec.TreeWire.{encode_tree_wire, decode_tree_wire, decode_tree_body}
use soal.Codec.TreeWire.RoundTrip.{IsWireTree, decode-encode_tree_body}
use soal.Codec.TreeWire.Accepted.{IsAccepted, decode_tree_body-IsAccepted}
use soal.Codec.CommitWire.{
  encode_commit_wire, decode_commit_wire, commit_sign_message, author_to_bytes, wire_version,
}
use soal.Codec.CommitWire.Signed.{commit_sign_message_injective}
use soal.Codec.CommitWire.Form.{IsWireCommit, wire_form}
use soal.Codec.Wires.{decode-encode_tree_wire, decode-encode_commit_wire}

abbrev tree : Tree
tree = record {
  entries = (codes "a", file 5 (replicate 32 7 ∷ [])) ∷ (codes "b", dir (replicate 32 9)) ∷ [];
}

abbrev tree_body_bytes : Bytes
tree_body_bytes =
    161
    ∷ 1
    ∷ 162
    ∷ 97
    ∷ 97
    ∷ 163
    ∷ 1
    ∷ 0
    ∷ 2
    ∷ 5
    ∷ 3
    ∷ 129
    ∷ 88
    ∷ 32
    ∷ (replicate 32 7 ++ (97 ∷ 98 ∷ 162 ∷ 1 ∷ 1 ∷ 2 ∷ 88 ∷ 32 ∷ replicate 32 9))

abbrev tree_wire : Bytes
tree_wire = domain_tree ++ tree_body_bytes

tree-IsWireTree : IsWireTree tree
unfolding soal.Codec.Utf8.is_utf8 soal.Paths.validate_path soal.Paths.is_empty soal.Paths.contains
    soal.Paths.starts_with soal.Paths.has_drive soal.Paths.check_segments soal.Paths.split
    soal.Content.bytes_eq soal.Content.bytes_ltb
tree-IsWireTree = record {
  sorted = (refl, (tt, tt));
  count = omega arith;
  items = (
    (
      record { short = omega arith; utf8 = refl; valid = refl },
      (omega arith, omega arith, (refl, tt)),
    ),
    ((record { short = omega arith; utf8 = refl; valid = refl }, refl), tt),
  );
}

tree_encodes : encode_tree_wire tree ≡ ok tree_wire
unfolding encode_tree_wire soal.Codec.TreeWire.encode_tree_body frame
    soal.Codec.TreeWire.write_entries soal.Codec.TreeWire.write_entry soal.Codec.Fields.write_hashes
    soal.Codec.Cbor.write_u64 soal.Codec.Cbor.write_bstr soal.Codec.Cbor.write_tstr
    soal.Codec.Cbor.write_map_header soal.Codec.Cbor.write_array_header push_uint
    soal.Codec.Cbor.initial_byte
tree_encodes = refl

decode-encode_tree_wire_example : decode_tree_wire tree_wire ≡ ok tree
decode-encode_tree_wire_example =
    decode-encode_tree_wire tree tree_wire tree-IsWireTree tree_encodes (omega arith)

tree_body_encodes : soal.Codec.TreeWire.encode_tree_body tree ≡ ok tree_body_bytes
unfolding soal.Codec.TreeWire.encode_tree_body soal.Codec.TreeWire.write_entries
    soal.Codec.TreeWire.write_entry soal.Codec.Fields.write_hashes soal.Codec.Cbor.write_u64
    soal.Codec.Cbor.write_bstr soal.Codec.Cbor.write_tstr soal.Codec.Cbor.write_map_header
    soal.Codec.Cbor.write_array_header push_uint soal.Codec.Cbor.initial_byte
tree_body_encodes = refl

decode_tree_body-IsAccepted_example : IsAccepted tree
decode_tree_body-IsAccepted_example =
    decode_tree_body-IsAccepted tree_body_bytes tree
      (decode-encode_tree_body tree tree_body_bytes tree-IsWireTree tree_body_encodes (omega arith))

abbrev commit : Commit
commit = record {
  tree = replicate 32 1;
  parents = replicate 32 2 ∷ [];
  author = codes "soal-local";
  timestamp = 5;
  message = codes "hi";
  protocol_version = 0;
  signature = none;
}

abbrev commit_wire : Bytes
commit_wire =
    soal.Codec.Frame.domain_commit
    ++ ((167 ∷ 1 ∷ 88 ∷ 32 ∷ replicate 32 1)
        ++ ((2 ∷ 129 ∷ 88 ∷ 32 ∷ replicate 32 2)
            ++ ((3 ∷ 88 ∷ 32 ∷ 22 ∷ replicate 31 0)
                ++ ((4 ∷ 5 ∷ 5 ∷ 98 ∷ 104 ∷ 105 ∷ 6 ∷ 1 ∷ 7 ∷ 88 ∷ 64 ∷ replicate 64 0)))))

commit-IsWireCommit : IsWireCommit commit
unfolding soal.Codec.Utf8.is_utf8
commit-IsWireCommit = record {
  tree = refl;
  count = omega arith;
  parents = (refl, tt);
  timestamp = omega arith;
  message = omega arith;
  utf8 = refl;
  version = omega arith;
}

commit_encodes : encode_commit_wire hex blake3 commit ≡ ok commit_wire
unfolding encode_commit_wire soal.Codec.CommitWire.encode_commit_body frame
    soal.Codec.Cbor.write_bstr push_uint soal.Commit.signature_bytes soal.Codec.Cbor.write_u64
    soal.Codec.CommitWire.write_signed_fields soal.Codec.CommitWire.wire_version
    soal.Codec.Cbor.write_tstr soal.Codec.CommitWire.author_to_bytes soal.Content.Hex.from_hex
    soal.Content.Text.trim soal.Content.Text.space_front soal.Content.Text.space_back
    soal.Codec.Fields.write_hashes soal.Codec.Cbor.write_array_header
    soal.Codec.Cbor.write_map_header soal.Base.be_bytes soal.Codec.Cbor.initial_byte
    soal.Content.Text.is_ascii_space soal.Content.Text.is_space_three soal.Content.Text.is_space_two
    soal.Content.Text.strip
commit_encodes = refl

decode-encode_commit_wire_example :
    (decode_commit_wire hex blake3 commit_wire ≡ ok (wire_form hex blake3 commit))
    × (encode_commit_wire hex blake3 (wire_form hex blake3 commit) ≡ ok commit_wire)
decode-encode_commit_wire_example =
    decode-encode_commit_wire hex blake3 commit commit_wire commit-IsWireCommit commit_encodes
      (omega arith)

abbrev signed_bytes : Bytes
signed_bytes =
    soal.Codec.Frame.domain_commit
    ++ ((166 ∷ 1 ∷ 88 ∷ 32 ∷ replicate 32 1)
        ++ ((2 ∷ 129 ∷ 88 ∷ 32 ∷ replicate 32 2)
            ++ ((3 ∷ 88 ∷ 32 ∷ 22 ∷ replicate 31 0) ++ (4 ∷ 5 ∷ 5 ∷ 98 ∷ 104 ∷ 105 ∷ 6 ∷ 1 ∷ []))))

commit_signs : commit_sign_message hex blake3 commit ≡ ok signed_bytes
unfolding commit_sign_message soal.Codec.CommitWire.encode_commit_sign_body frame
    soal.Codec.Cbor.write_bstr push_uint soal.Commit.signature_bytes soal.Codec.Cbor.write_u64
    soal.Codec.CommitWire.write_signed_fields soal.Codec.CommitWire.wire_version
    soal.Codec.Cbor.write_tstr soal.Codec.CommitWire.author_to_bytes soal.Content.Hex.from_hex
    soal.Content.Text.trim soal.Content.Text.space_front soal.Content.Text.space_back
    soal.Codec.Fields.write_hashes soal.Codec.Cbor.write_array_header
    soal.Codec.Cbor.write_map_header soal.Base.be_bytes soal.Codec.Cbor.initial_byte
    soal.Content.Text.is_ascii_space soal.Content.Text.is_space_three soal.Content.Text.is_space_two
    soal.Content.Text.strip
commit_signs = refl

abbrev versioned : Commit
versioned = record commit { protocol_version = 1; signature = some (codes "aa") }

versioned-IsWireCommit : IsWireCommit versioned
unfolding soal.Codec.Utf8.is_utf8
versioned-IsWireCommit = record {
  tree = refl;
  count = omega arith;
  parents = (refl, tt);
  timestamp = omega arith;
  message = omega arith;
  utf8 = refl;
  version = omega arith;
}

versioned_signs : commit_sign_message hex blake3 versioned ≡ ok signed_bytes
unfolding commit_sign_message soal.Codec.CommitWire.encode_commit_sign_body frame
    soal.Codec.Cbor.write_bstr push_uint soal.Commit.signature_bytes soal.Codec.Cbor.write_u64
    soal.Codec.CommitWire.write_signed_fields soal.Codec.CommitWire.wire_version
    soal.Codec.Cbor.write_tstr soal.Codec.CommitWire.author_to_bytes soal.Content.Hex.from_hex
    soal.Content.Text.trim soal.Content.Text.space_front soal.Content.Text.space_back
    soal.Codec.Fields.write_hashes soal.Codec.Cbor.write_array_header
    soal.Codec.Cbor.write_map_header soal.Base.be_bytes soal.Codec.Cbor.initial_byte
    soal.Content.Text.is_ascii_space soal.Content.Text.is_space_three soal.Content.Text.is_space_two
    soal.Content.Text.strip
versioned_signs = refl

commit_sign_message_injective_example :
    (commit.tree ≡ versioned.tree)
    × (commit.parents ≡ versioned.parents)
    × (author_to_bytes hex blake3 commit.author ≡ author_to_bytes hex blake3 versioned.author)
    × (commit.timestamp ≡ versioned.timestamp)
    × (commit.message ≡ versioned.message)
    × (wire_version commit.protocol_version ≡ wire_version versioned.protocol_version)
commit_sign_message_injective_example =
    commit_sign_message_injective hex blake3 commit versioned signed_bytes commit-IsWireCommit
      versioned-IsWireCommit commit_signs versioned_signs (omega arith)
