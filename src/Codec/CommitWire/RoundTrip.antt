-- ===== src/Codec/CommitWire/RoundTrip.antt =====
-- The wire form of commits of src/codec.rs: its bytes, and how the decoder goes through them.
use soal.Base.{
  ℕ, ◌^◌, ◌<◌, ◌≡◌, refl, ap, subst, false, Bytes, [], ◌++◌, arith, length, ok, some, ltb,
  le→ltb_false,
}
use soal.Content.{Blake3}
use soal.Content.Hex.{HexCrate}
use soal.Commit.{Commit, signature_bytes}
use soal.Codec.Cbor.{Reader, Cursor_new, ◌>>=◌, pure, lift}
use soal.Codec.Cbor.Reads.{
  Remains, Remains-new, Reads, >>=-Reads, >>=-Reads_pure, lift-Reads, Runs, >>=-Runs, >>=-Runs_last,
  finish-Runs,
}
use soal.Codec.Cbor.Items.{
  u64, bstr, tstr, array_header, map_header, writers, u64-Reads, tstr-Reads, array_header-Reads,
  map_header-Reads,
}
use soal.Codec.Fields.{repeat, key_order}
use soal.Codec.Fields.RoundTrip.{
  hashes, next_round, last_round, key-Reads, fixed-Reads, hashes-Reads, write_hashes-append,
  with_capacity-Reads,
}
use soal.Codec.CommitWire.Form.{
  IsWireCommit, wire_form, author_to_bytes-IsArray, signature_bytes-IsArray,
}
use soal.Codec.CommitWire.{
  CommitFields, no_fields, wire_version, write_signed_fields, read_parents, read_version,
  author_to_bytes, author_from_bytes, encode_commit_body, decode_commit_body, commit_field,
  commit_round, commit_of, commit_body, max_commit_parents,
}

-- The bytes behind each key, in order.
abbrev signed_bytes : Commit → Bytes → Bytes → Bytes
signed_bytes c author rest =
    (u64 1 ++ bstr c.tree)
    ++ ((u64 2 ++ (array_header (length c.parents) ++ hashes c.parents))
        ++ ((u64 3 ++ bstr author)
            ++ ((u64 4 ++ u64 c.timestamp)
                ++ ((u64 5 ++ tstr c.message)
                    ++ ((u64 6 ++ u64 (wire_version c.protocol_version)) ++ rest)))))

parents_ok : (c : Commit) → IsWireCommit c → ltb max_commit_parents (length c.parents) ≡ false
parents_ok c w = le→ltb_false max_commit_parents (length c.parents) w.count

read_parents-Reads :
    (c : Commit)
    → IsWireCommit c
    → Reads read_parents (array_header (length c.parents) ++ hashes c.parents) c.parents
unfolding read_parents
read_parents-Reads c w =
    >>=-Reads _ (array_header-Reads (length c.parents) (omega (arith, w.count))) (
      >>=-Reads _ {s = []} (rw (parents_ok c w) (lift-Reads tt)) (
        >>=-Reads _ {s = []} (with_capacity-Reads (length c.parents) (omega (arith, w.count)))
          (hashes-Reads "parent CID len" c.parents [] w.parents)))

read_version-Reads : (v : ℕ) → v < 2 ^ 16 → Reads read_version (u64 v) v
unfolding read_version
read_version-Reads v h =
    >>=-Reads_pure _ (u64-Reads v (omega arith)) (λ c. unfold pure lift ◌>>=◌ in ground arith)

wire_version-lt : (v : ℕ) → v < 2 ^ 16 → wire_version v < 2 ^ 16
unfolding wire_version
wire_version-lt v h = ground arith

module _ (hex : HexCrate) (blake3 : Blake3) where
  abbrev body_bytes : Commit → Bytes
  body_bytes c =
      map_header 7
      ++ signed_bytes c (author_to_bytes hex blake3 c.author)
          (u64 7 ++ bstr (signature_bytes hex c))

  encode_commit_body_lem :
      (c : Commit) → IsWireCommit c → encode_commit_body hex blake3 c ≡ ok (body_bytes c)
  unfolding encode_commit_body write_signed_fields
  encode_commit_body_lem c w =
      rw (parents_ok c w) (ap ok (simp (writers, write_hashes-append) refl))

  round-Reads :
      (k : ℕ) (f g : CommitFields) {s : Bytes}
      → k < 2 ^ 64
      → key_order "CommitBody keys not sorted" f.last_k k ≡ ok tt
      → Reads (commit_field hex blake3 k (record f { last_k = some k })) s g
      → Reads (commit_round hex blake3 f) (u64 k ++ s) g
  unfolding commit_round
  round-Reads k f g h o r = >>=-Reads _ (u64-Reads k h) (
      key-Reads "CommitBody keys not sorted" f.last_k k
        (commit_field hex blake3 k (record f { last_k = some k })) o r)

  module _ (c : Commit) where
    -- The variables of the loop behind each key.
    abbrev after_1 : CommitFields
    after_1 = record no_fields { tree = some c.tree; last_k = some 1 }

    abbrev after_2 : CommitFields
    after_2 = record after_1 { parents = some c.parents; last_k = some 2 }

    abbrev after_3 : CommitFields
    after_3 = record after_2 {
      author = some (hex.encode (author_to_bytes hex blake3 c.author));
      last_k = some 3;
    }

    abbrev after_4 : CommitFields
    after_4 = record after_3 { timestamp = some c.timestamp; last_k = some 4 }

    abbrev after_5 : CommitFields
    after_5 = record after_4 { message = some c.message; last_k = some 5 }

    abbrev after_6 : CommitFields
    after_6 = record after_5 {
      protocol_version = some (wire_version c.protocol_version);
      last_k = some 6;
    }

    abbrev after_7 : CommitFields
    after_7 = record after_6 { signature = some (signature_bytes hex c); last_k = some 7 }

    module _ (w : IsWireCommit c) where
      round_1 : Reads (commit_round hex blake3 no_fields) (u64 1 ++ bstr c.tree) after_1
      unfolding commit_field
      round_1 = round-Reads 1 no_fields after_1 (omega arith) (unfold key_order in refl) (
          >>=-Reads_pure _ (fixed-Reads 32 "tree CID len" c.tree w.tree (omega arith))
            (λ x. unfold pure in refl))

      round_2 :
          Reads
            (commit_round hex blake3 after_1)
            (u64 2 ++ (array_header (length c.parents) ++ hashes c.parents))
            after_2
      unfolding commit_field
      round_2 =
          round-Reads 2 after_1 after_2 (omega arith) (unfold key_order in refl)
            (>>=-Reads_pure _ (read_parents-Reads c w) (λ x. unfold pure in refl))

      round_3 :
          Reads
            (commit_round hex blake3 after_2)
            (u64 3 ++ bstr (author_to_bytes hex blake3 c.author))
            after_3
      unfolding commit_field author_from_bytes
      round_3 = round-Reads 3 after_2 after_3 (omega arith) (unfold key_order in refl) (
          >>=-Reads_pure _
            (fixed-Reads 32 "author len" (author_to_bytes hex blake3 c.author)
              (author_to_bytes-IsArray hex blake3 c.author).size (omega arith))
            (λ x. unfold pure in refl))

      round_4 : Reads (commit_round hex blake3 after_3) (u64 4 ++ u64 c.timestamp) after_4
      unfolding commit_field
      round_4 =
          round-Reads 4 after_3 after_4 (omega arith) (unfold key_order in refl)
            (>>=-Reads_pure _ (u64-Reads c.timestamp w.timestamp) (λ x. unfold pure in refl))

      round_5 : Reads (commit_round hex blake3 after_4) (u64 5 ++ tstr c.message) after_5
      unfolding commit_field
      round_5 = round-Reads 5 after_4 after_5 (omega arith) (unfold key_order in refl) (
          >>=-Reads_pure _ (tstr-Reads c.message (omega (arith, w.message)) w.utf8)
            (λ x. unfold pure in refl))

      round_6 :
          Reads
            (commit_round hex blake3 after_5)
            (u64 6 ++ u64 (wire_version c.protocol_version))
            after_6
      unfolding commit_field
      round_6 = round-Reads 6 after_5 after_6 (omega arith) (unfold key_order in refl) (
          >>=-Reads_pure _
            (read_version-Reads (wire_version c.protocol_version)
              (wire_version-lt c.protocol_version w.version))
            (λ x. unfold pure in refl))

      round_7 :
          Reads (commit_round hex blake3 after_6) (u64 7 ++ bstr (signature_bytes hex c)) after_7
      unfolding commit_field
      round_7 = round-Reads 7 after_6 after_7 (omega arith) (unfold key_order in refl) (
          >>=-Reads_pure _
            (fixed-Reads 64 "signature must be 64 bytes" (signature_bytes hex c)
              (signature_bytes-IsArray hex blake3 c).size (omega arith))
            (λ x. unfold pure in refl))

      rounds :
          Reads
            (repeat (commit_round hex blake3) 7 no_fields)
            (signed_bytes c
              (author_to_bytes hex blake3 c.author)
              (u64 7 ++ bstr (signature_bytes hex c)))
            after_7
      rounds =
          let round : CommitFields → Reader CommitFields = commit_round hex blake3 in
          next_round round 6 no_fields round_1 (
            next_round round 5 after_1 round_2 (
              next_round round 4 after_2 round_3 (
                next_round round 3 after_3 round_4 (
                  next_round round 2 after_4 round_5
                    (next_round round 1 after_5 round_6 (last_round round after_6 round_7))))))

      commit_body-Runs : Runs (commit_body hex blake3) (body_bytes c) (wire_form hex blake3 c)
      unfolding commit_body commit_of wire_form lift pure
      commit_body-Runs = >>=-Runs _ (map_header-Reads 7 (omega arith)) (
          >>=-Runs _ {s = []} (lift-Reads tt)
            (>>=-Runs_last _ rounds (finish-Runs (wire_form hex blake3 c))))

  pub decode-encode_commit_body :
      (c : Commit) (body : Bytes)
      → IsWireCommit c
      → encode_commit_body hex blake3 c ≡ ok body
      → length body < 2 ^ 63
      → decode_commit_body hex blake3 body ≡ ok (wire_form hex blake3 c)
  unfolding decode_commit_body
  decode-encode_commit_body c body w e h =
      let b : body ≡ body_bytes c = cc (e, encode_commit_body_lem c w) in
      let (x, r) =
        (commit_body-Runs c w).at (Cursor_new body)
          (subst (Remains (Cursor_new body)) b (Remains-new body h)) in
      rw r
