-- ===== src/Codec/HeadWire/RoundTrip.antt =====
-- The wire form of head announcements of src/codec.rs: its bytes, and how the decoder goes through them.
use soal.Base.{
  ℕ, ◌+◌, ◌*◌, ◌^◌, ◌≤◌, ◌<◌, ◌≡◌, refl, sym, ap, ◌∙◌, subst, true, false, Bytes, [], ◌∷◌, ◌++◌,
  append_assoc, arith, length, ok, err, Result, Option, none, some, ltb, ◌==◌, reject,
  if◌then◌else◌,
}
use soal.Base
use soal.Codec.Utf8.{is_utf8}
use soal.Codec.Cbor.{Cursor_new, pure, lift}
use soal.Codec.Cbor.Reads.{
  Remains, Remains-new, Reads, >>=-Reads, >>=-Reads_pure, lift-Reads, Runs, >>=-Runs, >>=-Runs_last,
  finish-Runs,
}
use soal.Codec.Cbor.Items.{
  u64, bstr, tstr, map_header, writers, u64-Reads, tstr-Reads, map_header-Reads,
}
use soal.Codec.Fields.{repeat, key_order}
use soal.Codec.Fields.RoundTrip.{next_round, last_round, key-Reads, fixed-Reads}
use soal.Codec.HeadWire.{
  HeadAnnouncement, HeadFields, no_fields, write_head, encode_head_announcement,
  decode_head_announcement, head_field, head_round, head_of, head_body, max_message_bytes,
  vault_id_len,
}

-- The sizes that the field types of `HeadAnnouncement` give.
pub record IsWireHead (ann : HeadAnnouncement) : Type 0 where
  pub protocol_version : ann.protocol_version < 2 ^ 64
  pub vault_id : length ann.vault_id ≡ 16
  pub name : length ann.vault_name < 2 ^ 63
  pub utf8 : is_utf8 ann.vault_name ≡ true
  pub head : length ann.head ≡ 32
  pub timestamp : ann.timestamp < 2 ^ 64
  pub node_id : length ann.node_id ≡ 32
  pub seq : ann.seq < 2 ^ 64
  pub config_seq : ann.config_seq < 2 ^ 64
  pub signature : length ann.signature ≡ 64

-- The pairs, in order.
abbrev pairs : HeadAnnouncement → Bytes
pairs ann =
    ((u64 1 ++ u64 ann.protocol_version)
      ++ ((u64 2 ++ bstr ann.vault_id)
          ++ ((u64 3 ++ tstr ann.vault_name)
              ++ ((u64 4 ++ bstr ann.head)
                  ++ ((u64 5 ++ u64 ann.timestamp)
                      ++ ((u64 6 ++ bstr ann.node_id)
                          ++ ((u64 7 ++ u64 ann.seq)
                              ++ ((u64 8 ++ u64 ann.config_seq)
                                  ++ (u64 9 ++ bstr ann.signature)))))))))

write_head-pairs : (ann : HeadAnnouncement) → write_head ann [] ≡ map_header 9 ++ pairs ann
unfolding write_head
write_head-pairs ann = simp writers refl

round-Reads :
    (k : ℕ) (f g : HeadFields) {s : Bytes}
    → k < 2 ^ 64
    → key_order "HeadAnnBody keys not sorted" f.last_k k ≡ ok tt
    → Reads (head_field k (record f { last_k = some k })) s g
    → Reads (head_round f) (u64 k ++ s) g
unfolding head_round
round-Reads k f g h o r = >>=-Reads _ (u64-Reads k h) (
    key-Reads "HeadAnnBody keys not sorted" f.last_k k (head_field k (record f { last_k = some k }))
      o r)

module _ (ann : HeadAnnouncement) where
  -- The variables of the loop behind each key.
  abbrev after_1 : HeadFields
  after_1 = record no_fields { protocol_version = some ann.protocol_version; last_k = some 1 }

  abbrev after_2 : HeadFields
  after_2 = record after_1 { vault_id = some ann.vault_id; last_k = some 2 }

  abbrev after_3 : HeadFields
  after_3 = record after_2 { vault_name = some ann.vault_name; last_k = some 3 }

  abbrev after_4 : HeadFields
  after_4 = record after_3 { head = some ann.head; last_k = some 4 }

  abbrev after_5 : HeadFields
  after_5 = record after_4 { timestamp = some ann.timestamp; last_k = some 5 }

  abbrev after_6 : HeadFields
  after_6 = record after_5 { node_id = some ann.node_id; last_k = some 6 }

  abbrev after_7 : HeadFields
  after_7 = record after_6 { seq = some ann.seq; last_k = some 7 }

  abbrev after_8 : HeadFields
  after_8 = record after_7 { config_seq = some ann.config_seq; last_k = some 8 }

  abbrev after_9 : HeadFields
  after_9 = record after_8 { signature = some ann.signature; last_k = some 9 }

  module _ (w : IsWireHead ann) where
    round_1 : Reads (head_round no_fields) (u64 1 ++ u64 ann.protocol_version) after_1
    unfolding head_field
    round_1 = round-Reads 1 no_fields after_1 (omega arith) (unfold key_order in refl) (
        >>=-Reads_pure _ (u64-Reads ann.protocol_version w.protocol_version)
          (λ c. unfold pure in refl))

    round_2 : Reads (head_round after_1) (u64 2 ++ bstr ann.vault_id) after_2
    unfolding head_field
    round_2 = round-Reads 2 after_1 after_2 (omega arith) (unfold key_order in refl) (
        >>=-Reads_pure _
          (fixed-Reads vault_id_len "vault_id must be 16 bytes" ann.vault_id w.vault_id
            (omega arith))
          (λ c. unfold pure in refl))

    round_3 : Reads (head_round after_2) (u64 3 ++ tstr ann.vault_name) after_3
    unfolding head_field
    round_3 = round-Reads 3 after_2 after_3 (omega arith) (unfold key_order in refl) (
        >>=-Reads_pure _ (tstr-Reads ann.vault_name (omega (arith, w.name)) w.utf8)
          (λ c. unfold pure in refl))

    round_4 : Reads (head_round after_3) (u64 4 ++ bstr ann.head) after_4
    unfolding head_field
    round_4 = round-Reads 4 after_3 after_4 (omega arith) (unfold key_order in refl) (
        >>=-Reads_pure _ (fixed-Reads 32 "head CID must be 32 bytes" ann.head w.head (omega arith))
          (λ c. unfold pure in refl))

    round_5 : Reads (head_round after_4) (u64 5 ++ u64 ann.timestamp) after_5
    unfolding head_field
    round_5 =
        round-Reads 5 after_4 after_5 (omega arith) (unfold key_order in refl)
          (>>=-Reads_pure _ (u64-Reads ann.timestamp w.timestamp) (λ c. unfold pure in refl))

    round_6 : Reads (head_round after_5) (u64 6 ++ bstr ann.node_id) after_6
    unfolding head_field
    round_6 = round-Reads 6 after_5 after_6 (omega arith) (unfold key_order in refl) (
        >>=-Reads_pure _
          (fixed-Reads 32 "node_id must be 32 bytes" ann.node_id w.node_id (omega arith))
          (λ c. unfold pure in refl))

    round_7 : Reads (head_round after_6) (u64 7 ++ u64 ann.seq) after_7
    unfolding head_field
    round_7 =
        round-Reads 7 after_6 after_7 (omega arith) (unfold key_order in refl)
          (>>=-Reads_pure _ (u64-Reads ann.seq w.seq) (λ c. unfold pure in refl))

    round_8 : Reads (head_round after_7) (u64 8 ++ u64 ann.config_seq) after_8
    unfolding head_field
    round_8 =
        round-Reads 8 after_7 after_8 (omega arith) (unfold key_order in refl)
          (>>=-Reads_pure _ (u64-Reads ann.config_seq w.config_seq) (λ c. unfold pure in refl))

    round_9 : Reads (head_round after_8) (u64 9 ++ bstr ann.signature) after_9
    unfolding head_field
    round_9 = round-Reads 9 after_8 after_9 (omega arith) (unfold key_order in refl) (
        >>=-Reads_pure _
          (fixed-Reads 64 "signature must be 64 bytes" ann.signature w.signature (omega arith))
          (λ c. unfold pure in refl))

    rounds : Reads (repeat head_round 9 no_fields) (pairs ann) after_9
    rounds =
        (next_round head_round 8 no_fields round_1 (
          next_round head_round 7 after_1 round_2 (
            next_round head_round 6 after_2 round_3 (
              next_round head_round 5 after_3 round_4 (
                next_round head_round 4 after_4 round_5 (
                  next_round head_round 3 after_5 round_6 (
                    next_round head_round 2 after_6 round_7 (
                      next_round head_round 1 after_7 round_8
                        (last_round head_round after_8 round_9)))))))))

    head_body-Runs : Runs head_body (map_header 9 ++ pairs ann) ann
    unfolding head_body head_of lift pure
    head_body-Runs =
        >>=-Runs _ (map_header-Reads 9 (omega arith))
          (>>=-Runs _ {s = []} (lift-Reads tt) (>>=-Runs_last _ rounds (finish-Runs ann)))

-- What `encode_head_announcement` checks.
encode_inv :
    (ann : HeadAnnouncement) (msg : Bytes)
    → encode_head_announcement ann ≡ ok msg
    → (msg ≡ write_head ann []) × (length msg ≤ max_message_bytes)
unfolding encode_head_announcement
encode_inv ann msg e = ground arith

-- A head announcement whose fields have the sizes of their types and whose name is UTF-8 decodes
-- from the message that encode_head_announcement returns for it to the same announcement.
pub decode-encode_head_announcement :
    (ann : HeadAnnouncement) (msg : Bytes)
    → IsWireHead ann
    → encode_head_announcement ann ≡ ok msg
    → decode_head_announcement msg ≡ ok ann
unfolding decode_head_announcement
decode-encode_head_announcement ann msg w e =
    let (b, h) = encode_inv ann msg e in
    let start : Remains (Cursor_new msg) (map_header 9 ++ pairs ann) =
      subst (Remains (Cursor_new msg)) (b ∙ write_head-pairs ann)
        (Remains-new msg (omega (arith, h))) in
    let (c, r) = (head_body-Runs ann w).at (Cursor_new msg) start in
    rw (Base.le→ltb_false max_message_bytes (length msg) h, r)
