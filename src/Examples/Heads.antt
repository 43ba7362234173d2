-- ===== src/Examples/Heads.antt =====
-- Head announcements, and the messages that they sign, at concrete values.
use soal.Codec.Cbor.Bounds.{take_n_lem}
use soal.Base.{
  ℕ, ◌+◌, ◌*◌, ◌^◌, ◌≤◌, ◌<◌, ◌≡◌, ◌≢◌, refl, sym, Bytes, List, [], ◌∷◌, ◌++◌, length, replicate,
  Option, none, some, Result, ok, arith,
}
use soal.Content.{codes}
use soal.Codec.Cbor.{push_uint, expect_major_uint}
use soal.Codec.HeadWire.{
  HeadAnnouncement, encode_head_announcement, decode_head_announcement, head_sign_message,
}
use soal.Codec.HeadWire.RoundTrip.{IsWireHead, decode-encode_head_announcement}
use soal.Codec.HeadWire.Signed.{head_sign_message_injective}

abbrev ann : HeadAnnouncement
ann = record {
  protocol_version = 1;
  vault_id = replicate 16 1;
  vault_name = codes "v";
  head = replicate 32 2;
  timestamp = 1000;
  node_id = replicate 32 3;
  seq = 4;
  config_seq = 1;
  signature = replicate 64 5;
}

abbrev unnamed : HeadAnnouncement
unnamed = record ann { vault_name = []; signature = replicate 64 6 }

abbrev ann_message : Bytes
ann_message =
    (169 ∷ 1 ∷ 1 ∷ 2 ∷ 80 ∷ replicate 16 1)
    ++ ((3 ∷ 97 ∷ 118 ∷ 4 ∷ 88 ∷ 32 ∷ replicate 32 2)
        ++ ((5 ∷ 25 ∷ 3 ∷ 232 ∷ 6 ∷ 88 ∷ 32 ∷ replicate 32 3)
            ++ (7 ∷ 4 ∷ 8 ∷ 1 ∷ 9 ∷ 88 ∷ 64 ∷ replicate 64 5)))

ann-IsWireHead : IsWireHead ann
unfolding soal.Codec.Utf8.is_utf8
ann-IsWireHead = record {
  protocol_version = omega arith;
  vault_id = refl;
  name = omega arith;
  utf8 = refl;
  head = refl;
  timestamp = omega arith;
  node_id = refl;
  seq = omega arith;
  config_seq = omega arith;
  signature = refl;
}

unnamed-IsWireHead : IsWireHead unnamed
unfolding soal.Codec.Utf8.is_utf8
unnamed-IsWireHead = record {
  protocol_version = omega arith;
  vault_id = refl;
  name = omega arith;
  utf8 = refl;
  head = refl;
  timestamp = omega arith;
  node_id = refl;
  seq = omega arith;
  config_seq = omega arith;
  signature = refl;
}

ann_encodes : encode_head_announcement ann ≡ ok ann_message
unfolding encode_head_announcement soal.Codec.HeadWire.write_head soal.Codec.Cbor.write_u64
    soal.Codec.Cbor.write_bstr soal.Codec.Cbor.write_tstr soal.Codec.Cbor.write_map_header push_uint
    soal.Codec.Cbor.initial_byte soal.Base.be_bytes
ann_encodes = refl

same_message : head_sign_message ann ≡ head_sign_message unnamed
unfolding head_sign_message soal.Codec.HeadWire.encode_head_sign_body
same_message = refl

decode-encode_head_announcement_example : decode_head_announcement ann_message ≡ ok ann
decode-encode_head_announcement_example =
    decode-encode_head_announcement ann ann_message ann-IsWireHead ann_encodes

head_sign_message_injective_example :
    (ann.protocol_version ≡ unnamed.protocol_version)
    × (ann.vault_id ≡ unnamed.vault_id)
    × (ann.head ≡ unnamed.head)
    × (ann.timestamp ≡ unnamed.timestamp)
    × (ann.node_id ≡ unnamed.node_id)
    × (ann.seq ≡ unnamed.seq)
    × (ann.config_seq ≡ unnamed.config_seq)
head_sign_message_injective_example =
    head_sign_message_injective ann unnamed ann-IsWireHead unnamed-IsWireHead same_message

abbrev cursor : soal.Codec.Cbor.Cursor
cursor = record { bytes = 1 ∷ 2 ∷ 3 ∷ []; pos = 1 }

take_n_lem_example :
    (1 + 2 ≤ 3
      → soal.Codec.Cbor.take_n 2 cursor
        ≡ ok (soal.Base.take 2 (soal.Base.drop 1 cursor.bytes), record cursor { pos = 1 + 2 }))
    × (3 < 1 + 2
        → 1 + 2 < 2 ^ 64
        → soal.Codec.Cbor.take_n 2 cursor
          ≡ soal.Base.err (soal.Base.SoalError.verify (soal.Base.Message.text "CBOR truncated")))
    × (2 ^ 64 ≤ 1 + 2 → soal.Codec.Cbor.take_n 2 cursor ≡ soal.Base.panic)
take_n_lem_example = take_n_lem 2 cursor (omega arith) (omega arith) (omega arith)
