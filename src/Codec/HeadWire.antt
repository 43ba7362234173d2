-- ===== src/Codec/HeadWire.antt =====
-- src/codec.rs, lines 596 to 811: head announcements, their gossip form and the form that is signed.
pub mod RoundTrip
pub mod Signed
use soal.Base.{
  ℕ, zero, suc, ◌*◌, ◌^◌, Bool, not, Bytes, List, [], ◌∷◌, ◌++◌, String, ltb, leb, ◌==◌,
  if◌then◌else◌, length, replicate, Option, none, some, Result, ok, err, panic, SoalError, Message,
  reject,
}
use soal.Base
use soal.Content.{ContentHash, Blake3, bytes_eq, codes}
use soal.Codec.Frame.{domain_head, frame}
use soal.Codec.Cbor.{
  Cursor, Cursor_new, Reader, ◌>>=◌, ◌>>◌, pure, lift, fail, ◌▷◌, write_u64, write_bstr, write_tstr,
  write_map_header, read_tstr, read_u64_value, read_map_header, finish,
}
use soal.Codec.Fields.{ok_or, verify, read_fixed, key_order, repeat}

abbrev pub max_message_bytes : ℕ
max_message_bytes = 64 * 1024

abbrev pub vault_id_len : ℕ
vault_id_len = 16

pub record HeadAnnouncement : Type 0 where
  pub protocol_version : ℕ
  pub vault_id : Bytes
  pub vault_name : Bytes
  pub head : ContentHash
  pub timestamp : ℕ
  pub node_id : Bytes
  pub seq : ℕ
  pub config_seq : ℕ
  pub signature : Bytes

abbrev pub no_signature : Bytes
no_signature = replicate 64 0

unfoldable pub is_signed : HeadAnnouncement → Bool
is_signed ann = not (bytes_eq ann.signature no_signature)

unfoldable pub vault_topic_hash : Blake3 → Bytes → ContentHash
vault_topic_hash blake3 vault_id = blake3.hash (codes "soal/v1/vault/" ++ vault_id)

-- The header counts six pairs, and seven follow.
unfoldable pub encode_head_sign_body : HeadAnnouncement → Result Bytes
encode_head_sign_body ann = ok (
    []
    ▷ write_map_header 6
    ▷ write_u64 1
    ▷ write_u64 ann.protocol_version
    ▷ write_u64 2
    ▷ write_bstr ann.vault_id
    ▷ write_u64 4
    ▷ write_bstr ann.head
    ▷ write_u64 5
    ▷ write_u64 ann.timestamp
    ▷ write_u64 6
    ▷ write_bstr ann.node_id
    ▷ write_u64 7
    ▷ write_u64 ann.seq
    ▷ write_u64 8
    ▷ write_u64 ann.config_seq)

unfoldable pub head_sign_message : HeadAnnouncement → Result Bytes
head_sign_message ann = Base.◌>>=◌ (encode_head_sign_body ann) λ body. ok (frame domain_head body)

unfoldable pub write_head : HeadAnnouncement → Bytes → Bytes
write_head ann buf =
    buf
    ▷ write_map_header 9
    ▷ write_u64 1
    ▷ write_u64 ann.protocol_version
    ▷ write_u64 2
    ▷ write_bstr ann.vault_id
    ▷ write_u64 3
    ▷ write_tstr ann.vault_name
    ▷ write_u64 4
    ▷ write_bstr ann.head
    ▷ write_u64 5
    ▷ write_u64 ann.timestamp
    ▷ write_u64 6
    ▷ write_bstr ann.node_id
    ▷ write_u64 7
    ▷ write_u64 ann.seq
    ▷ write_u64 8
    ▷ write_u64 ann.config_seq
    ▷ write_u64 9
    ▷ write_bstr ann.signature

unfoldable pub encode_head_announcement : HeadAnnouncement → Result Bytes
encode_head_announcement ann =
    Base.◌>>◌ (reject (ltb 1024 (length ann.vault_name)) (verify "vault_name too long")) (
      let buf = write_head ann [] in
      Base.◌>>◌
        (reject (ltb max_message_bytes (length buf))
          (verify "head announcement exceeds MAX_MESSAGE_BYTES"))
        (ok buf))

-- The variables of the loop of `decode_head_announcement`.
pub record HeadFields : Type 0 where
  pub protocol_version : Option ℕ
  pub vault_id : Option Bytes
  pub vault_name : Option Bytes
  pub head : Option ContentHash
  pub timestamp : Option ℕ
  pub node_id : Option Bytes
  pub seq : Option ℕ
  pub config_seq : Option ℕ
  pub signature : Option Bytes
  pub last_k : Option ℕ

abbrev pub no_fields : HeadFields
no_fields = record {
  protocol_version = none;
  vault_id = none;
  vault_name = none;
  head = none;
  timestamp = none;
  node_id = none;
  seq = none;
  config_seq = none;
  signature = none;
  last_k = none;
}

unfoldable pub head_field : ℕ → HeadFields → Reader HeadFields
head_field k f =
    if k == 1
    then (do v ← read_u64_value; pure (record f { protocol_version = some v }))
    else if k == 2
    then (do
      b ← read_fixed vault_id_len "vault_id must be 16 bytes"
      pure (record f { vault_id = some b }))
    else if k == 3
    then (do s ← read_tstr; pure (record f { vault_name = some s }))
    else if k == 4
    then (do b ← read_fixed 32 "head CID must be 32 bytes"; pure (record f { head = some b }))
    else if k == 5
    then (do v ← read_u64_value; pure (record f { timestamp = some v }))
    else if k == 6
    then (do b ← read_fixed 32 "node_id must be 32 bytes"; pure (record f { node_id = some b }))
    else if k == 7
    then (do v ← read_u64_value; pure (record f { seq = some v }))
    else if k == 8
    then (do v ← read_u64_value; pure (record f { config_seq = some v }))
    else if k == 9
    then (do b ← read_fixed 64 "signature must be 64 bytes"; pure (record f { signature = some b }))
    else fail (Message.numbers "unknown HeadAnnBody key {other}" (k ∷ []))

unfoldable pub head_round : HeadFields → Reader HeadFields
head_round f = do
  k ← read_u64_value
  lift (key_order "HeadAnnBody keys not sorted" f.last_k k)
  head_field k (record f { last_k = some k })

unfoldable pub head_of : HeadFields → Result HeadAnnouncement
head_of f = Base.◌>>=◌ (ok_or f.protocol_version "missing protocol_version") λ protocol_version.
    Base.◌>>=◌ (ok_or f.vault_id "missing vault_id") λ vault_id.
      Base.◌>>=◌ (ok_or f.vault_name "missing vault_name") λ vault_name.
        Base.◌>>=◌ (ok_or f.head "missing head") λ head.
          Base.◌>>=◌ (ok_or f.timestamp "missing timestamp") λ timestamp.
            Base.◌>>=◌ (ok_or f.node_id "missing node_id") λ node_id.
              Base.◌>>=◌ (ok_or f.seq "missing seq") λ seq.
                Base.◌>>=◌ (ok_or f.config_seq "missing config_seq") λ config_seq.
                  Base.◌>>=◌ (ok_or f.signature "missing signature") λ signature. ok (record {
                    protocol_version = protocol_version;
                    vault_id = vault_id;
                    vault_name = vault_name;
                    head = head;
                    timestamp = timestamp;
                    node_id = node_id;
                    seq = seq;
                    config_seq = config_seq;
                    signature = signature;
                  })

unfoldable pub head_body : Reader HeadAnnouncement
head_body = do
  n ← read_map_header
  lift (
      reject (not (n == 9))
        (SoalError.verify (Message.numbers "HeadAnnBody must have 9 keys, got {n}" (n ∷ []))))
  f ← repeat head_round n no_fields
  finish
  lift (head_of f)

unfoldable pub decode_head_announcement : Bytes → Result HeadAnnouncement
decode_head_announcement bytes =
    Base.◌>>◌ (reject (ltb max_message_bytes (length bytes)) (verify "head announcement too large"))
      (Base.◌>>=◌ (head_body (Cursor_new bytes)) λ (ann, _). ok ann)
