-- ===== src/Examples/Signatures.antt =====
-- Signatures at concrete values, with one key whose signatures are constant.
use soal.Base.{◌+◌, ◌≤◌, ◌<◌, ◌≡◌, refl, ◌↔◌, Bytes, [], All, replicate, none, some, ok, arith}
use soal.Content.{codes, bytes_eq, IsArray}
use soal.Examples.Crates.{hex, blake3}
use soal.Commit.{Commit}
use soal.Codec.CommitWire.{author_to_bytes}
use soal.Codec.CommitWire.Form.{author_of_digits}
use soal.Codec.HeadWire.{HeadAnnouncement}
use soal.Identity.{Keys, check_head_skew, sign_commit}
use soal.Identity.Signing.{check_head_skew_iff}

abbrev pub signature : Bytes
signature = replicate 64 1

pub signature-IsArray : IsArray 64 signature
signature-IsArray = record { size = refl; bytes = bytes_small }
  where
    bytes_small : All (λ b. b < 256) signature
    bytes_small = omega arith

abbrev pub key : Bytes
key = replicate 32 7

abbrev pub keys : Keys
keys = record {
  SecretKey = Unit {0};
  public = λ sk. key;
  to_string = hex.encode;
  sign = λ sk msg. signature;
  is_key = λ b. bytes_eq b key;
  verify = λ pk msg sig. bytes_eq sig signature;
  is_key-public = λ sk. soal.Content.bytes_eq_refl key;
  sign-IsArray = λ sk msg. signature-IsArray;
  verify-sign = λ sk msg. soal.Content.bytes_eq_refl signature;
}

key-IsArray : IsArray 32 key
key-IsArray = record { size = refl; bytes = omega arith }

abbrev pub signed_head : HeadAnnouncement
signed_head = record {
  protocol_version = 1;
  vault_id = replicate 16 1;
  vault_name = codes "v";
  head = replicate 32 2;
  timestamp = 1000;
  node_id = key;
  seq = 4;
  config_seq = 1;
  signature = signature;
}

check_head_skew_iff_example :
    (check_head_skew signed_head 1200 ≡ ok tt) ↔ ((1000 ≤ 1200 + 300) × (1200 ≤ 1000 + 300))
check_head_skew_iff_example = check_head_skew_iff signed_head 1200

abbrev unsigned : Commit
unsigned = record {
  tree = replicate 32 1;
  parents = [];
  author = codes "soal-local";
  timestamp = 5;
  message = codes "hi";
  protocol_version = 0;
  signature = none;
}

abbrev signed : Commit
signed = record unsigned {
  author = hex.encode key;
  protocol_version = 1;
  signature = some (hex.encode signature);
}

author_is_key : author_to_bytes hex blake3 (hex.encode key) ≡ key
author_is_key = author_of_digits hex blake3 key key-IsArray

signs : sign_commit keys hex blake3 tt unsigned ≡ ok signed
unfolding sign_commit soal.Codec.CommitWire.commit_sign_message
    soal.Codec.CommitWire.encode_commit_sign_body
signs = refl
