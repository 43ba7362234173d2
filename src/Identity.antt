-- ===== src/Identity.antt =====
-- src/identity.rs, lines 47 to 135: signing and verifying commits and head announcements.
pub mod Signing
use soal.Base.{
  ℕ, ◌+◌, ◌-◌, ◌<◌, ◌≡◌, Bool, true, false, not, Bytes, List, [], ◌∷◌, ltb, ◌==◌, if◌then◌else◌,
  Option, none, some, Result, ok, err, panic, SoalError, Message, reject, ◌>>=◌, ◌>>◌,
}
use soal.Content.{ContentHash, Blake3, IsArray, bytes_eq}
use soal.Content.Hex.{HexCrate}
use soal.Commit.{Commit, protocol_version_1, signature_bytes}
use soal.Codec.Fields.{verify}
use soal.Codec.CommitWire.{author_to_bytes, commit_sign_message}
use soal.Codec.HeadWire.{HeadAnnouncement, is_signed, head_sign_message}

-- The keys of the crate iroh: `is_key` says whether `PublicKey::from_bytes` takes the bytes, and
-- `to_string` is how a public key is displayed.
pub record Keys : Type 1 where
  pub SecretKey : Type 0
  pub public : SecretKey → Bytes
  pub to_string : Bytes → Bytes
  pub sign : SecretKey → Bytes → Bytes
  pub is_key : Bytes → Bool
  pub verify : Bytes → Bytes → Bytes → Bool
  pub is_key-public : (sk : SecretKey) → is_key (public sk) ≡ true
  pub sign-IsArray : (sk : SecretKey) (msg : Bytes) → IsArray 64 (sign sk msg)
  pub verify-sign : (sk : SecretKey) (msg : Bytes) → verify (public sk) msg (sign sk msg) ≡ true

abbrev pub max_skew_secs : ℕ
max_skew_secs = 300

-- `now_secs.abs_diff(ann.timestamp)`
unfoldable pub abs_diff : ℕ → ℕ → ℕ
abs_diff a b = if ltb a b then b - a else a - b

unfoldable pub check_head_skew : HeadAnnouncement → ℕ → Result (Unit {0})
check_head_skew ann now_secs = reject (ltb max_skew_secs (abs_diff now_secs ann.timestamp)) (
    SoalError.verify (
      Message.numbers "head timestamp skew {skew}s exceeds MAX_SKEW_SECS"
        (abs_diff now_secs ann.timestamp ∷ [])))

module _ (keys : Keys) where
  unfoldable pub sign_head_announcement :
      keys.SecretKey → Bytes → Bytes → ContentHash → ℕ → ℕ → ℕ → Result HeadAnnouncement
  sign_head_announcement sk vault_id vault_name head seq config_seq timestamp =
      let ann : HeadAnnouncement = record {
        protocol_version = protocol_version_1;
        vault_id = vault_id;
        vault_name = vault_name;
        head = head;
        timestamp = timestamp;
        node_id = keys.public sk;
        seq = seq;
        config_seq = config_seq;
        signature = soal.Codec.HeadWire.no_signature;
      } in
      do msg ← head_sign_message ann; ok (record ann { signature = keys.sign sk msg })

  unfoldable pub verify_head_announcement : HeadAnnouncement → Result (Unit {0})
  verify_head_announcement ann = do
    reject (not (is_signed ann)) (verify "head announcement unsigned")
    reject (not (ann.protocol_version == protocol_version_1)) (
        SoalError.verify
          (Message.numbers "unsupported head protocol_version {}" (ann.protocol_version ∷ [])))
    reject (not (keys.is_key ann.node_id)) (verify "bad node_id pubkey")
    msg ← head_sign_message ann
    reject (not (keys.verify ann.node_id msg ann.signature))
        (verify "head announcement signature invalid")

  module _ (hex : HexCrate) (blake3 : Blake3) where
    unfoldable pub sign_commit : keys.SecretKey → Commit → Result Commit
    sign_commit sk commit =
        let c : Commit = record commit {
          author = keys.to_string (keys.public sk);
          protocol_version = protocol_version_1;
          signature = none;
        } in
        do
          msg ← commit_sign_message hex blake3 c
          ok (record c { signature = some (hex.encode (keys.sign sk msg)) })

    unfoldable pub verify_signed : Commit → Bytes → Result (Unit {0})
    verify_signed commit sig_bytes =
        let pk_bytes = author_to_bytes hex blake3 commit.author in
        do
          reject (not (keys.is_key pk_bytes)) (verify "bad author pubkey")
          msg ← commit_sign_message hex blake3 commit
          reject (not (keys.verify pk_bytes msg sig_bytes)) (verify "commit signature invalid")

    unfoldable pub verify_commit_signature : Commit → Result (Unit {0})
    verify_commit_signature commit =
        let sig_bytes = signature_bytes hex commit in
        if bytes_eq sig_bytes soal.Commit.no_signature
        then ok tt
        else verify_signed commit sig_bytes
