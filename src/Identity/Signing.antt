-- ===== src/Identity/Signing.antt =====
-- Signing and verifying in src/identity.rs, and the clocks of peers.
use soal.Base.{
  ok_injective, ℕ, ◌+◌, ◌≤◌, ◌≡◌, ◌↔◌, refl, sym, ap, ◌∙◌, Bool, true, false, Bytes, if◌then◌else◌,
  Option, some, Result, ok, arith, >>=-ok,
}
use soal.Content.{ContentHash, Blake3, bytes_eq}
use soal.Content.Hex.{HexCrate}
use soal.Commit.{Commit, signature_bytes, protocol_version_1}
use soal.Codec.CommitWire.{
  author_to_bytes, commit_sign_message, encode_commit_sign_body, write_signed_fields,
}
use soal.Codec.CommitWire.Form.{signature_of_digits}
use soal.Codec.HeadWire.{HeadAnnouncement, is_signed, head_sign_message, encode_head_sign_body}
use soal.Identity.{
  Keys, abs_diff, check_head_skew, sign_head_announcement, verify_head_announcement, sign_commit,
  verify_signed, verify_commit_signature,
}

-- check_head_skew accepts an announcement exactly if its timestamp is at most 300 seconds before or
-- after the local time.
pub check_head_skew_iff :
    (ann : HeadAnnouncement) (now : ℕ)
    → (check_head_skew ann now ≡ ok tt)
      ↔ ((ann.timestamp ≤ now + 300) × (now ≤ ann.timestamp + 300))
unfolding check_head_skew abs_diff
check_head_skew_iff ann now = ground arith

-- The signature is no part of what is signed.
message_without_signature :
    (ann : HeadAnnouncement) (sig : Bytes)
    → head_sign_message (record ann { signature = sig }) ≡ head_sign_message ann
unfolding head_sign_message encode_head_sign_body
message_without_signature ann sig = refl

commit_message_without_signature :
    (hex : HexCrate) (blake3 : Blake3) (c : Commit) (sig : Option Bytes)
    → commit_sign_message hex blake3 (record c { signature = sig })
      ≡ commit_sign_message hex blake3 c
unfolding commit_sign_message encode_commit_sign_body write_signed_fields
commit_message_without_signature hex blake3 c sig = refl

module _ (keys : Keys) where
  verify_of_fields :
      (sk : keys.SecretKey) (ann : HeadAnnouncement) (msg : Bytes)
      → ann.protocol_version ≡ protocol_version_1
      → ann.node_id ≡ keys.public sk
      → head_sign_message ann ≡ ok msg
      → ann.signature ≡ keys.sign sk msg
      → is_signed ann ≡ true
      → verify_head_announcement keys ann ≡ ok tt
  unfolding verify_head_announcement
  verify_of_fields sk ann msg v n e g s =
      rw (e, s, g, v, n, keys.is_key-public sk, keys.verify-sign sk msg) refl

  -- An announcement that sign_head_announcement returns, and whose signature is not all zeros,
  -- passes verify_head_announcement.
  pub verify-sign_head_announcement :
      (sk : keys.SecretKey) (vault_id vault_name : Bytes) (head : ContentHash)
      (seq config_seq now : ℕ) (ann : HeadAnnouncement)
      → sign_head_announcement keys sk vault_id vault_name head seq config_seq now ≡ ok ann
      → is_signed ann ≡ true
      → verify_head_announcement keys ann ≡ ok tt
  unfolding sign_head_announcement
  verify-sign_head_announcement sk vault_id vault_name head seq config_seq now ann e s =
      let (msg, p, q) = >>=-ok (head_sign_message _) _ e in
      let same = ok_injective q in
      verify_of_fields sk ann msg (sym (ap (λ (a : HeadAnnouncement). a.protocol_version) same))
        (sym (ap (λ (a : HeadAnnouncement). a.node_id) same))
        (ap head_sign_message (sym same) ∙ message_without_signature _ (keys.sign sk msg) ∙ p)
        (sym (ap (λ (a : HeadAnnouncement). a.signature) same)) s

  module _ (hex : HexCrate) (blake3 : Blake3) where
    verify_signed_of :
        (sk : keys.SecretKey) (c : Commit) (msg sig : Bytes)
        → author_to_bytes hex blake3 c.author ≡ keys.public sk
        → commit_sign_message hex blake3 c ≡ ok msg
        → sig ≡ keys.sign sk msg
        → verify_signed keys hex blake3 c sig ≡ ok tt
    unfolding verify_signed
    verify_signed_of sk c msg sig a e g =
        rw (a, e, g, keys.is_key-public sk, keys.verify-sign sk msg) refl

    -- Where the displayed public key reads back as the key, a commit that sign_commit returns
    -- passes verify_commit_signature.
    pub verify-sign_commit :
        (sk : keys.SecretKey) (c signed : Commit)
        → author_to_bytes hex blake3 (keys.to_string (keys.public sk)) ≡ keys.public sk
        → sign_commit keys hex blake3 sk c ≡ ok signed
        → verify_commit_signature keys hex blake3 signed ≡ ok tt
    unfolding sign_commit verify_commit_signature signature_bytes
    verify-sign_commit sk c signed a e =
        let (msg, p, q) = >>=-ok (commit_sign_message hex blake3 _) _ e in
        let same = ok_injective q in
        let sig : signature_bytes hex signed ≡ keys.sign sk msg =
          ap (signature_bytes hex) (sym same)
          ∙ signature_of_digits hex blake3 (keys.sign sk msg) (keys.sign-IsArray sk msg) in
        let verified : verify_signed keys hex blake3 signed (signature_bytes hex signed) ≡ ok tt =
          verify_signed_of sk signed msg (signature_bytes hex signed)
            (ap (λ (x : Commit). author_to_bytes hex blake3 x.author) (sym same) ∙ a)
            (ap (commit_sign_message hex blake3) (sym same)
              ∙ commit_message_without_signature hex blake3 _ (some (hex.encode (keys.sign sk msg)))
              ∙ p)
            sig in
        either (bytes_eq (signature_bytes hex signed) soal.Commit.no_signature) verified
      where
        either : (b : Bool) {r : Result (Unit {0})} → r ≡ ok tt → (if b then ok tt else r) ≡ ok tt
        either true e = refl
        either false e = e
