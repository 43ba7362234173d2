-- ===== src/Invite/Issued.antt =====
-- Invites that src/invite.rs issues, when they are verified.
use soal.Base.{
  ok_injective, ℕ, ◌≤◌, ◌≡◌, refl, sym, ◌∙◌, ap, subst, false, Bytes, [], ◌∷◌, le→ltb_false, length,
  Option, some, ok, arith, >>=-ok,
}
use soal.Content.{IsArray}
use soal.Content.Hex.{HexCrate, trim_id}
use soal.Commit.{protocol_version_1}
use soal.Paths.{is_empty}
use soal.Crypto.{Aead}
use soal.Identity.{Keys}
use soal.Invite.{
  Invite, InviteRole, InvitingVault, is_expired, invite_sign_preimage, generate_invite,
  verify_invite, seal_for, saturating_add, or_ttl,
}

pub not_empty : (s : Bytes) → length s ≡ 128 → is_empty s ≡ false
unfolding is_empty
not_empty [] h = absurd (omega (arith, h))
not_empty (b ∷ s) h = refl

module _ (hex : HexCrate) (body : Invite → Bytes) where
  -- The signature is no part of what is signed.
  preimage_without_signature :
      (inv : Invite) (s : Bytes)
      → invite_sign_preimage hex body (record inv { signature_hex = s })
        ≡ invite_sign_preimage hex body inv
  unfolding invite_sign_preimage
  preimage_without_signature inv s = refl

  module _ (keys : Keys) (parse_key : Bytes → Option Bytes) where
    accepts :
        (sk : keys.SecretKey) (inv : Invite) (msg : Bytes) (now : ℕ)
        → inv.protocol_version ≡ protocol_version_1
        → now ≤ inv.expires_at
        → inv.signature_hex ≡ hex.encode (keys.sign sk msg)
        → invite_sign_preimage hex body inv ≡ msg
        → parse_key inv.issuer ≡ some (keys.public sk)
        → verify_invite hex body keys parse_key inv now ≡ ok tt
    unfolding verify_invite is_expired
    accepts sk inv msg now v t s e k =
        let a : IsArray 64 (keys.sign sk msg) = keys.sign-IsArray sk msg in
        let sig = hex.encode (keys.sign sk msg) in
        rw
          (
            e,
            k,
            le→ltb_false inv.expires_at now t,
            v,
            s,
            not_empty sig (omega (arith, hex.length-encode (keys.sign sk msg), a.size)),
            trim_id sig (hex.encode_digits (keys.sign sk msg)),
            hex.decode-encode (keys.sign sk msg) a.bytes,
            a.size,
            keys.verify-sign sk msg,
          )
          refl

    -- Where the displayed public key of the issuer parses as that key, an invite that
    -- generate_invite returns passes verify_invite at any time up to its expiry.
    pub verify-generate_invite :
        (aead : Aead) (vault : InvitingVault) (sk : keys.SecretKey) (role : InviteRole)
        (ttl : Option ℕ) (now : ℕ) (secret nonce : Bytes) (inv : Invite) (later : ℕ)
        → parse_key (keys.to_string (keys.public sk)) ≡ some (keys.public sk)
        → generate_invite hex body keys parse_key aead vault sk role ttl now secret nonce ≡ ok inv
        → later ≤ saturating_add now (or_ttl ttl)
        → verify_invite hex body keys parse_key inv later ≡ ok tt
    unfolding generate_invite
    verify-generate_invite aead vault sk role ttl now secret nonce inv later k e t =
        let (sealed, _, f) =
          >>=-ok (seal_for hex body keys parse_key aead vault secret nonce) _ e in
        let same = ok_injective f in
        accepts sk inv _ later (sym (ap (λ (i : Invite). i.protocol_version) same))
          (subst (λ n. later ≤ n) (ap (λ (i : Invite). i.expires_at) same) t)
          (sym (ap (λ (i : Invite). i.signature_hex) same))
          (ap (invite_sign_preimage hex body) (sym same) ∙ preimage_without_signature _ _)
          (ap (λ (i : Invite). parse_key i.issuer) (sym same) ∙ k)
