-- ===== src/Examples/Seals.antt =====
-- Sealed keys, encrypted chunks and invites at concrete values, with a cipher that only adds a tag.
use soal.Base.{
  ◌+◌, ◌-◌, ◌≡◌, refl, sym, ◌∙◌, ap, subst, true, Bytes, [], ◌∷◌, ◌++◌, length, take, length-append,
  take-length_append, replicate, Option, some, ok, arith,
}
use soal.Content.{codes}
use soal.Examples.Crates.{hex}
use soal.Examples.Signatures.{keys, key}
use soal.Crypto.{Aead, wrap_key}
use soal.Invite.{Invite, InvitingVault, InviteRole, generate_invite, verify_invite}
use soal.Invite.Issued.{verify-generate_invite}

abbrev pub tag : Bytes
tag = replicate 16 0

pub untag : Bytes → Bytes
untag ct = take (length ct - 16) ct

untag-tag : (msg : Bytes) → untag (msg ++ tag) ≡ msg
unfolding untag
untag-tag msg =
    let n : length (msg ++ tag) - 16 ≡ length msg = omega (arith, length-append msg tag) in
    subst (λ k. take k (msg ++ tag) ≡ msg) (sym n) (take-length_append msg tag)

some_injective : {x y : Bytes} → some x ≡ some y → x ≡ y
some_injective e = cc

pub opens_tagged : (msg ct : Bytes) → some (msg ++ tag) ≡ some ct → some (untag ct) ≡ some msg
opens_tagged msg ct e = ap some (ap untag (sym (some_injective e)) ∙ untag-tag msg)

pub length_tagged : (msg ct : Bytes) → some (msg ++ tag) ≡ some ct → length ct ≡ length msg + 16
length_tagged msg ct e = sym (ap length (some_injective e)) ∙ length-append msg tag

abbrev pub aead : Aead
aead = record {
  seal = λ k n a msg. some (msg ++ tag);
  open_sealed = λ k n a ct. some (untag ct);
  open-seal = λ k n a msg ct e. opens_tagged msg ct e;
  length-seal = λ k n a msg ct e. length_tagged msg ct e;
}

abbrev nonce : Bytes
nonce = replicate 24 3

abbrev vault : InvitingVault
vault = record {
  name = codes "v";
  vault_id = hex.encode (replicate 16 1);
  encryption_enabled = true;
  min_replicas = 2;
  config_seq = 1;
  members = [];
  key = some key;
}

abbrev body : Invite → Bytes
body inv = inv.vault_name

-- The one key of these runs has one text.
abbrev parse_key : Bytes → Option Bytes
parse_key s = some key

abbrev invite : Invite
invite = record {
  protocol_version = 1;
  vault_id_hex = hex.encode (replicate 16 1);
  vault_name = codes "v";
  encryption_enabled = true;
  min_replicas = 2;
  config_seq = 1;
  members = hex.encode key ∷ [];
  role = InviteRole.read;
  issuer = hex.encode key;
  created_at = 1000;
  expires_at = 1060;
  invite_secret_hex = hex.encode (replicate 32 1);
  sealed_key_hex = hex.encode (nonce ++ (key ++ tag));
  signature_hex = hex.encode (replicate 64 1);
}

issues :
    generate_invite hex body keys parse_key aead vault tt InviteRole.read
      (some 60)
      1000
      (replicate 32 1)
      nonce
    ≡ ok invite
unfolding generate_invite soal.Invite.seal_for wrap_key soal.Invite.with_issuer
    soal.Invite.lists_member soal.Invite.saturating_add
issues = refl

verify-generate_invite_example : verify_invite hex body keys parse_key invite 1060 ≡ ok tt
unfolding soal.Invite.saturating_add
verify-generate_invite_example =
    verify-generate_invite hex body keys parse_key aead vault tt InviteRole.read (some 60) 1000
      (replicate 32 1) nonce invite 1060 refl issues (omega arith)
