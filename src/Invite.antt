-- ===== src/Invite.antt =====
-- src/invite.rs, lines 22 to 212: signed invites to a vault.
pub mod Issued
use soal.Base.{
  ℕ, ◌+◌, ◌-◌, ◌*◌, ◌^◌, min, Bool, true, false, not, ◌&&◌, ◌||◌, Bytes, List, [], ◌∷◌, ◌++◌, map,
  ltb, leb, ◌==◌, if◌then◌else◌, length, all, Option, none, some, Result, ok, err, SoalError,
  Message, reject, ◌>>=◌, ◌>>◌,
}
use soal.Content.{codes, bytes_eq}
use soal.Content.Text.{trim}
use soal.Content.Hex.{HexCrate, is_ascii_hexdigit}
use soal.Commit.{protocol_version_1}
use soal.Codec.Fields.{verify}
use soal.Codec.Frame.{domain_invite, frame}
use soal.Codec.HeadWire.{vault_id_len}
use soal.Crypto.{Aead, wrap_key}
use soal.Identity.{Keys}
use soal.Paths.{is_empty}

pub data InviteRole : Type 0 where
  read write : InviteRole

unfoldable pub as_str : InviteRole → Bytes
as_str read = codes "read"
as_str write = codes "write"

-- `s.to_ascii_lowercase()`
unfoldable pub to_ascii_lowercase : Bytes → Bytes
to_ascii_lowercase s = map (λ b. if leb b'A' b && leb b b'Z' then b + 32 else b) s

unfoldable pub parse_role : Bytes → Result InviteRole
parse_role s =
    let r = to_ascii_lowercase (trim s) in
    if bytes_eq r (codes "read") || bytes_eq r (codes "r")
    then ok read
    else if bytes_eq r (codes "write") || (bytes_eq r (codes "w") || bytes_eq r (codes "rw"))
    then ok write
    else err (SoalError.other (Message.about "unknown invite role: {other}" r))

pub record Invite : Type 0 where
  pub protocol_version : ℕ
  pub vault_id_hex : Bytes
  pub vault_name : Bytes
  pub encryption_enabled : Bool
  pub min_replicas : ℕ
  pub config_seq : ℕ
  pub members : List Bytes
  pub role : InviteRole
  pub issuer : Bytes
  pub created_at : ℕ
  pub expires_at : ℕ
  pub invite_secret_hex : Bytes
  pub sealed_key_hex : Bytes
  pub signature_hex : Bytes

-- The fields of `Vault`, and of its config, that an invite reads.
pub record InvitingVault : Type 0 where
  pub name : Bytes
  pub vault_id : Bytes
  pub encryption_enabled : Bool
  pub min_replicas : ℕ
  pub config_seq : ℕ
  pub members : List Bytes
  pub key : Option Bytes

unfoldable pub id_of_hex : Option Bytes → Result Bytes
id_of_hex none = err (SoalError.other (Message.text "invalid vault_id hex"))
id_of_hex (some bytes) = ok bytes

-- src/codec.rs; two digits for each byte, so the copy into the array is in range.
unfoldable pub vault_id_from_hex : HexCrate → Bytes → Result Bytes
vault_id_from_hex hex text = do
  let s = trim text
  reject (not (length s == vault_id_len * 2) || not (all is_ascii_hexdigit s))
      (SoalError.other (Message.text "vault_id must be 32 hex chars"))
  id_of_hex (hex.decode s)

unfoldable pub vault_id_bytes : HexCrate → Invite → Result Bytes
vault_id_bytes hex inv = vault_id_from_hex hex inv.vault_id_hex

unfoldable pub is_expired : Invite → ℕ → Bool
is_expired inv now = ltb inv.expires_at now

abbrev pub default_ttl_secs : ℕ
default_ttl_secs = 7 * 24 * 3600

-- `now.saturating_add(ttl)`
unfoldable pub saturating_add : ℕ → ℕ → ℕ
saturating_add a b = min (a + b) (2 ^ 64 - 1)

abbrev pub or_ttl : Option ℕ → ℕ
or_ttl none = default_ttl_secs
or_ttl (some ttl) = ttl

-- `a.eq_ignore_ascii_case(b)` for some member `a`.
unfoldable pub lists_member : Bytes → List Bytes → Bool
lists_member m [] = false
lists_member m (a ∷ rest) =
    bytes_eq (to_ascii_lowercase a) (to_ascii_lowercase m) || lists_member m rest

unfoldable pub with_issuer : Bytes → List Bytes → List Bytes
with_issuer issuer members = if lists_member issuer members then members else members ++ issuer ∷ []

abbrev pub key_loaded : Option Bytes → Result Bytes
key_loaded none = err (SoalError.other (Message.text "encrypted vault has no key loaded"))
key_loaded (some key) = ok key

-- `body` is the JSON text of all fields but the signature, in the order of their keys.
module _ (hex : HexCrate) (body : Invite → Bytes) where
  unfoldable pub invite_sign_preimage : Invite → Bytes
  invite_sign_preimage inv = frame domain_invite (body (record inv { signature_hex = [] }))

  -- `parse_key` is `str::parse::<PublicKey>`.
  module _ (keys : Keys) (parse_key : Bytes → Option Bytes) where
    unfoldable pub seal_for : Aead → InvitingVault → Bytes → Bytes → Result Bytes
    seal_for aead vault secret nonce =
        if vault.encryption_enabled
        then (do
          key ← key_loaded vault.key
          sealed ← wrap_key aead key secret (codes "soal/invite/key/v1") nonce
          ok (hex.encode sealed))
        else ok []

    -- `now`, `secret` and `nonce` come from the clock and the random source.
    unfoldable pub generate_invite :
        Aead
        → InvitingVault
        → keys.SecretKey
        → InviteRole
        → Option ℕ
        → ℕ
        → Bytes
        → Bytes
        → Result Invite
    generate_invite aead vault sk role ttl_secs now secret nonce = do
      sealed_key_hex ← seal_for aead vault secret nonce
      let inv : Invite = record {
        protocol_version = protocol_version_1;
        vault_id_hex = vault.vault_id;
        vault_name = vault.name;
        encryption_enabled = vault.encryption_enabled;
        min_replicas = vault.min_replicas;
        config_seq = vault.config_seq;
        members = with_issuer (keys.to_string (keys.public sk)) vault.members;
        role = role;
        issuer = keys.to_string (keys.public sk);
        created_at = now;
        expires_at = saturating_add now (or_ttl ttl_secs);
        invite_secret_hex = hex.encode secret;
        sealed_key_hex = sealed_key_hex;
        signature_hex = [];
      }
      ok (record inv { signature_hex = hex.encode (keys.sign sk (invite_sign_preimage inv)) })

    abbrev pub or_verify : Option Bytes → Message → Result Bytes
    or_verify none m = err (SoalError.verify m)
    or_verify (some b) m = ok b

    -- `now` is the time given, or that of the clock.
    unfoldable pub verify_invite : Invite → ℕ → Result (Unit {0})
    verify_invite inv now = do
      reject (not (inv.protocol_version == protocol_version_1)) (
          SoalError.verify
            (Message.numbers "unsupported invite protocol_version {}" (inv.protocol_version ∷ [])))
      reject (is_expired inv now) (verify "invite expired")
      reject (is_empty inv.signature_hex) (verify "invite unsigned")
      sig_bytes ←
          or_verify (hex.decode (trim inv.signature_hex)) (Message.text "bad invite signature hex")
      reject (not (length sig_bytes == 64)) (verify "invite signature must be 64 bytes")
      pk ← or_verify (parse_key inv.issuer) (Message.text "bad invite issuer")
      reject (not (keys.verify pk (invite_sign_preimage inv) sig_bytes))
          (verify "invite signature invalid")
