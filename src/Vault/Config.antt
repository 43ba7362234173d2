-- ===== src/Vault/Config.antt =====
-- src/vault.rs, `set_min_replicas`, `add_member`, `remove_member`, `write_config` and the signing
-- of the config: the signed config of a vault and its members.
pub mod Signed
pub mod Members
use soal.Base.{
  ℕ, max, Bool, true, false, not, Bytes, List, [], ◌∷◌, ◌++◌, ◌==◌, length, if◌then◌else◌, Option,
  none, some, Result, ok, err, panic, SoalError, Message, reject,
}
use soal.Base
use soal.Content.{codes, bytes_eq}
use soal.Content.Text.{trim}
use soal.Codec.Fields.{verify}
use soal.Codec.Frame.{frame, domain_config}
use soal.Disk.{Disk, Io, write_file}
use soal.Invite.{saturating_add, to_ascii_lowercase, lists_member}
use soal.Paths.{is_empty}
use soal.Vault.{Crates, Vault, VaultConfig, SignedFields, Home}
use soal.Vault.Node.{load_secret_key, other}

abbrev pub config_file : Bytes
config_file = codes "vault.json"

-- `x.ok_or_else(|| SoalError::Verify(..))?`
abbrev or_verify {ℓ} : {A : Type ℓ} → Option A → Result A → Result A
or_verify none e = e
or_verify (some a) e = ok a

-- `members.retain(|m| !m.eq_ignore_ascii_case(node_id))`
unfoldable pub without_member : Bytes → List Bytes → List Bytes
without_member node_id [] = []
without_member node_id (m ∷ members) =
    let rest = without_member node_id members in
    if bytes_eq (to_ascii_lowercase m) (to_ascii_lowercase node_id) then rest else m ∷ rest

-- The map of `config_sign_preimage`.
unfoldable pub signed_fields : VaultConfig → SignedFields
signed_fields config = record {
  config_seq = config.config_seq;
  created_at = config.created_at;
  encryption_enabled = config.encryption_enabled;
  key_wrapped = config.key_wrapped;
  members = config.members;
  min_replicas = config.min_replicas;
  name = config.name;
  owner = config.owner;
  vault_id = config.vault_id;
}

-- A method on `&mut self`, with the vault that it leaves.
abbrev pub Method {ℓ} : Type ℓ → Type ℓ
Method A = Vault → Disk → Result A × Vault × Disk

unfoldable pub left_with {ℓ} : {A : Type ℓ} → Vault → Result A × Disk → Result A × Vault × Disk
left_with vault (r, d) = (r, vault, d)

-- `r?; Ok(a)`
unfoldable pub answered {ℓ κ} :
    {A : Type ℓ} {B : Type κ} → B → Result A × Vault × Disk → Result B × Vault × Disk
answered b (ok a, v, d) = (ok b, v, d)
answered b (err e, v, d) = (err e, v, d)
answered b (panic, v, d) = (panic, v, d)

unfoldable pub with_config : Vault → VaultConfig → Vault
with_config vault config = record vault { config = config }

module _ (crates : Crates) where
  open crates use {hex, keys, parse_key, config_json, config_body}

  unfoldable pub write_config : VaultConfig → Io (Unit {0})
  write_config config = write_file config_file (config_json.to_string config)

  unfoldable pub config_sign_preimage : VaultConfig → Bytes
  config_sign_preimage config = frame domain_config (config_body (signed_fields config))

  unfoldable pub sign_vault_config : keys.SecretKey → VaultConfig → VaultConfig
  sign_vault_config sk config =
      let owned : VaultConfig = record config { owner = some (keys.to_string (keys.public sk)) } in
      record owned { config_sig = some (hex.encode (keys.sign sk (config_sign_preimage owned))) }

  unfoldable pub verify_config_sig : VaultConfig → Bytes → Result (Unit {0})
  verify_config_sig config sig_hex =
      Base.◌>>=◌ (or_verify config.owner (err (verify "config signed but owner missing"))) λ owner.
        Base.◌>>=◌ (or_verify (parse_key owner) (err (verify "bad config owner"))) λ pk.
          Base.◌>>=◌ (or_verify (hex.decode (trim sig_hex)) (err (verify "bad config_sig hex")))
            λ sig_bytes.
              Base.◌>>◌
                (reject (not (length sig_bytes == 64)) (verify "config_sig must be 64 bytes"))
                (reject (not (keys.verify pk (config_sign_preimage config) sig_bytes))
                  (verify "vault config signature invalid"))

  unfoldable pub verify_unless_empty : VaultConfig → Bytes → Result (Unit {0})
  verify_unless_empty config sig_hex =
      if is_empty sig_hex then ok tt else verify_config_sig config sig_hex

  unfoldable pub verify_vault_config : VaultConfig → Result (Unit {0})
  verify_vault_config config = elim config.config_sig [
    | none ↦ ok tt
    | some sig_hex ↦ verify_unless_empty config sig_hex
  ]

  -- `if let Ok(sk) = identity::load_secret_key(home) { sign_vault_config(&sk, &mut self.config)?; }`
  unfoldable pub sign_config_if : Result keys.SecretKey → VaultConfig → VaultConfig
  sign_config_if (ok sk) config = sign_vault_config sk config
  sign_config_if _ config = config

  unfoldable pub sign_config_at : Option Home → VaultConfig → VaultConfig
  sign_config_at none config = config
  sign_config_at (some home) config = sign_config_if (load_secret_key crates home) config

  unfoldable pub bumped : Vault → VaultConfig
  bumped vault =
      let config = vault.config in
      sign_config_at vault.soal_home
        (record config { config_seq = saturating_add config.config_seq 1 })

  -- `write_config` behind a change of the config, which stands also where the write fails.
  unfoldable pub bump_and_sign_config : Method (Unit {0})
  bump_and_sign_config vault d =
      left_with (with_config vault (bumped vault)) (write_config (bumped vault) d)

  unfoldable pub set_min_replicas : ℕ → Method (Unit {0})
  set_min_replicas n vault =
      let config = vault.config in
      bump_and_sign_config (with_config vault (record config { min_replicas = max n 1 }))

  unfoldable pub add_new_member : Bytes → Method (Unit {0})
  add_new_member n vault =
      let config = vault.config in
      bump_and_sign_config
        (with_config vault (record config { members = config.members ++ n ∷ [] }))

  unfoldable pub add_member : Bytes → Method (Unit {0})
  add_member node_id vault d =
      let n = trim node_id in
      if is_empty n
      then (err (other "empty member id"), vault, d)
      else if lists_member n vault.config.members
      then (ok tt, vault, d)
      else add_new_member n vault d

  unfoldable pub remove_member : Bytes → Method Bool
  remove_member node_id vault d =
      let config = vault.config in
      let members = without_member node_id config.members in
      let vault' = with_config vault (record config { members = members }) in
      if not (length members == length config.members)
      then answered true (bump_and_sign_config vault' d)
      else (ok false, vault', d)
