-- ===== src/Vault/Config/Signed.antt =====
-- src/vault.rs, `verify_vault_config` after the methods that change the config.
use soal.Base.{
  ℕ, ◌≡◌, refl, ◌∙◌, ap, true, ◌==◌, inl, inr, Bool-cases, Bytes, length, some, Result, ok, err,
  panic, arith,
}
use soal.Content.{IsArray}
use soal.Content.Hex.{trim_id}
use soal.Disk.{Disk}
use soal.Paths.{is_empty}
use soal.Invite.Issued.{not_empty}
use soal.Vault.{Crates, Vault, VaultConfig, Home}
use soal.Content.Text.{trim}
use soal.Invite.{lists_member}
use soal.Vault.Config.Members.{without_member-same}
use soal.Vault.Node.{load_secret_key}
use soal.Vault.Config.{
  signed_fields, config_sign_preimage, sign_vault_config, verify_config_sig, verify_unless_empty,
  verify_vault_config, sign_config_if, sign_config_at, bumped, bump_and_sign_config, left_with,
  with_config, set_min_replicas, add_member, add_new_member, remove_member, answered,
  without_member,
}

module _ (crates : Crates) where
  open crates use {hex, keys, parse_key}

  pub verify-sign_vault_config :
      (sk : keys.SecretKey) (config : VaultConfig)
      → parse_key (keys.to_string (keys.public sk)) ≡ some (keys.public sk)
      → verify_vault_config crates (sign_vault_config crates sk config) ≡ ok tt
  unfolding verify_vault_config sign_vault_config verify_unless_empty verify_config_sig
      config_sign_preimage signed_fields
  verify-sign_vault_config sk config k =
      let owned : VaultConfig = record config { owner = some (keys.to_string (keys.public sk)) } in
      let msg = config_sign_preimage crates owned in
      let a : IsArray 64 (keys.sign sk msg) = keys.sign-IsArray sk msg in
      let sig = hex.encode (keys.sign sk msg) in
      rw
        (
          not_empty sig (omega (arith, hex.length-encode (keys.sign sk msg), a.size)),
          k,
          trim_id sig (hex.encode_digits (keys.sign sk msg)),
          hex.decode-encode (keys.sign sk msg) a.bytes,
          a.size,
          keys.verify-sign sk msg,
        )
        refl

  -- The node has a key whose displayed public key reads back as that key.
  pub record HasKey (vault : Vault) : Type 0 where
    pub home : Home
    pub at_home : vault.soal_home ≡ some home
    pub sk : keys.SecretKey
    pub loads : load_secret_key crates home ≡ ok sk
    pub reads_back : parse_key (keys.to_string (keys.public sk)) ≡ some (keys.public sk)

  abbrev pub IsVerified : Vault → Type 0
  IsVerified vault = verify_vault_config crates vault.config ≡ ok tt

  bump_and_sign_config-IsVerified :
      (vault : Vault) (d : Disk) → HasKey vault → IsVerified (bump_and_sign_config crates vault d).1
  unfolding bump_and_sign_config left_with with_config bumped sign_config_at sign_config_if
  bump_and_sign_config-IsVerified vault d k =
      rw (k.at_home, k.loads) (verify-sign_vault_config k.sk _ k.reads_back)

  with_config-HasKey :
      (vault : Vault) (config : VaultConfig) → HasKey vault → HasKey (with_config vault config)
  unfolding with_config
  with_config-HasKey vault config k = record {
    home = k.home;
    at_home = k.at_home;
    sk = k.sk;
    loads = k.loads;
    reads_back = k.reads_back;
  }

  answered-vault :
      (r : Result (Unit {0}) × Vault × Disk) → IsVerified r.1 → IsVerified (answered true r).1
  unfolding answered
  answered-vault (ok u, v, d) h = h
  answered-vault (err e, v, d) h = h
  answered-vault (panic, v, d) h = h

  -- On a node with a key that reads back, and from a vault whose config passes verify_vault_config,
  -- the config passes it after set_min_replicas, add_member and remove_member, whatever they return
  -- and whichever calls fail.
  pub methods-IsVerified :
      (vault : Vault) (d : Disk) (n : ℕ) (node_id : Bytes)
      → HasKey vault
      → IsVerified vault
      → IsVerified (set_min_replicas crates n vault d).1
        × IsVerified (add_member crates node_id vault d).1
        × IsVerified (remove_member crates node_id vault d).1
  unfolding set_min_replicas add_member add_new_member remove_member with_config
  methods-IsVerified vault d n node_id k v = (sets, adds, removes)
    where
      sets : IsVerified (set_min_replicas crates n vault d).1
      sets = bump_and_sign_config-IsVerified _ d (with_config-HasKey vault _ k)

      adds : IsVerified (add_member crates node_id vault d).1
      adds = elim (Bool-cases (is_empty (trim node_id))) [
        | inl q ↦ rw q v
        | inr q ↦ elim (Bool-cases (lists_member (trim node_id) vault.config.members)) [
          | inl r ↦ rw (q, r) v
          | inr r ↦ rw (q, r) (bump_and_sign_config-IsVerified _ d (with_config-HasKey vault _ k))
        ]
      ]

      removes : IsVerified (remove_member crates node_id vault d).1
      removes =
          elim (Bool-cases
            (length (without_member node_id vault.config.members) == length vault.config.members)) [
              | inl q ↦ rw q (
                  ap (λ ms. verify_vault_config crates (record (vault.config) { members = ms }))
                    (without_member-same node_id vault.config.members (ground (arith, q)))
                  ∙ v)
              | inr q ↦ rw q (
                  answered-vault _
                    (bump_and_sign_config-IsVerified _ d (with_config-HasKey vault _ k)))
            ]
