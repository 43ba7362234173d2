-- ===== src/Vault/Config/Members.antt =====
-- src/vault.rs, `add_member` and `remove_member`: who is listed afterwards.
use soal.Base.{
  ℕ, suc, ◌≤◌, ◌≡◌, ◌≢◌, refl, sym, ◌∙◌, ap, true, false, not, ◌||◌, ◌==◌, inl, inr, Bool-cases,
  Bytes, List, [], ◌∷◌, ◌++◌, length, Result, ok, err, panic, arith,
}
use soal.Content.{bytes_eq, bytes_eq_iff}
use soal.Content.Text.{trim}
use soal.Disk.{Disk}
use soal.Paths.{is_empty}
use soal.Invite.{lists_member, to_ascii_lowercase}
use soal.Vault.{Crates, Vault, VaultConfig, Home}
use soal.Vault.Config.{
  sign_vault_config, sign_config_if, sign_config_at, bumped, bump_and_sign_config, left_with,
  with_config, add_member, add_new_member, remove_member, answered, without_member,
}

length-without_member-le :
    (id : Bytes) (ms : List Bytes) → length (without_member id ms) ≤ length ms
unfolding without_member
length-without_member-le id [] = omega arith
length-without_member-le id (m ∷ ms) = ground (arith, length-without_member-le id ms)

-- Nobody is removed where the number of members stays.
pub without_member-same :
    (id : Bytes) (ms : List Bytes)
    → length (without_member id ms) ≡ length ms
    → without_member id ms ≡ ms
unfolding without_member
without_member-same id [] e = refl
without_member-same id (m ∷ ms) e =
    elim (Bool-cases (bytes_eq (to_ascii_lowercase m) (to_ascii_lowercase id))) [
      | inl q ↦ absurd (omega (arith, length-without_member-le id ms, rw q at e))
      | inr q ↦ rw q (ap (λ l. m ∷ l) (without_member-same id ms (omega (arith, rw q at e))))
    ]

lists-without_member :
    (id : Bytes) (ms : List Bytes) → lists_member id (without_member id ms) ≡ false
unfolding without_member lists_member
lists-without_member id [] = refl
lists-without_member id (m ∷ ms) = ground (arith, lists-without_member id ms)

lists_other :
    (id other : Bytes) (ms : List Bytes)
    → to_ascii_lowercase other ≢ to_ascii_lowercase id
    → lists_member other (without_member id ms) ≡ lists_member other ms
unfolding without_member lists_member
lists_other id other [] ne = refl
lists_other id other (m ∷ ms) ne = ground (
  arith,
  lists_other id other ms ne,
  bytes_eq_iff (to_ascii_lowercase m) (to_ascii_lowercase id),
  bytes_eq_iff (to_ascii_lowercase m) (to_ascii_lowercase other),
  ne,
)

lists-append :
    (id : Bytes) (ms : List Bytes) (n : Bytes)
    → lists_member id (ms ++ n ∷ [])
      ≡ (lists_member id ms || bytes_eq (to_ascii_lowercase n) (to_ascii_lowercase id))
unfolding lists_member
lists-append id [] n = ground arith
lists-append id (m ∷ ms) n = ground (arith, lists-append id ms n)

lists_same :
    (a b : Bytes) (ms : List Bytes)
    → to_ascii_lowercase a ≡ to_ascii_lowercase b
    → lists_member a ms ≡ lists_member b ms
unfolding lists_member
lists_same a b [] e = refl
lists_same a b (m ∷ ms) e = rw (e, lists_same a b ms e) refl

module _ (crates : Crates) where
  -- Signing leaves the members.
  members-bump :
      (vault : Vault) (d : Disk)
      → (bump_and_sign_config crates vault d).1.config.members ≡ vault.config.members
  unfolding bump_and_sign_config left_with with_config bumped sign_config_if sign_vault_config
      sign_config_at
  members-bump vault d = at_home vault.soal_home _
    where
      signed :
          (r : Result crates.keys.SecretKey) (c : VaultConfig)
          → (sign_config_if crates r c).members ≡ c.members
      signed (ok sk) c = refl
      signed (err e) c = refl
      signed panic c = refl

      at_home :
          (h : soal.Base.Option Home) (c : VaultConfig)
          → (sign_config_at crates h c).members ≡ c.members
      at_home soal.Base.none c = refl
      at_home (soal.Base.some h) c = signed _ c

  answered-config : (r : Result (Unit {0}) × Vault × Disk) → (answered true r).1 ≡ r.1
  unfolding answered
  answered-config (ok u, v, d) = refl
  answered-config (err e, v, d) = refl
  answered-config (panic, v, d) = refl

  -- After add_member with an id that is not blank, whatever it returns, an id is listed exactly if
  -- it was listed or equals the trimmed new id up to case.
  pub lists-add_member :
      (node_id : Bytes) (vault : Vault) (d : Disk) (m : Bytes)
      → is_empty (trim node_id) ≡ false
      → lists_member m (add_member crates node_id vault d).1.config.members ≡ (
          lists_member m vault.config.members
          || bytes_eq (to_ascii_lowercase (trim node_id)) (to_ascii_lowercase m))
  unfolding add_member add_new_member with_config
  lists-add_member node_id vault d m e =
      elim (Bool-cases (lists_member (trim node_id) vault.config.members)) [
        | inl q ↦
            rw (e, q)
              (ground (
                arith,
                q,
                bytes_eq_iff (to_ascii_lowercase (trim node_id)) (to_ascii_lowercase m),
                lists_same (trim node_id) m vault.config.members,
              ))
        | inr q ↦
            rw (e, q)
              (ap (lists_member m) (members-bump _ d)
                ∙ lists-append m vault.config.members (trim node_id))
      ]

  -- After remove_member, whatever it returns, the id is listed no more, and an id that differs from
  -- it otherwise than in case is listed exactly if it was.
  pub lists-remove_member :
      (node_id : Bytes) (vault : Vault) (d : Disk)
      → (lists_member node_id (remove_member crates node_id vault d).1.config.members ≡ false)
        × ((m : Bytes)
            → to_ascii_lowercase m ≢ to_ascii_lowercase node_id
            → lists_member m (remove_member crates node_id vault d).1.config.members
              ≡ lists_member m vault.config.members)
  unfolding remove_member with_config
  lists-remove_member node_id vault d = (
    ap (lists_member node_id) members ∙ lists-without_member node_id vault.config.members,
    λ m ne. ap (lists_member m) members ∙ lists_other node_id m vault.config.members ne,
  )
    where
      members :
          (remove_member crates node_id vault d).1.config.members
          ≡ without_member node_id vault.config.members
      members =
          elim (Bool-cases
            (length (without_member node_id vault.config.members) == length vault.config.members)) [
              | inl q ↦ rw q refl
              | inr q ↦
                  rw q (ap (λ (v : Vault). v.config.members) (answered-config _) ∙ members-bump _ d)
            ]
