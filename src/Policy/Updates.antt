-- ===== src/Policy/Updates.antt =====
-- What `validate` and `with_updates` of src/policy.rs let through.
use soal.Base.{
  ok_injective, ℕ, ◌≤◌, ◌≡◌, refl, subst, ◌↔◌, ◌⊎◌, inl, Bool, Bytes, Option, none, some, ok, arith,
  >>=-ok,
}
use soal.Policy.{VaultPolicy, validate, with_updates, set_replicas, set_to, set_label}

pub validate_iff :
    (p : VaultPolicy)
    → (validate p ≡ ok tt)
      ↔ ((1 ≤ p.min_replicas) × ((p.snapshot_interval_secs ≡ 0) ⊎ (5 ≤ p.snapshot_interval_secs)))
unfolding validate
validate_iff p = ground arith

-- What the interval becomes is the only thing that can fail.
updated :
    VaultPolicy
    → Option ℕ
    → Option ℕ
    → Option ℕ
    → Option Bool
    → Option ℕ
    → Option Bytes
    → VaultPolicy
updated p r i n l a lab = record p {
  min_replicas = set_replicas r p.min_replicas;
  snapshot_interval_secs = set_to i p.snapshot_interval_secs;
  retain_snapshots = set_to n p.retain_snapshots;
  live_mode = set_to l p.live_mode;
  max_head_age_secs = set_to a p.max_head_age_secs;
  label = set_label lab p.label;
}

set_replicas-positive : (r : Option ℕ) (old : ℕ) → 1 ≤ old → 1 ≤ set_replicas r old
unfolding set_replicas
set_replicas-positive none old h = h
set_replicas-positive (some v) old h = omega arith

-- From a policy that validates, with_updates returns a policy exactly if the new interval, where
-- one is given, is 0 or at least 5.
pub with_updates_iff :
    (p : VaultPolicy) (r i n : Option ℕ) (l : Option Bool) (a : Option ℕ) (lab : Option Bytes)
    → validate p ≡ ok tt
    → ((q : VaultPolicy) × (with_updates p r i n l a lab ≡ ok q))
      ↔ ((set_to i 0 ≡ 0) ⊎ (5 ≤ set_to i 0))
unfolding with_updates updated
with_updates_iff p r i n l a lab v =
    let (h, k) = (validate_iff p).0 v in
    (
      λ (q, e).
          let (_, w, _) = >>=-ok (validate (updated p r i n l a lab)) _ e in
          only_new i p.snapshot_interval_secs ((validate_iff (updated p r i n l a lab)).0 w).1,
      λ x. (
        updated p r i n l a lab,
        rw
            ((validate_iff (updated p r i n l a lab)).1
              (set_replicas-positive r p.min_replicas h, new_or_old i p.snapshot_interval_secs k x))
            refl,
      ),
    )
  where
    only_new :
        (i : Option ℕ) (old : ℕ)
        → (set_to i old ≡ 0) ⊎ (5 ≤ set_to i old)
        → (set_to i 0 ≡ 0) ⊎ (5 ≤ set_to i 0)
    only_new none old h = inl refl
    only_new (some v) old h = h

    new_or_old :
        (i : Option ℕ) (old : ℕ)
        → (old ≡ 0) ⊎ (5 ≤ old)
        → (set_to i 0 ≡ 0) ⊎ (5 ≤ set_to i 0)
        → (set_to i old ≡ 0) ⊎ (5 ≤ set_to i old)
    new_or_old none old k h = k
    new_or_old (some v) old k h = h

-- A policy that with_updates returns validates, whatever policy the updates are applied to.
pub with_updates-validate :
    (p q : VaultPolicy) (r i n : Option ℕ) (l : Option Bool) (a : Option ℕ) (lab : Option Bytes)
    → with_updates p r i n l a lab ≡ ok q
    → validate q ≡ ok tt
unfolding with_updates updated
with_updates-validate p q r i n l a lab e =
    let (_, v, f) = >>=-ok (validate (updated p r i n l a lab)) _ e in
    let same : updated p r i n l a lab ≡ q = ok_injective f in
    subst (λ x. validate x ≡ ok tt) same v
