-- ===== src/Vault/Live/Roots.antt =====
-- src/vault.rs, the roots of the marking walks: what protected_commit_roots returns, or `HEAD`.
use mathlib.Core.List.{Memᴰ}
use mathlib.Core.List.Memᴰ
use soal.Base.{
  ◌≡◌, ◌↔◌, refl, sym, ◌∙◌, subst, ap, List, [], ◌∷◌, Option, none, some, Result, ok, err, panic,
  SoalError,
}
use soal.Content.{ContentHash}
use soal.Disk.{Disk, quiet}
use soal.Disk.Triples.{Files}
use soal.Vault.{Crates}
use soal.Vault.Heads.{head, protected_commit_roots}
use soal.Vault.Heads.Reading.{head-IsReading, protected_commit_roots-IsReading}
use soal.Vault.Heads.Protected.{IsProtected, protected_commit_roots_iff}
use soal.Vault.Live.{head_or_none, or_head, live_roots}

module _ (crates : Crates) (m : Files) where
  -- Where the walks start: where one of the three files cannot be read, from `HEAD` alone.
  pub data IsRoot (h : ContentHash) : Type 0 where
    protected :
        (roots : List ContentHash)
        → protected_commit_roots crates (quiet m) ≡ (ok roots, quiet m)
        → IsProtected crates m h
        → IsRoot h
    fallback :
        (e : SoalError)
        → protected_commit_roots crates (quiet m) ≡ (err e, quiet m)
        → head crates (quiet m) ≡ (ok (some h), quiet m)
        → IsRoot h

  -- The fallback starts from what `HEAD` names, if it can be read.
  head_or_none_iff :
      (r : Result (Option ContentHash) × Disk) (roots : List ContentHash) (d : Disk)
      → (h : ContentHash) → head_or_none r ≡ (ok roots, d)
      → Memᴰ h roots ↔ (r.0 ≡ ok (some h))
  unfolding head_or_none
  head_or_none_iff (ok none, d') roots d h e =
      let same : [] ≡ roots = cc e in
      (λ k. absurd (Memᴰ.not-nil (subst (Memᴰ h) (sym same) k)), λ f. cc)
  head_or_none_iff (ok (some g), d') roots d h e =
      let same : g ∷ [] ≡ roots = cc e in
      (
        λ k. ap (λ x. ok (some x)) (sym (Memᴰ.eq_of_singleton (subst (Memᴰ h) (sym same) k))),
        λ f. subst (Memᴰ h) same (Memᴰ.head (cc f)),
      )
  head_or_none_iff (err x, d') roots d h e =
      let same : [] ≡ roots = cc e in
      (λ k. absurd (Memᴰ.not-nil (subst (Memᴰ h) (sym same) k)), λ f. cc)
  head_or_none_iff (panic, d') roots d h e = cc

  -- The walks start from what the files name, or from `HEAD`.
  pub live_roots_iff :
      (roots : List ContentHash) (h : ContentHash)
      → live_roots crates (quiet m) ≡ (ok roots, quiet m)
      → Memᴰ h roots ↔ IsRoot h
  unfolding live_roots or_head
  live_roots_iff roots h e =
      go (protected_commit_roots crates (quiet m)) refl
        ((protected_commit_roots-IsReading crates).left m) e
    where
      whole :
          (r : Result (Option ContentHash) × Disk)
          → head crates (quiet m) ≡ r
          → r.1 ≡ quiet m
          → r.0 ≡ ok (some h)
          → head crates (quiet m) ≡ (ok (some h), quiet m)
      whole (a, d) p here q = cc (p, here, q)

      go :
          (r : Result (List ContentHash) × Disk)
          → protected_commit_roots crates (quiet m) ≡ r
          → r.1 ≡ quiet m
          → or_head crates r ≡ (ok roots, quiet m)
          → Memᴰ h roots ↔ IsRoot h
      go (ok rs, d) p here e =
          let same : rs ≡ roots = cc e in
          let q : protected_commit_roots crates (quiet m) ≡ (ok roots, quiet m) = p ∙ e in
          let spec = protected_commit_roots_iff crates m roots h q in
          (
            λ k. protected roots q (spec.0 k),
            λ k. elim k [ protected rs' q' n ↦ spec.1 n | fallback x f g ↦ cc (q, f) ],
          )
      go (err x, d) p here e =
          let failed : protected_commit_roots crates (quiet m) ≡ (err x, quiet m) =
            p ∙ ap (λ a. (err x, a)) here in
          let spec =
            head_or_none_iff (head crates (quiet m)) roots (quiet m) h
              (subst (λ a. head_or_none (head crates a) ≡ (ok roots, quiet m)) here e) in
          (
            λ k.
                fallback x failed
                  (whole (head crates (quiet m)) refl ((head-IsReading crates).left m) (spec.0 k)),
            λ k. elim k [
              | protected rs q n ↦ cc (failed, q)
              | fallback y f g ↦ spec.1 (ap (λ z. z.0) g)
            ],
          )
      go (panic, d) p here e = cc
