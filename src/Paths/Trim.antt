-- ===== src/Paths/Trim.antt =====
-- `normalize_path` and `normalize_and_validate` of src/tree.rs on valid paths.
use mathlib.Core.List.{reverse-reverse, reverse-cons}
use mathlib.Core.Path.{ap₂}
use soal.Base.{
  ℕ, ◌≡◌, refl, sym, ap, ◌∙◌, true, false, ◌&&◌, Bytes, List, [], ◌∷◌, ◌++◌, ◌==◌, ==_iff, arith,
  All, ok, Bool-cases, inl, inr, map, reverse,
}
use soal.Content.{codes}
use soal.Paths.{
  slash, dot, backslash, contains, split, check_segments, starts_with, validate_path,
  normalize_path, normalize_and_validate, trim_start_dots, trim_start_slashes, trim_slashes,
  replace_backslash,
}
use soal.Paths.Segments.{IsName, check_segments_iff, Lacks, split-append, split-append_sep}
use soal.Paths.Safe.{Tests, validate_path-Tests, starts_with-split}

map-replace_backslash : (s : Bytes) → Lacks backslash s → map replace_backslash s ≡ s
unfolding contains replace_backslash
map-replace_backslash [] h = refl
map-replace_backslash (b ∷ s) h = ground (arith, map-replace_backslash s)

names_of_ok :
    (path : Bytes) → check_segments (split slash path) ≡ ok tt → All IsName (split slash path)
names_of_ok path h = (check_segments_iff (split slash path)).0 h

-- A path of names does not begin with `./`.
trim_start_dots_id : (path : Bytes) → All IsName (split slash path) → trim_start_dots path ≡ path
unfolding trim_start_dots
trim_start_dots_id [] h = refl
trim_start_dots_id (a ∷ []) h = refl
trim_start_dots_id (a ∷ b ∷ s) h = elim (Bool-cases (a == dot && b == slash)) [
  | inl p ↦ absurd (here a b s p h)
  | inr p ↦ rw p
]
  where
    here :
        (a b : ℕ) (s : Bytes)
        → (a == dot && b == slash) ≡ true
        → All IsName (split slash (a ∷ b ∷ s))
        → ⊥
    here a b s p h =
        let x : a ≡ dot = ground arith in
        let y : b ≡ slash = ground arith in
        let e : split slash (a ∷ b ∷ s) ≡ codes "." ∷ split slash s =
          ap₂ (λ u v. split slash (u ∷ v ∷ s)) x y
          ∙ split-append_sep slash (dot ∷ []) s (unfold contains in refl) in
        (rw e at h).0.not_here refl

trim_start_slashes_id : (s : Bytes) → starts_with slash s ≡ false → trim_start_slashes s ≡ s
unfolding trim_start_slashes starts_with
trim_start_slashes_id [] h = refl
trim_start_slashes_id (b ∷ s) h = rw h

last_name : (xs : List Bytes) → All IsName (xs ++ [] ∷ []) → ⊥
last_name [] h = h.0.filled refl
last_name (x ∷ xs) h = last_name xs h.1

-- A path of names does not end in a separator.
starts_with-reverse :
    (path : Bytes) → All IsName (split slash path) → starts_with slash (reverse path) ≡ false
starts_with-reverse path h = go (reverse path) refl
  where
    go : (r : Bytes) → reverse path ≡ r → starts_with slash r ≡ false
    go [] e = unfold starts_with in refl
    go (b ∷ r) e = elim (Bool-cases (b == slash)) [
      | inr p ↦ unfold starts_with in p
      | inl p ↦
          let x : path ≡ reverse r ++ slash ∷ [] =
            sym (reverse-reverse path)
            ∙ ap reverse e
            ∙ reverse-cons b r
            ∙ ap (λ c. reverse r ++ c ∷ []) ((==_iff b slash).0 p) in
          let y : split slash path ≡ split slash (reverse r) ++ split slash [] =
            ap (split slash) x ∙ split-append slash (reverse r) [] in
          absurd (last_name (split slash (reverse r)) (unfold split in (rw y at h)))
    ]

pub normalize_path_id : (path : Bytes) → Tests path → normalize_path path ≡ path
unfolding normalize_path trim_slashes
normalize_path_id path t =
    let names : All IsName (split slash path) = names_of_ok path t.loop in
    let front : trim_start_slashes path ≡ path =
      trim_start_slashes_id path (starts_with-split path t.loop).1 in
    let back : trim_start_slashes (reverse path) ≡ reverse path =
      trim_start_slashes_id (reverse path) (starts_with-reverse path names) in
    rw (map-replace_backslash path t.back, trim_start_dots_id path names, front, back)
      (reverse-reverse path)

valid : (path n : Bytes) → normalize_and_validate path ≡ ok n → validate_path n ≡ ok tt
unfolding normalize_and_validate
valid path n h = ground arith

pub normalize_and_validate_id :
    (path : Bytes) → validate_path path ≡ ok tt → normalize_and_validate path ≡ ok path
unfolding normalize_and_validate
normalize_and_validate_id path h =
    let t : Tests path = validate_path-Tests path h in
    ground (arith, t.nul, t.back, normalize_path_id path t, h)

-- A path that normalize_and_validate returns passes validate_path, and normalize_and_validate
-- returns it unchanged.
pub normalize_and_validate-valid :
    (path n : Bytes)
    → normalize_and_validate path ≡ ok n
    → (validate_path n ≡ ok tt) × (normalize_and_validate n ≡ ok n)
normalize_and_validate-valid path n h =
    let v : validate_path n ≡ ok tt = valid path n h in (v, normalize_and_validate_id n v)
