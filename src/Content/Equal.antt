-- ===== src/Content/Equal.antt =====
-- `==` and `<` of byte slices and of `str`: both compare byte by byte.
use soal.Base.{
  ◌≡◌, refl, ◌↔◌, Bool, true, false, ◌&&◌, Bytes, [], ◌∷◌, arith, ltb, ◌==◌, if◌then◌else◌,
}

unfoldable pub bytes_eq : Bytes → Bytes → Bool
bytes_eq [] [] = true
bytes_eq (a ∷ xs) (b ∷ ys) = a == b && bytes_eq xs ys
bytes_eq _ _ = false

pub bytes_eq_iff : (a b : Bytes) → (bytes_eq a b ≡ true) ↔ (a ≡ b)
unfolding bytes_eq
bytes_eq_iff [] [] = (λ h. refl, λ h. refl)
bytes_eq_iff [] (b ∷ ys) = (λ h. cc, λ h. cc)
bytes_eq_iff (a ∷ xs) [] = (λ h. cc, λ h. cc)
bytes_eq_iff (a ∷ xs) (b ∷ ys) =
    let ih : (bytes_eq xs ys ≡ true) ↔ (xs ≡ ys) = bytes_eq_iff xs ys in
    (λ h. ground (arith, ih), λ h. ground (arith, ih))

pub bytes_eq_refl : (a : Bytes) → bytes_eq a a ≡ true
bytes_eq_refl a = (bytes_eq_iff a a).1 refl

unfoldable pub bytes_ltb : Bytes → Bytes → Bool
bytes_ltb [] [] = false
bytes_ltb [] (b ∷ ys) = true
bytes_ltb (a ∷ xs) [] = false
bytes_ltb (a ∷ xs) (b ∷ ys) = if ltb a b then true else if a == b then bytes_ltb xs ys else false

pub bytes_ltb_irrefl : (a : Bytes) → bytes_ltb a a ≡ false
unfolding bytes_ltb
bytes_ltb_irrefl [] = refl
bytes_ltb_irrefl (a ∷ xs) = ground (arith, bytes_ltb_irrefl xs)

pub bytes_ltb_trans :
    (a b c : Bytes) → bytes_ltb a b ≡ true → bytes_ltb b c ≡ true → bytes_ltb a c ≡ true
unfolding bytes_ltb
bytes_ltb_trans [] [] [] h k = cc
bytes_ltb_trans [] (y ∷ b) [] h k = cc
bytes_ltb_trans (x ∷ a) [] [] h k = cc
bytes_ltb_trans (x ∷ a) (y ∷ b) [] h k = cc
bytes_ltb_trans [] b (z ∷ c) h k = refl
bytes_ltb_trans (x ∷ a) [] (z ∷ c) h k = cc
bytes_ltb_trans (x ∷ a) (y ∷ b) (z ∷ c) h k = ground (arith, bytes_ltb_trans a b c)

-- Neither below the other: equal.
pub bytes_ltb_eq : (a b : Bytes) → bytes_ltb a b ≡ false → bytes_ltb b a ≡ false → a ≡ b
unfolding bytes_ltb
bytes_ltb_eq [] [] h k = refl
bytes_ltb_eq [] (b ∷ ys) h k = cc
bytes_ltb_eq (a ∷ xs) [] h k = cc
bytes_ltb_eq (a ∷ xs) (b ∷ ys) h k = ground (arith, bytes_ltb_eq xs ys)
