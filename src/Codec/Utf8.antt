-- ===== src/Codec/Utf8.antt =====
-- `std::str::from_utf8`, which src/codec.rs calls: well-formed UTF-8 as the Unicode standard has
-- it, with no overlong form, no surrogate and nothing above U+10FFFF.
use soal.Base.{
  ◌≡◌, refl, all, arith, ℕ, Bool, true, false, ◌&&◌, ◌||◌, Bytes, [], ◌∷◌, ltb, leb, ◌==◌,
  if◌then◌else◌,
}

between : ℕ → ℕ → ℕ → Bool
between lo hi b = leb lo b && leb b hi

tail_byte : ℕ → Bool
tail_byte b = between 0x80 0xbf b

-- The second byte of a form of three or four bytes.
second_of_three : ℕ → ℕ → Bool
unfolding between tail_byte
second_of_three a b =
    if a == 0xe0
    then between 0xa0 0xbf b
    else if a == 0xed
    then between 0x80 0x9f b
    else tail_byte b

second_of_four : ℕ → ℕ → Bool
unfolding between tail_byte
second_of_four a b =
    if a == 0xf0
    then between 0x90 0xbf b
    else if a == 0xf4
    then between 0x80 0x8f b
    else tail_byte b

-- The number of bytes of the form that a byte begins; 0 where none does.
form : ℕ → ℕ
unfolding between
form a =
    if ltb a 0x80
    then 1
    else if between 0xc2 0xdf a
    then 2
    else if between 0xe0 0xef a
    then 3
    else if between 0xf0 0xf4 a
    then 4
    else 0

unfoldable pub is_utf8 : Bytes → Bool
unfolding form tail_byte second_of_three second_of_four between
is_utf8 [] = true
is_utf8 (a ∷ []) = form a == 1
is_utf8 (a ∷ b ∷ []) = (form a == 1 && is_utf8 (b ∷ [])) || (form a == 2 && tail_byte b)
is_utf8 (a ∷ b ∷ c ∷ []) =
    (form a == 1 && is_utf8 (b ∷ c ∷ []))
    || (form a == 2 && tail_byte b && is_utf8 (c ∷ []))
    || (form a == 3 && second_of_three a b && tail_byte c)
is_utf8 (a ∷ b ∷ c ∷ d ∷ rest) =
    let from_b = is_utf8 (b ∷ c ∷ d ∷ rest) in
    let from_c = is_utf8 (c ∷ d ∷ rest) in
    let from_d = is_utf8 (d ∷ rest) in
    let from_rest = is_utf8 rest in
    if form a == 1
    then from_b
    else if form a == 2
    then tail_byte b && from_c
    else if form a == 3
    then second_of_three a b && tail_byte c && from_d
    else if form a == 4
    then second_of_four a b && tail_byte c && tail_byte d && from_rest
    else false

form_ascii : (a : ℕ) → ltb a 0x80 ≡ true → form a ≡ 1
unfolding form
form_ascii a h = rw h refl

both : (a b : Bool) → (a && b) ≡ true → (a ≡ true) × (b ≡ true)
both a b h = (ground (arith, h), ground (arith, h))

-- A text of ASCII bytes is well formed.
pub is_utf8-ascii :
    (p : ℕ → Bool)
    → ((b : ℕ) → p b ≡ true → ltb b 0x80 ≡ true)
    → (s : Bytes) → all p s ≡ true
    → is_utf8 s ≡ true
unfolding is_utf8
is_utf8-ascii p small [] h = refl
is_utf8-ascii p small (a ∷ []) h = rw (form_ascii a (small a (both (p a) true h).0)) refl
is_utf8-ascii p small (a ∷ b ∷ []) h =
    let (x, y) = both (p a) (all p (b ∷ [])) h in
    rw (form_ascii a (small a x), is_utf8-ascii p small (b ∷ []) y) refl
is_utf8-ascii p small (a ∷ b ∷ c ∷ []) h =
    let (x, y) = both (p a) (all p (b ∷ c ∷ [])) h in
    rw (form_ascii a (small a x), is_utf8-ascii p small (b ∷ c ∷ []) y) refl
is_utf8-ascii p small (a ∷ b ∷ c ∷ d ∷ s) h =
    let (x, y) = both (p a) (all p (b ∷ c ∷ d ∷ s)) h in
    rw (form_ascii a (small a x), is_utf8-ascii p small (b ∷ c ∷ d ∷ s) y) refl
