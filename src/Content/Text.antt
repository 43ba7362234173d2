-- ===== src/Content/Text.antt =====
-- `str::trim`, of Rust's standard library, on the UTF-8 bytes of a text: it takes the characters of
-- the Unicode property White_Space off both ends.
use soal.Base.{
  ℕ, zero, suc, Bool, ◌&&◌, ◌||◌, Bytes, [], ◌∷◌, leb, ◌==◌, if◌then◌else◌, length, drop, reverse,
}

-- U+0009 to U+000D and U+0020.
unfoldable pub is_ascii_space : ℕ → Bool
is_ascii_space b = (leb 9 b && leb b 13) || b == 32

-- U+0085 and U+00A0.
unfoldable pub is_space_two : ℕ → ℕ → Bool
is_space_two a b = a == 0xc2 && (b == 0x85 || b == 0xa0)

-- U+1680, U+2000 to U+200A, U+2028, U+2029, U+202F, U+205F and U+3000.
unfoldable pub is_space_three : ℕ → ℕ → ℕ → Bool
is_space_three a b c =
    (a == 0xe1 && b == 0x9a && c == 0x80)
    || (a == 0xe2
        && b == 0x80
        && ((leb 0x80 c && leb c 0x8a) || c == 0xa8 || c == 0xa9 || c == 0xaf))
    || (a == 0xe2 && b == 0x81 && c == 0x9f)
    || (a == 0xe3 && b == 0x80 && c == 0x80)

-- The length of the white space character in front; 0 where there is none.
unfoldable pub space_front : Bytes → ℕ
unfolding is_ascii_space is_space_two is_space_three
space_front [] = 0
space_front (a ∷ []) = if is_ascii_space a then 1 else 0
space_front (a ∷ b ∷ []) = if is_ascii_space a then 1 else if is_space_two a b then 2 else 0
space_front (a ∷ b ∷ c ∷ s) =
    if is_ascii_space a
    then 1
    else if is_space_two a b
    then 2
    else if is_space_three a b c
    then 3
    else 0

-- The same at the end of a text whose bytes are in reverse.
unfoldable pub space_back : Bytes → ℕ
unfolding is_ascii_space is_space_two is_space_three
space_back [] = 0
space_back (a ∷ []) = if is_ascii_space a then 1 else 0
space_back (b ∷ a ∷ []) = if is_ascii_space b then 1 else if is_space_two a b then 2 else 0
space_back (c ∷ b ∷ a ∷ s) =
    if is_ascii_space c
    then 1
    else if is_space_two b c
    then 2
    else if is_space_three a b c
    then 3
    else 0

-- Each round takes a byte at least: `length s` rounds are enough.
unfoldable pub strip : (Bytes → ℕ) → ℕ → Bytes → Bytes
strip space zero s = s
strip space (suc fuel) s = elim (space s) [ zero ↦ s | suc k ↦ strip space fuel (drop (suc k) s) ]

unfoldable pub trim : Bytes → Bytes
unfolding strip
trim s =
    let front = strip space_front (length s) s in
    reverse (strip space_back (length front) (reverse front))
