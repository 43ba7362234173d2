-- ===== src/Network/Decimal.antt =====
-- Sequence numbers of src/network.rs as decimal texts.
use soal.Base.{
  ℕ, zero, suc, ◌+◌, ◌*◌, ◌/◌, ◌%◌, ◌^◌, ◌≤◌, ◌<◌, ◌≡◌, ◌≢◌, refl, ap, true, Bytes, [], ◌∷◌, ◌++◌,
  length, length-append, all, ltb, Bool-cases, inl, inr, Option, none, some, arith, ltb→lt,
}
use native.Mathlib.Nat.{pow-suc}
use soal.Content.Text.{trim}
use soal.Content.Hex.{is_ascii_hexdigit, trim_id, all-append}
use soal.Network.{digits_of, u64_to_string, is_digit, next_digit, and_then, parse_digits, parse_u64}

parse-append :
    (s : Bytes) (n b : ℕ)
    → parse_digits n (s ++ b ∷ []) ≡ and_then (parse_digits n s) (λ m. next_digit m b)
unfolding parse_digits
parse-append [] n b = right (next_digit n b)
  where
    right : (o : Option ℕ) → and_then o (λ m. some m) ≡ o
    right none = refl
    right (some m) = refl
parse-append (c ∷ s) n b = go (next_digit n c) (λ m. parse-append s m b)
  where
    go :
        (o : Option ℕ)
        → ((m : ℕ)
            → parse_digits m (s ++ b ∷ []) ≡ and_then (parse_digits m s) (λ k. next_digit k b))
        → and_then o (λ m. parse_digits m (s ++ b ∷ []))
          ≡ and_then (and_then o (λ m. parse_digits m s)) (λ k. next_digit k b)
    go none h = refl
    go (some m) h = h m

next-digit : (n d : ℕ) → d < 10 → n * 10 + d < 2 ^ 64 → next_digit n (b'0' + d) ≡ some (n * 10 + d)
unfolding next_digit is_digit
next-digit n d h k = ground arith

parse-digits_of :
    (fuel n : ℕ) → n < 10 ^ fuel → n < 2 ^ 64 → parse_digits 0 (digits_of fuel n) ≡ some n
unfolding digits_of parse_digits
parse-digits_of zero n h k = ap some (omega (arith, h))
parse-digits_of (suc fuel) n h k = elim (Bool-cases (ltb n 10)) [
  | inl p ↦ rw (p, next-digit 0 n (ltb→lt n 10 p) (omega arith)) (ap some (omega arith))
  | inr p ↦
      rw
        (
          p,
          parse-append (digits_of fuel (n / 10)) 0 (b'0' + n % 10),
          parse-digits_of fuel (n / 10) (omega (arith, h, pow-suc 10 fuel)) (omega arith),
          next-digit (n / 10) (n % 10) (omega arith) (omega arith),
        )
        (ap some (omega arith))
]

all-digits_of : (fuel n : ℕ) → all is_digit (digits_of fuel n) ≡ true
unfolding digits_of is_digit
all-digits_of zero n = refl
all-digits_of (suc fuel) n = elim (Bool-cases (ltb n 10)) [
  | inl p ↦ rw p (ground (arith, ltb→lt n 10 p))
  | inr p ↦ rw p (
      all-append is_digit (digits_of fuel (n / 10)) ((b'0' + n % 10) ∷ [])
        (all-digits_of fuel (n / 10)) (ground arith))
]

hex_of_digits : (s : Bytes) → all is_digit s ≡ true → all is_ascii_hexdigit s ≡ true
unfolding is_digit is_ascii_hexdigit
hex_of_digits [] h = refl
hex_of_digits (b ∷ s) h = ground (arith, hex_of_digits s)

no_sign : (s : Bytes) (n : ℕ) → all is_digit s ≡ true → s ≢ [] → parse_u64 s ≡ parse_digits 0 s
unfolding parse_u64 is_digit
no_sign [] n h e = absurd (e refl)
no_sign (b ∷ s) n h e = ground arith

-- There is a digit.
count : (fuel n : ℕ) → 1 ≤ length (digits_of (suc fuel) n)
unfolding digits_of
count fuel n = ground (arith, length-append (digits_of fuel (n / 10)) ((b'0' + n % 10) ∷ []))

filled : (fuel n : ℕ) → digits_of (suc fuel) n ≢ []
filled fuel n e = absurd (omega (arith, count fuel n, ap length e))

-- A sequence number below 2^64 that is printed in decimal reads back as that number.
pub parse-u64_to_string : (n : ℕ) → n < 2 ^ 64 → parse_u64 (trim (u64_to_string n)) ≡ some n
unfolding u64_to_string
parse-u64_to_string n h =
    rw
      (
        trim_id (digits_of 20 n) (hex_of_digits (digits_of 20 n) (all-digits_of 20 n)),
        no_sign (digits_of 20 n) n (all-digits_of 20 n) (filled 19 n),
      )
      (parse-digits_of 20 n (omega (arith, h)) h)
