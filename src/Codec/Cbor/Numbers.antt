-- ===== src/Codec/Cbor/Numbers.antt =====
-- The five forms of a number of src/codec.rs: `push_uint` and `read_uint`.
use soal.Base.{
  ℕ, ◌+◌, ◌*◌, ◌/◌, ◌%◌, ◌^◌, ◌<◌, ◌≡◌, refl, ◌∙◌, sym, ap, false, Bool-cases, ltb→lt, lt→ltb, inl,
  inr, ok, true, Bytes, [], ◌∷◌, ◌++◌, append_assoc, arith, ltb, ◌==◌, ==_iff, be_bytes, from_be,
  length-be_bytes, from_be-be_bytes, subst, bit_and, passes_under, passes_under_lem,
}
use mathlib.Core.Path.{ap₂}
use native.Mathlib.Nat.{mod-eq_of_lt}
use soal.Codec.Cbor.{
  push_uint, initial_byte, take_n, read_argument, read_uint, expect_major_uint, pure, ◌>>=◌, lift,
}
use soal.Codec.Cbor.Reads.{
  Reads, take_n-Reads, take_u8-Reads, >>=-Reads, >>=-Reads_pure, pure-Reads,
}

initial_byte_table : passes_under (λ b. initial_byte (b / 32) (b % 32) == b) 256 ≡ true
unfolding passes_under initial_byte
initial_byte_table = refl

low_bits_table : passes_under (λ b. bit_and b 0x1f == b % 32) 256 ≡ true
unfolding passes_under
low_bits_table = refl

pub initial_byte-eq : (m l : ℕ) → m < 8 → l < 32 → initial_byte m l ≡ m * 32 + l
initial_byte-eq m l hm hl =
    let b : ℕ = m * 32 + l in
    let e : initial_byte (b / 32) (b % 32) ≡ b =
      (==_iff _ b).0 (passes_under_lem _ 256 initial_byte_table b (omega arith)) in
    let p : b / 32 ≡ m = omega arith in
    let q : b % 32 ≡ l = omega arith in ap₂ initial_byte (sym p) (sym q) ∙ e

low_bits : (b : ℕ) → b < 256 → bit_and b 0x1f ≡ b % 32
low_bits b h = (==_iff _ (b % 32)).0 (passes_under_lem _ 256 low_bits_table b h)

-- `push_uint` appends. The buffer is split off in one form at a time.
pub push_uint-append : (m v : ℕ) (buf : Bytes) → push_uint m v buf ≡ buf ++ push_uint m v []
unfolding push_uint
push_uint-append m v buf = ground (
  arith,
  append_assoc buf (initial_byte m 24 ∷ []) (v % 256 ∷ []),
  append_assoc buf (initial_byte m 25 ∷ []) (be_bytes 2 (v % 2 ^ 16)),
  append_assoc buf (initial_byte m 26 ∷ []) (be_bytes 4 (v % 2 ^ 32)),
  append_assoc buf (initial_byte m 27 ∷ []) (be_bytes 8 v),
)

-- The argument that stands in `s` behind an initial byte with the low bits `ai`.
abbrev Argument : ℕ → Bytes → ℕ → Type 0
Argument ai s v = Reads (read_argument ai) s v

mod_word : (k v : ℕ) → v < 256 ^ k → 0 * 256 ^ k + v % 256 ^ k ≡ v
mod_word k v h = grind (arith, mod-eq_of_lt)

word-Reads : (k v : ℕ) → v < 256 ^ k → Reads (take_n k >>= λ x. pure (from_be 0 x)) (be_bytes k v) v
unfolding pure
word-Reads k v h =
    >>=-Reads_pure _
      (subst (λ n. Reads (take_n n) (be_bytes k v) (be_bytes k v)) (length-be_bytes k v)
        (take_n-Reads (be_bytes k v)))
      (λ c. ap (λ n. ok (n, c)) (from_be-be_bytes k 0 v ∙ mod_word k v h))

-- The form that `push_uint` chooses for `v`: the additional information and the bytes behind it.
record Form (m v : ℕ) : Type 0 where
  info : ℕ
  rest : Bytes
  written : push_uint m v [] ≡ initial_byte m info ∷ rest
  small : info < 32
  reads : Reads (read_argument info) rest v

direct : (v : ℕ) → v < 24 → Reads (read_argument (v % 256)) [] v
unfolding read_argument
direct v h = let e : v % 256 ≡ v = omega arith in rw (e, lt→ltb v 24 h) (pure-Reads v)

one_byte : (v : ℕ) → v < 256 → Reads (read_argument 24) (v % 256 ∷ []) v
unfolding read_argument
one_byte v h = let e : v % 256 ≡ v = omega arith in rw e (take_u8-Reads v)

two_bytes : (v : ℕ) → v < 2 ^ 16 → Reads (read_argument 25) (be_bytes 2 (v % 2 ^ 16)) v
unfolding read_argument
two_bytes v h = let e : v % 2 ^ 16 ≡ v = omega arith in rw e (word-Reads 2 v h)

four_bytes : (v : ℕ) → v < 2 ^ 32 → Reads (read_argument 26) (be_bytes 4 (v % 2 ^ 32)) v
unfolding read_argument
four_bytes v h = let e : v % 2 ^ 32 ≡ v = omega arith in rw e (word-Reads 4 v h)

eight_bytes : (v : ℕ) → v < 2 ^ 64 → Reads (read_argument 27) (be_bytes 8 v) v
unfolding read_argument
eight_bytes v h = word-Reads 8 v h

wide_form :
    (m v : ℕ)
    → v < 2 ^ 64
    → ltb v 24 ≡ false
    → ltb v 256 ≡ false
    → ltb v (2 ^ 16) ≡ false
    → Form m v
unfolding push_uint
wide_form m v h p q r = elim (Bool-cases (ltb v (2 ^ 32))) [
  | inl s ↦ record {
    info = 26;
    rest = be_bytes 4 (v % 2 ^ 32);
    written = rw (p, q, r, s);
    small = omega arith;
    reads = four_bytes v (ltb→lt _ _ s);
  }
  | inr s ↦ record {
    info = 27;
    rest = be_bytes 8 v;
    written = rw (p, q, r, s);
    small = omega arith;
    reads = eight_bytes v h;
  }
]

form : (m v : ℕ) → v < 2 ^ 64 → Form m v
unfolding push_uint
form m v h = elim (Bool-cases (ltb v 24)) [
  | inl p ↦ record {
    info = v % 256;
    rest = [];
    written = rw p;
    small = ground arith;
    reads = direct v (ltb→lt _ _ p);
  }
  | inr p ↦ elim (Bool-cases (ltb v 256)) [
    | inl q ↦ record {
      info = 24;
      rest = v % 256 ∷ [];
      written = rw (p, q);
      small = omega arith;
      reads = one_byte v (ltb→lt _ _ q);
    }
    | inr q ↦ elim (Bool-cases (ltb v (2 ^ 16))) [
      | inl r ↦ record {
        info = 25;
        rest = be_bytes 2 (v % 2 ^ 16);
        written = rw (p, q, r);
        small = omega arith;
        reads = two_bytes v (ltb→lt _ _ r);
      }
      | inr r ↦ wide_form m v h p q r
    ]
  ]
]

-- What `read_uint` makes of a whole form.
read_form :
    (m i : ℕ) (s : Bytes) (v : ℕ)
    → m < 8
    → i < 32
    → Reads (read_argument i) s v
    → Reads read_uint (initial_byte m i ∷ s) (m, v)
unfolding read_uint
read_form m i s v hm hi r =
    let e : initial_byte m i ≡ m * 32 + i = initial_byte-eq m i hm hi in
    let low : bit_and (m * 32 + i) 0x1f ≡ i = low_bits _ (omega arith) ∙ omega arith in
    let high : (m * 32 + i) / 32 ≡ m = omega arith in
    rw e (
      >>=-Reads _ (take_u8-Reads (m * 32 + i))
        (>>=-Reads_pure _ {a = v} (rw low r) (λ c. unfold pure in rw high)))

-- `read_uint` takes off exactly what `push_uint` wrote, whatever follows.
pub push_uint-Reads : (m v : ℕ) → m < 8 → v < 2 ^ 64 → Reads read_uint (push_uint m v []) (m, v)
push_uint-Reads m v hm hv =
    let f : Form m v = form m v hv in rw f.written (read_form m f.info f.rest v hm f.small f.reads)

-- For a major type below 8 and a number below 2^64, expect_major_uint reads the bytes that
-- push_uint writes, whatever follows them on a slice shorter than 2^63 bytes, and returns the
-- number.
pub expect_major_uint-Reads :
    (m v : ℕ) → m < 8 → v < 2 ^ 64 → Reads (expect_major_uint m) (push_uint m v []) v
unfolding expect_major_uint
expect_major_uint-Reads m v hm hv =
    >>=-Reads_pure _ (push_uint-Reads m v hm hv) (λ c. unfold pure lift ◌>>=◌ in ground arith)
