-- ===== src/Examples/Crates.antt =====
-- Stand-ins for the crates that the code calls: a hash that tells lengths apart, and hex digits.
use soal.Base.{
  ℕ, ◌+◌, ◌-◌, ◌*◌, ◌/◌, ◌%◌, ◌<◌, ◌≡◌, refl, subst, true, Bytes, [], ◌∷◌, length, all, replicate,
  ltb, if◌then◌else◌, Option, none, some, arith,
}
use soal.Content.{Blake3, IsBytes, IsArray}
use soal.Content.Hex.{HexCrate, is_ascii_hexdigit}

abbrev digit : ℕ → ℕ
digit n = if ltb n 10 then b'0' + n else 0x57 + n

abbrev value : ℕ → ℕ
value c = if ltb c 0x3a then c - b'0' else c - 0x57

unfoldable pub encode : Bytes → Bytes
encode [] = []
encode (b ∷ bs) = digit (b / 16 % 16) ∷ digit (b % 16) ∷ encode bs

abbrev push : ℕ → Option Bytes → Option Bytes
push b none = none
push b (some bs) = some (b ∷ bs)

unfoldable pub decode : Bytes → Option Bytes
decode [] = some []
decode (h ∷ []) = none
decode (h ∷ l ∷ s) = let rest = decode s in push ((value h * 16 + value l) % 256) rest

pub length-encode_lem : (bs : Bytes) → length (encode bs) ≡ 2 * length bs
unfolding encode
length-encode_lem [] = refl
length-encode_lem (b ∷ bs) = omega (arith, length-encode_lem bs)

digit_is_hex : (n : ℕ) → n < 16 → is_ascii_hexdigit (digit n) ≡ true
unfolding is_ascii_hexdigit
digit_is_hex n h = ground arith

pub encode_digits_lem : (bs : Bytes) → all is_ascii_hexdigit (encode bs) ≡ true
unfolding encode
encode_digits_lem [] = refl
encode_digits_lem (b ∷ bs) =
    rw (digit_is_hex (b / 16 % 16) (omega arith), digit_is_hex (b % 16) (omega arith))
      (encode_digits_lem bs)

value-digit : (n : ℕ) → n < 16 → value (digit n) ≡ n
value-digit n h = ground arith

pub decode-encode_lem : (bs : Bytes) → IsBytes bs → decode (encode bs) ≡ some bs
unfolding encode decode
decode-encode_lem [] h = refl
decode-encode_lem (b ∷ bs) (p, h) =
    let e : (value (digit (b / 16 % 16)) * 16 + value (digit (b % 16))) % 256 ≡ b =
      omega
        (arith, p, value-digit (b / 16 % 16) (omega arith), value-digit (b % 16) (omega arith)) in
    rw (decode-encode_lem bs h, e) refl

pub decode_IsBytes_lem : (s bs : Bytes) → decode s ≡ some bs → IsBytes bs
unfolding decode
decode_IsBytes_lem [] bs e = subst IsBytes (some_injective e) tt
  where
    some_injective : {x y : Bytes} → some x ≡ some y → x ≡ y
    some_injective e = cc
decode_IsBytes_lem (h ∷ []) bs e = absurd cc
decode_IsBytes_lem (h ∷ l ∷ s) bs e = go (decode s) (λ rest p. decode_IsBytes_lem s rest p) e
  where
    some_injective : {x y : Bytes} → some x ≡ some y → x ≡ y
    some_injective e = cc

    go :
        (o : Option Bytes)
        → ((rest : Bytes) → o ≡ some rest → IsBytes rest)
        → push ((value h * 16 + value l) % 256) o ≡ some bs
        → IsBytes bs
    go none ih q = absurd cc
    go (some rest) ih q = subst IsBytes (some_injective q) (omega arith, ih rest refl)

abbrev pub hex : HexCrate
hex = record {
  encode = encode;
  decode = decode;
  length-encode = length-encode_lem;
  encode_digits = encode_digits_lem;
  decode-encode = decode-encode_lem;
  decode-IsBytes = decode_IsBytes_lem;
}

abbrev pub sum_hash : Bytes → Bytes
sum_hash bs = (length bs % 256) ∷ replicate 31 0

pub sum_hash-IsArray : (bs : Bytes) → IsArray 32 (sum_hash bs)
sum_hash-IsArray bs = record { size = refl; bytes = (omega arith, omega arith) }

abbrev pub blake3 : Blake3
blake3 = record { hash = sum_hash; hash-IsArray = sum_hash-IsArray }
