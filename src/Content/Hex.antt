-- ===== src/Content/Hex.antt =====
-- src/lib.rs, lines 54 to 72: `to_hex` and `from_hex` of a hash, over the crate hex.
use mathlib.Core.List.{reverse-reverse, reverse-cons}
use soal.Base.{
  ℕ, zero, suc, ◌*◌, ◌≡◌, refl, Bool, true, not, ◌&&◌, ◌||◌, Bytes, [], ◌∷◌, ◌++◌, leb, ◌==◌,
  if◌then◌else◌, length, reverse, all, arith, Option, none, some, Result, ok, err, SoalError, ◌>>◌,
  reject,
}
use soal.Content.{ContentHash, IsBytes, IsArray}
use soal.Content.Text.{trim, strip, space_front, space_back}

unfoldable pub is_ascii_hexdigit : ℕ → Bool
is_ascii_hexdigit b =
    (leb b'0' b && leb b b'9') || (leb b'a' b && leb b b'f') || (leb b'A' b && leb b b'F')

-- `hex::encode` and `hex::decode`: two digits for each byte.
pub record HexCrate : Type 0 where
  pub encode : Bytes → Bytes
  pub decode : Bytes → Option Bytes
  pub length-encode : (bs : Bytes) → length (encode bs) ≡ 2 * length bs
  pub encode_digits : (bs : Bytes) → all is_ascii_hexdigit (encode bs) ≡ true
  pub decode-encode : (bs : Bytes) → IsBytes bs → decode (encode bs) ≡ some bs
  pub decode-IsBytes : (s bs : Bytes) → decode s ≡ some bs → IsBytes bs

-- A text that begins and ends with no white space.
digit_no_space :
    (b : ℕ) (s : Bytes)
    → is_ascii_hexdigit b ≡ true
    → (space_front (b ∷ s) ≡ 0) × (space_back (b ∷ s) ≡ 0)
unfolding is_ascii_hexdigit space_front space_back
digit_no_space b [] h = ground arith
digit_no_space b (c ∷ []) h = ground arith
digit_no_space b (c ∷ d ∷ s) h = ground arith

pub all-append :
    (p : ℕ → Bool) (xs ys : Bytes) → all p xs ≡ true → all p ys ≡ true → all p (xs ++ ys) ≡ true
all-append p [] ys h k = k
all-append p (x ∷ xs) ys h k = ground (arith, all-append p xs ys)

all-reverse : (p : ℕ → Bool) (s : Bytes) → all p s ≡ true → all p (reverse s) ≡ true
all-reverse p [] h = refl
all-reverse p (x ∷ s) h =
    rw (reverse-cons x s)
      (all-append p (reverse s) (x ∷ []) (all-reverse p s (ground arith)) (ground arith))

no_space : (s : Bytes) → all is_ascii_hexdigit s ≡ true → (space_front s ≡ 0) × (space_back s ≡ 0)
no_space [] h = unfold space_front space_back in (refl, refl)
no_space (b ∷ s) h = digit_no_space b s (ground arith)

strip_id : (space : Bytes → ℕ) (fuel : ℕ) (s : Bytes) → space s ≡ 0 → strip space fuel s ≡ s
unfolding strip
strip_id space zero s h = refl
strip_id space (suc fuel) s h = rw (h, strip)

-- Trimming leaves hex digits as they are.
pub trim_id : (s : Bytes) → all is_ascii_hexdigit s ≡ true → trim s ≡ s
unfolding trim
trim_id s h =
    rw
      (
        strip_id space_front (length s) s (no_space s h).0,
        strip_id space_back (length s) (reverse s)
            (no_space (reverse s) (all-reverse is_ascii_hexdigit s h)).1,
      )
      (reverse-reverse s)

module _ (hex : HexCrate) where
  unfoldable pub to_hex : ContentHash → Bytes
  to_hex h = hex.encode h

  -- `hex::decode` and the copy into `[u8; 32]`.
  unfoldable pub decode_hash : Bytes → Result ContentHash
  decode_hash s = elim (hex.decode s) [
    | none ↦ err SoalError.invalid_hash
    | some bytes ↦ if length bytes == 32 then ok bytes else err SoalError.invalid_hash
  ]

  unfoldable pub from_hex : Bytes → Result ContentHash
  from_hex text = do
    let s = trim text
    reject (not (length s == 64) || not (all is_ascii_hexdigit s)) SoalError.invalid_hash
    decode_hash s

  decode_hash_inv : (s h : Bytes) → decode_hash s ≡ ok h → (hex.decode s ≡ some h) × (length h ≡ 32)
  unfolding decode_hash
  decode_hash_inv s h e = ground arith

  from_hex_inv : (s h : Bytes) → from_hex s ≡ ok h → decode_hash (trim s) ≡ ok h
  unfolding from_hex
  from_hex_inv s h e = ground arith

  pub from_hex-IsArray : (s h : Bytes) → from_hex s ≡ ok h → IsArray 32 h
  from_hex-IsArray s h e =
      let (d, n) = decode_hash_inv (trim s) h (from_hex_inv s h e) in
      record { size = n; bytes = hex.decode-IsBytes (trim s) h d }

  pub from_hex-to_hex : (h : ContentHash) → IsArray 32 h → from_hex (to_hex h) ≡ ok h
  unfolding from_hex to_hex decode_hash
  from_hex-to_hex h a = ground (
    arith,
    trim_id (hex.encode h) (hex.encode_digits h),
    hex.length-encode h,
    hex.encode_digits h,
    hex.decode-encode h a.bytes,
    a.size,
  )
