-- ===== src/Base/Words.antt =====
-- Bytes and big-endian words. A byte is a number below 256, a byte string a list of such.
use Prim.Native.Nat.{ℕ, zero, suc, ◌+◌, ◌*◌, ◌/◌, ◌%◌, ◌^◌}
use mathlib.Core.Path.{◌≡◌, refl, sym, ap, ◌∙◌}
use mathlib.Core.List.{List, [], ◌∷◌}
use native.Mathlib.Omega.{arith}
use native.Mathlib.Nat.{pow-suc, div-add-mod, div-div-eq-div-mul}
use soal.Base.Lists.{length}

abbrev pub Bytes : Type 0
Bytes = List ℕ

-- The `k` low bytes of `v`, highest first: `to_be_bytes` of a `k`-byte word.
unfoldable pub be_bytes : ℕ → ℕ → Bytes
be_bytes zero v = []
be_bytes (suc k) v = (v / 256 ^ k % 256) ∷ be_bytes k v

-- `from_be_bytes`, with the number read so far in front.
unfoldable pub from_be : ℕ → Bytes → ℕ
from_be acc [] = acc
from_be acc (b ∷ bs) = from_be (acc * 256 + b) bs

pub length-be_bytes : (k v : ℕ) → length (be_bytes k v) ≡ k
unfolding be_bytes
length-be_bytes zero v = refl
length-be_bytes (suc k) v = ap suc (length-be_bytes k v)

split_word : (v p q : ℕ) → q ≡ p * 256 → v % q ≡ v / p % 256 * p + v % p
split_word v p q e = omega (
  arith,
  div-add-mod v q,
  div-add-mod v p,
  ap (λ (t : ℕ). p * t) (div-add-mod (v / p) 256),
  ap (λ (t : ℕ). t * (v / p / 256)) e,
  ap (λ (t : ℕ). q * t) (div-div-eq-div-mul v p 256 ∙ ap (λ (t : ℕ). v / t) (sym e)),
)

pub from_be-be_bytes : (k acc v : ℕ) → from_be acc (be_bytes k v) ≡ acc * 256 ^ k + v % 256 ^ k
unfolding be_bytes from_be
from_be-be_bytes zero acc v = omega arith
from_be-be_bytes (suc k) acc v = omega (
  arith,
  from_be-be_bytes k (acc * 256 + v / 256 ^ k % 256) v,
  split_word v (256 ^ k) (256 ^ suc k) (pow-suc 256 k),
  ap (λ (t : ℕ). acc * t) (pow-suc 256 k),
)
