-- ===== src/Base/Outcome.antt =====
-- src/lib.rs, lines 131 to 158: `SoalError`, and the outcome of code that returns it.
use Prim.Native.Nat.{ℕ}
use Prim.Native.String.{String}
use mathlib.Core.Path.{◌≡◌, refl}
use mathlib.Core.List.{List}
use mathlib.Core.Bool.{Bool, true, false}

-- The text of a message: fixed, with numbers put in, or with a text put in.
pub data Message : Type 0 where
  text : String → Message
  numbers : String → List ℕ → Message
  about : String → List ℕ → Message

-- `HashMismatch` holds the two hashes, of which the source keeps the hex digits.
pub data SoalError : Type 0 where
  io serde crypto other invalid_path verify vault_not_found : Message → SoalError
  invalid_hash : SoalError
  hash_mismatch : List ℕ → List ℕ → SoalError
  chunk_not_found commit_not_found tree_not_found cid_collision : List ℕ → SoalError

-- `panic` is an abort of the thread, by a slice out of range or an allocation that is too large.
pub data Result {ℓ} (A : Type ℓ) : Type ℓ where
  ok : A → Result A
  err : SoalError → Result A
  panic : Result A

-- `r?`, with the rest of the function as `next`.
infixl 5 ◌>>=◌ ◌>>◌
abbrev pub ◌>>=◌ {ℓ κ} : {X : Type ℓ} {Y : Type κ} → Result X → (X → Result Y) → Result Y
panic >>= next = panic
err error >>= next = err error
ok value >>= next = next value

abbrev pub ◌>>◌ {ℓ} : {Y : Type ℓ} → Result (Unit {0}) → Result Y → Result Y
first >> rest = first >>= λ _. rest

-- `if bad { return Err(e) }`
abbrev pub reject : Bool → SoalError → Result (Unit {0})
reject true e = err e
reject false e = ok tt

-- A chain that returns a value has returned one at its first step.
pub >>=-ok {ℓ κ} :
    {X : Type ℓ} {Y : Type κ} (first : Result X) (next : X → Result Y) {y : Y}
    → (first >>= next) ≡ ok y
    → (x : X) × (first ≡ ok x) × (next x ≡ ok y)
>>=-ok panic next e = cc
>>=-ok (err error) next e = cc
>>=-ok (ok x) next e = (x, refl, e)

pub ok_injective {ℓ} : {X : Type ℓ} {x y : X} → ok x ≡ ok y → x ≡ y
ok_injective e = cc
