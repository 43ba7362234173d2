-- ===== src/Content.antt =====
-- src/lib.rs: `ContentHash`, and what the program takes from the crates blake3 and hex.
mod Equal
pub mod Text
pub mod Hex
pub use Equal.{bytes_eq_iff, bytes_eq_refl, bytes_ltb_irrefl, bytes_ltb_trans, bytes_ltb_eq}
unfoldable pub use Equal.{bytes_eq, bytes_ltb}
use Prim.Native.Char.{code}
use Prim.Native.String
use soal.Base.{ℕ, ◌<◌, ◌≡◌, Bytes, List, [], ◌∷◌, String, length, All}

-- The UTF-8 bytes of an ASCII text.
abbrev pub codes : String → Bytes
codes String.[] = []
codes (String.◌∷◌ c s) = code c ∷ codes s

-- The 32 bytes of a hash.
abbrev pub ContentHash : Type 0
ContentHash = Bytes

abbrev pub IsBytes : Bytes → Type 0
IsBytes = All (λ b. b < 256)

-- A fixed-size array `[u8; n]`.
pub record IsArray (n : ℕ) (bs : Bytes) : Type 0 where
  pub size : length bs ≡ n
  pub bytes : IsBytes bs

-- The hash function of the crate blake3: 32 bytes for any input.
pub record Blake3 : Type 0 where
  pub hash : Bytes → Bytes
  pub hash-IsArray : (bs : Bytes) → IsArray 32 (hash bs)
