-- ===== src/Codec/Cbor.antt =====
-- src/codec.rs, lines 86 to 215: the CBOR writers, which append to a buffer, and the cursor that
-- reads a byte slice. A writer is a function of the buffer; `buf ▷ write` calls it.
pub mod Items
pub mod Numbers
pub mod Reads
pub mod Unique
pub mod Bounds
pub mod Sequence
pub mod Returns
use soal.Base.{
  ℕ, zero, suc, ◌+◌, ◌*◌, ◌/◌, ◌%◌, ◌^◌, Bool, not, Bytes, List, [], ◌∷◌, ◌++◌, String, ltb, ◌==◌,
  if◌then◌else◌, length, take, drop, be_bytes, from_be, bit_and, bit_or, Result, ok, err, panic,
  SoalError, Message, reject,
}
use soal.Base
use soal.Codec.Utf8.{is_utf8}

infixl 40 ◌▷◌
abbrev pub ◌▷◌ {ℓ} : {A : Type ℓ} → A → (A → A) → A
buf ▷ write = write buf

-- `(major << 5) | low` on a `u8`.
unfoldable pub initial_byte : ℕ → ℕ → ℕ
initial_byte major low = bit_or (major * 32 % 256) low

unfoldable pub push_uint : ℕ → ℕ → Bytes → Bytes
push_uint major v buf =
    if ltb v 24
    then buf ++ (initial_byte major (v % 256) ∷ [])
    else if ltb v 256
    then buf ++ (initial_byte major 24 ∷ []) ++ (v % 256 ∷ [])
    else if ltb v (2 ^ 16)
    then buf ++ (initial_byte major 25 ∷ []) ++ be_bytes 2 (v % 2 ^ 16)
    else if ltb v (2 ^ 32)
    then buf ++ (initial_byte major 26 ∷ []) ++ be_bytes 4 (v % 2 ^ 32)
    else buf ++ (initial_byte major 27 ∷ []) ++ be_bytes 8 v

unfoldable pub write_u64 : ℕ → Bytes → Bytes
write_u64 v buf = push_uint 0 v buf

-- `data.len() as u64`: a `usize` has 64 bits.
unfoldable pub write_bstr : Bytes → Bytes → Bytes
write_bstr bytes buf = push_uint 2 (length bytes) buf ++ bytes

unfoldable pub write_tstr : Bytes → Bytes → Bytes
write_tstr s buf = push_uint 3 (length s) buf ++ s

unfoldable pub write_array_header : ℕ → Bytes → Bytes
write_array_header len buf = push_uint 4 len buf

unfoldable pub write_map_header : ℕ → Bytes → Bytes
write_map_header len buf = push_uint 5 len buf

-- `data` is a reserved word here.
pub record Cursor : Type 0 where
  pub bytes : Bytes
  pub pos : ℕ

unfoldable pub Cursor_new : Bytes → Cursor
Cursor_new bytes = record { bytes = bytes; pos = 0 }

-- A method on `&mut Cursor`.
abbrev pub Reader {ℓ} : Type ℓ → Type ℓ
Reader A = Cursor → Result (A × Cursor)

infixl 5 ◌>>=◌ ◌>>◌
unfoldable pub ◌>>=◌ {ℓ κ} : {A : Type ℓ} {B : Type κ} → Reader A → (A → Reader B) → Reader B
◌>>=◌ m f c = Base.◌>>=◌ (m c) λ (a, c'). f a c'

unfoldable pub pure {ℓ} : {A : Type ℓ} → A → Reader A
pure a c = ok (a, c)

unfoldable pub lift {ℓ} : {A : Type ℓ} → Result A → Reader A
lift r c = Base.◌>>=◌ r λ a. ok (a, c)

abbrev pub ◌>>◌ {ℓ} : {B : Type ℓ} → Reader (Unit {0}) → Reader B → Reader B
m >> k = m >>= λ _. k

unfoldable pub fail {ℓ} : {A : Type ℓ} → Message → Reader A
fail m c = err (SoalError.verify m)

-- `pos + n` wraps in a release build, and then the slice is out of order: a panic. (A debug build
-- panics at the addition.)
unfoldable pub take_n : ℕ → Reader Bytes
take_n n c =
    let end = (c.pos + n) % 2 ^ 64 in
    if ltb (length c.bytes) end
    then err (SoalError.verify (Message.text "CBOR truncated"))
    else if ltb end c.pos
    then panic
    else ok (take n (drop c.pos c.bytes), record c { pos = end })

-- `self.take(1)?[0]`
unfoldable pub head_byte : Bytes → Reader ℕ
head_byte [] c = panic
head_byte (b ∷ bs) c = ok (b, c)

unfoldable pub take_u8 : Reader ℕ
take_u8 = do bytes ← take_n 1; head_byte bytes

-- The value behind the additional information of an initial byte.
unfoldable pub read_argument : ℕ → Reader ℕ
read_argument ai =
    if ltb ai 24
    then pure ai
    else if ai == 24
    then take_u8
    else if ai == 25
    then (do x ← take_n 2; pure (from_be 0 x))
    else if ai == 26
    then (do x ← take_n 4; pure (from_be 0 x))
    else if ai == 27
    then (do x ← take_n 8; pure (from_be 0 x))
    else fail (Message.text "indefinite/reserved CBOR not allowed")

unfoldable pub read_uint : Reader (ℕ × ℕ)
read_uint = do b ← take_u8; v ← read_argument (bit_and b 0x1f); pure (b / 32, v)

unfoldable pub expect_major_uint : ℕ → Reader ℕ
expect_major_uint want_major = do
  (major, v) ← read_uint
  lift (
      reject (not (major == want_major)) (
        SoalError.verify (
          Message.numbers "CBOR major type {major}, expected {want_major}"
            (major ∷ want_major ∷ []))))
  pure v

unfoldable pub read_bstr : Reader Bytes
read_bstr = do len ← expect_major_uint 2; take_n len

unfoldable pub read_tstr : Reader Bytes
read_tstr = do
  len ← expect_major_uint 3
  bytes ← take_n len
  lift (reject (not (is_utf8 bytes)) (SoalError.verify (Message.text "CBOR tstr not UTF-8")))
  pure bytes

unfoldable pub read_array_header : Reader ℕ
read_array_header = expect_major_uint 4

unfoldable pub read_map_header : Reader ℕ
read_map_header = expect_major_uint 5

unfoldable pub read_u64_value : Reader ℕ
read_u64_value = expect_major_uint 0

unfoldable pub finish : Reader (Unit {0})
finish c =
    Base.◌>>=◌
      (reject (not (c.pos == length c.bytes))
        (SoalError.verify (Message.text "trailing CBOR bytes")))
      λ _. ok (tt, c)
