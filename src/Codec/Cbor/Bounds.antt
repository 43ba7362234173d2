-- ===== src/Codec/Cbor/Bounds.antt =====
-- `Cursor::take` of src/codec.rs at every length: a slice, an error, or a panic.
use soal.Base.{
  ℕ, ◌+◌, ◌^◌, ◌≤◌, ◌<◌, ◌≡◌, arith, length, take, drop, ok, err, panic, SoalError, Message,
}
use soal.Codec.Cbor.{Cursor, take_n}

-- With the position inside a slice shorter than 2^63 bytes, and a length n below 2^64: take returns
-- the next n bytes and moves on by n where the slice has them; it is an error where the slice is
-- too short and the sum of position and n is below 2^64; it panics where that sum is 2^64 or more.
pub take_n_lem :
    (n : ℕ) (c : Cursor)
    → c.pos ≤ length c.bytes
    → length c.bytes < 2 ^ 63
    → n < 2 ^ 64
    → (c.pos + n ≤ length c.bytes
        → take_n n c ≡ ok (take n (drop c.pos c.bytes), record c { pos = c.pos + n }))
      × (length c.bytes < c.pos + n
          → c.pos + n < 2 ^ 64
          → take_n n c ≡ err (SoalError.verify (Message.text "CBOR truncated")))
      × (2 ^ 64 ≤ c.pos + n → take_n n c ≡ panic)
unfolding take_n
take_n_lem n c p s h = (λ a. ground arith, λ a b. ground arith, λ a. ground arith)
