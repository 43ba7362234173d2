-- ===== src/Codec/Fields.antt =====
-- The pieces of src/codec.rs that the decoders share: arrays of a fixed size, lists of hashes, and
-- the order of map keys.
pub mod RoundTrip
use soal.Base.{
  ℕ, zero, suc, ◌+◌, ◌-◌, ◌*◌, ◌^◌, Bool, not, Bytes, List, [], ◌∷◌, ◌++◌, String, ltb, leb, ◌==◌,
  if◌then◌else◌, length, Option, none, some, Result, ok, err, panic, SoalError, Message, reject,
}
use soal.Content.{ContentHash}
use soal.Codec.Cbor.{Reader, ◌>>=◌, ◌>>◌, pure, lift, fail, read_bstr, write_bstr}

abbrev pub verify : String → SoalError
verify m = SoalError.verify (Message.text m)

-- `let b = cur.read_bstr()?; if b.len() != n { return Err(..) }` and the copy into `[u8; n]`.
unfoldable pub read_fixed : ℕ → String → Reader Bytes
read_fixed n m = do b ← read_bstr; lift (reject (not (length b == n)) (verify m)); pure b

-- `Vec::with_capacity(n)` of 32-byte elements panics where they take more than `isize::MAX` bytes.
unfoldable pub with_capacity : ℕ → Reader (Unit {0})
with_capacity n c = if ltb (2 ^ 63 - 1) (n * 32) then panic else ok (tt, c)

-- The loop that pushes `n` hashes to `out`.
unfoldable pub read_hashes : String → ℕ → List ContentHash → Reader (List ContentHash)
read_hashes m zero out = pure out
read_hashes m (suc n) out = do h ← read_fixed 32 m; read_hashes m n (out ++ h ∷ [])

-- `if let Some(prev) = last_k { if k <= prev { return Err(..) } }`
unfoldable pub key_order : String → Option ℕ → ℕ → Result (Unit {0})
key_order m none k = ok tt
key_order m (some prev) k = reject (leb k prev) (verify m)

-- `for c in chunks { write_bstr(&mut buf, c.as_bytes()); }`
unfoldable pub write_hashes : List ContentHash → Bytes → Bytes
write_hashes [] buf = buf
write_hashes (h ∷ hs) buf = write_hashes hs (write_bstr h buf)

-- `for _ in 0..n { .. }`, with the variables of the loop as the state.
unfoldable pub repeat : {S : Type 0} → (S → Reader S) → ℕ → S → Reader S
repeat round zero s = pure s
repeat round (suc n) s = do s' ← round s; repeat round n s'

-- `x.ok_or_else(|| ..)?`
abbrev pub ok_or {ℓ} : {A : Type ℓ} → Option A → String → Result A
ok_or none m = err (verify m)
ok_or (some a) m = ok a
