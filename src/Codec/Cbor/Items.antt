-- ===== src/Codec/Cbor/Items.antt =====
-- Strings, headers and the other items of src/codec.rs: their bytes, and their readers.
use soal.Base.{
  ℕ, ◌+◌, ◌*◌, ◌^◌, ◌≤◌, ◌<◌, ◌≡◌, refl, ◌∙◌, sym, ap, true, Bytes, [], ◌∷◌, ◌++◌, append_assoc,
  arith, length, length-append,
}
use soal.Codec.Utf8.{is_utf8}
use soal.Codec.Cbor.{
  write_u64, write_bstr, write_tstr, write_array_header, write_map_header, read_bstr, read_tstr,
  read_array_header, read_map_header, read_u64_value, pure, ◌>>=◌, lift,
}
use soal.Codec.Cbor.Reads.{Reads, take_n-Reads, >>=-Reads, >>=-Reads_pure}
use soal.Codec.Cbor.Numbers.{push_uint-append, expect_major_uint-Reads}

-- The bytes of each item.
unfoldable pub u64 : ℕ → Bytes
u64 v = write_u64 v []

unfoldable pub bstr : Bytes → Bytes
bstr s = write_bstr s []

unfoldable pub tstr : Bytes → Bytes
tstr s = write_tstr s []

unfoldable pub array_header : ℕ → Bytes
array_header n = write_array_header n []

unfoldable pub map_header : ℕ → Bytes
map_header n = write_map_header n []

pub write_u64-append : (v : ℕ) (buf : Bytes) → write_u64 v buf ≡ buf ++ u64 v
unfolding write_u64 u64
write_u64-append v buf = push_uint-append 0 v buf

pub write_array_header-append :
    (n : ℕ) (buf : Bytes) → write_array_header n buf ≡ buf ++ array_header n
unfolding write_array_header array_header
write_array_header-append n buf = push_uint-append 4 n buf

pub write_map_header-append : (n : ℕ) (buf : Bytes) → write_map_header n buf ≡ buf ++ map_header n
unfolding write_map_header map_header
write_map_header-append n buf = push_uint-append 5 n buf

pub write_bstr-append : (s buf : Bytes) → write_bstr s buf ≡ buf ++ bstr s
unfolding write_bstr bstr
write_bstr-append s buf = rw (push_uint-append 2 (length s) buf) (append_assoc buf _ s)

pub write_tstr-append : (s buf : Bytes) → write_tstr s buf ≡ buf ++ tstr s
unfolding write_tstr tstr
write_tstr-append s buf = rw (push_uint-append 3 (length s) buf) (append_assoc buf _ s)

-- For `simp`: a chain of writers becomes the bytes of each, in order.
pub ruleset writers = (
  append_assoc, write_u64-append, write_array_header-append, write_map_header-append,
  write_bstr-append, write_tstr-append,
)

pub u64-Reads : (v : ℕ) → v < 2 ^ 64 → Reads read_u64_value (u64 v) v
unfolding read_u64_value u64 write_u64
u64-Reads v h = expect_major_uint-Reads 0 v (omega arith) h

pub array_header-Reads : (n : ℕ) → n < 2 ^ 64 → Reads read_array_header (array_header n) n
unfolding read_array_header array_header write_array_header
array_header-Reads n h = expect_major_uint-Reads 4 n (omega arith) h

pub map_header-Reads : (n : ℕ) → n < 2 ^ 64 → Reads read_map_header (map_header n) n
unfolding read_map_header map_header write_map_header
map_header-Reads n h = expect_major_uint-Reads 5 n (omega arith) h

pub bstr-Reads : (s : Bytes) → length s < 2 ^ 64 → Reads read_bstr (bstr s) s
unfolding read_bstr bstr write_bstr
bstr-Reads s h = >>=-Reads _ (expect_major_uint-Reads 2 (length s) (omega arith) h) (take_n-Reads s)

pub tstr-Reads : (s : Bytes) → length s < 2 ^ 64 → is_utf8 s ≡ true → Reads read_tstr (tstr s) s
unfolding read_tstr tstr write_tstr
tstr-Reads s h u =
    >>=-Reads _ (expect_major_uint-Reads 3 (length s) (omega arith) h)
      (>>=-Reads_pure _ (take_n-Reads s) (λ c. unfold pure lift ◌>>=◌ in ground (arith, u)))
