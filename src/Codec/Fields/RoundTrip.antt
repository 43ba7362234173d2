-- ===== src/Codec/Fields/RoundTrip.antt =====
-- Arrays of a fixed size and lists of hashes of src/codec.rs, as the bytes that are written and read.
use soal.Base.{
  ℕ, suc, ◌*◌, ◌^◌, ◌<◌, ◌≡◌, refl, sym, ap, ◌∙◌, subst, Bytes, List, [], ◌∷◌, ◌++◌, String,
  append_assoc, append-nil, arith, length, ok, All, Option,
}
use soal.Content.{ContentHash}
use soal.Codec.Cbor.{Reader, ◌>>=◌, pure, lift, write_bstr}
use soal.Codec.Cbor.Reads.{Reads, >>=-Reads, >>=-Reads_pure, pure-Reads, lift-Reads}
use soal.Codec.Cbor.Items.{bstr, write_bstr-append, bstr-Reads}
use soal.Codec.Fields.{read_fixed, with_capacity, read_hashes, write_hashes, repeat, key_order}

pub fixed-Reads :
    (n : ℕ) (m : String) (s : Bytes) → length s ≡ n → n < 2 ^ 64 → Reads (read_fixed n m) (bstr s) s
unfolding read_fixed
fixed-Reads n m s e h =
    >>=-Reads_pure _ (bstr-Reads s (omega arith)) (λ c. unfold pure lift ◌>>=◌ in ground arith)

unfoldable pub hashes : List ContentHash → Bytes
hashes [] = []
hashes (h ∷ hs) = bstr h ++ hashes hs

pub write_hashes-append :
    (hs : List ContentHash) (buf : Bytes) → write_hashes hs buf ≡ buf ++ hashes hs
unfolding write_hashes hashes
write_hashes-append [] buf = sym (append-nil buf)
write_hashes-append (h ∷ hs) buf =
    write_hashes-append hs (write_bstr h buf)
    ∙ ap (λ b. b ++ hashes hs) (write_bstr-append h buf)
    ∙ append_assoc buf (bstr h) (hashes hs)

abbrev pub AreHashes : List ContentHash → Type 0
AreHashes = All (λ h. length h ≡ 32)

pub hashes-Reads :
    (m : String) (hs out : List ContentHash)
    → AreHashes hs
    → Reads (read_hashes m (length hs) out) (hashes hs) (out ++ hs)
unfolding read_hashes hashes
hashes-Reads m [] out a = rw append-nil (pure-Reads out)
hashes-Reads m (h ∷ hs) out (e, a) = >>=-Reads _ (fixed-Reads 32 m h e (omega arith)) (
    subst (λ l. Reads (read_hashes m (length hs) (out ++ h ∷ [])) (hashes hs) l)
      (append_assoc out (h ∷ []) hs) (hashes-Reads m hs (out ++ h ∷ []) a))

pub with_capacity-Reads : (n : ℕ) → n * 32 < 2 ^ 63 → Reads (with_capacity n) [] tt
unfolding with_capacity
with_capacity-Reads n h = record { at = λ c t r. (c, ground arith, r) }

module _ {S : Type 0} (round : S → Reader S) where
  pub last_round : (f : S) {g : S} {s : Bytes} → Reads (round f) s g → Reads (repeat round 1 f) s g
  unfolding repeat
  last_round f r = >>=-Reads_pure _ r (λ c. unfold pure in refl)

  pub next_round :
      (n : ℕ) (f : S) {g h : S} {s t : Bytes}
      → Reads (round f) s g
      → Reads (repeat round n g) t h
      → Reads (repeat round (suc n) f) (s ++ t) h
  unfolding repeat
  next_round n f r q = >>=-Reads _ r q

-- The key of a round, in order, before its value.
pub key-Reads {ℓ} :
    {A : Type ℓ} (m : String) (last : Option ℕ) (k : ℕ) (rest : Reader A) {s : Bytes} {a : A}
    → key_order m last k ≡ ok tt
    → Reads rest s a
    → Reads (lift (key_order m last k) >>= λ _. rest) s a
key-Reads m last k rest o r =
    >>=-Reads _ {s = []} (subst (λ t. Reads (lift t) [] tt) (sym o) (lift-Reads tt)) r
