-- ===== src/Codec/Cbor/Reads.antt =====
-- What a reader of src/codec.rs takes off the front of the bytes that a cursor has not read yet.
use soal.Base.{
  ℕ, ◌+◌, ◌^◌, ◌<◌, ◌≡◌, refl, sym, ap, ◌∙◌, subst, Bytes, [], ◌∷◌, ◌++◌, append_assoc, append-nil,
  arith, length, take, drop, length-append, take-length_append, drop-length_append, drop-drop, ok,
}
use soal.Codec.Cbor.{
  Cursor, Cursor_new, Reader, ◌>>=◌, pure, take_n, take_u8, finish, lift, head_byte,
}

-- The bytes of `c` from its position on are `s`; no slice is longer than `isize::MAX`.
pub record Remains (c : Cursor) (s : Bytes) : Type 0 where
  pub rest : drop c.pos c.bytes ≡ s
  pub size : c.pos + length s ≡ length c.bytes
  pub small : length c.bytes < 2 ^ 63

-- `m` takes `s` off the front, whatever follows, and returns `a`.
pub record Reads {ℓ} {A : Type ℓ} (m : Reader A) (s : Bytes) (a : A) : Type ℓ where
  pub at :
      (c : Cursor) (t : Bytes)
      → Remains c (s ++ t)
      → (c' : Cursor) × (m c ≡ ok (a, c')) × Remains c' t

pub Remains-new : (s : Bytes) → length s < 2 ^ 63 → Remains (Cursor_new s) s
unfolding Cursor_new
Remains-new s h = record { rest = refl; size = omega arith; small = h }

advance : Cursor → ℕ → Cursor
advance c n = record c { pos = c.pos + n }

advance-Remains : (c : Cursor) (s t : Bytes) → Remains c (s ++ t) → Remains (advance c (length s)) t
unfolding advance
advance-Remains c s t h = record {
  rest =
      sym (drop-drop c.pos (length s) c.bytes)
      ∙ ap (drop (length s)) h.rest
      ∙ drop-length_append s t;
  size = omega (arith, h.size, length-append s t);
  small = h.small;
}

pub take_n-Reads : (s : Bytes) → Reads (take_n (length s)) s s
unfolding take_n advance
take_n-Reads s = record {
  at = λ c t h. (
    advance c (length s),
    ground (
      arith,
      h.size,
      h.small,
      length-append s t,
      ap (take (length s)) h.rest ∙ take-length_append s t,
    ),
    advance-Remains c s t h,
  );
}

module _ {ℓ} {A : Type ℓ} where
  pub pure-Reads : (a : A) → Reads (pure a) [] a
  unfolding pure
  pure-Reads a = record { at = λ c t h. (c, refl, h) }

  pub lift-Reads : (a : A) → Reads (lift (ok a)) [] a
  unfolding lift
  lift-Reads a = record { at = λ c t h. (c, refl, h) }

module _ {ℓ κ} {A : Type ℓ} {B : Type κ} where
  pub >>=-Reads :
      {m : Reader A} (f : A → Reader B) {s t : Bytes} {a : A} {b : B}
      → Reads m s a
      → Reads (f a) t b
      → Reads (m >>= f) (s ++ t) b
  unfolding ◌>>=◌
  >>=-Reads {m} f {s} {t} {a} {b} hm hf = record {
    at = λ c u h.
        let (c', e, h') = hm.at c (t ++ u) (subst (Remains c) (append_assoc s t u) h) in
        let (c'', e', h'') = hf.at c' u h' in (c'', rw e e', h'');
  }

  -- The last step of a block takes no bytes.
  pub >>=-Reads_pure :
      {m : Reader A} (f : A → Reader B) {s : Bytes} {a : A} {b : B}
      → Reads m s a
      → ((c : Cursor) → f a c ≡ ok (b, c))
      → Reads (m >>= f) s b
  unfolding ◌>>=◌
  >>=-Reads_pure f {a = a} hm hf = record {
    at = λ c u h. let (c', e, h') = hm.at c u h in (c', rw e (hf c'), h');
  }

-- A run over a whole slice.
pub finish-Remains : (c : Cursor) → Remains c [] → finish c ≡ ok (tt, c)
unfolding finish
finish-Remains c h = ground (arith, h.size)

pub take_u8-Reads : (b : ℕ) → Reads take_u8 (b ∷ []) b
unfolding take_u8 head_byte
take_u8-Reads b = >>=-Reads_pure _ (take_n-Reads (b ∷ [])) (λ c. refl)

-- `m` reads the whole of `s`, where nothing follows.
pub record Runs {ℓ} {A : Type ℓ} (m : Reader A) (s : Bytes) (a : A) : Type ℓ where
  pub at : (c : Cursor) → Remains c s → (c' : Cursor) × (m c ≡ ok (a, c'))

module _ {ℓ κ} {A : Type ℓ} {B : Type κ} where
  pub >>=-Runs :
      {m : Reader A} (f : A → Reader B) {s t : Bytes} {a : A} {b : B}
      → Reads m s a
      → Runs (f a) t b
      → Runs (m >>= f) (s ++ t) b
  unfolding ◌>>=◌
  >>=-Runs f {t = t} hm hf = record {
    at = λ c h. let (c', e, h') = hm.at c t h in let (c'', e') = hf.at c' h' in (c'', rw e e');
  }

  pub >>=-Runs_last :
      {m : Reader A} (f : A → Reader B) {s : Bytes} {a : A} {b : B}
      → Reads m s a
      → Runs (f a) [] b
      → Runs (m >>= f) s b
  >>=-Runs_last {m} f {s} {b = b} hm hf =
      subst (λ t. Runs (m >>= f) t b) (append-nil s) (>>=-Runs f hm hf)

pub finish-Runs {ℓ} : {A : Type ℓ} (a : A) → Runs (finish >>= λ _. pure a) [] a
unfolding ◌>>=◌ pure
finish-Runs a = record { at = λ c h. (c, rw (finish-Remains c h)) }
