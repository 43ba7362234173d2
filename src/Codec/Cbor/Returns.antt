-- ===== src/Codec/Cbor/Returns.antt =====
-- What a reader of src/codec.rs can return, whatever bytes it reads.
use soal.Base.{ℕ, zero, suc, ◌≡◌, refl, ap, ◌∙◌, subst, Result, ok, err, panic, >>=-ok}
use soal.Base
use soal.Codec.Cbor.{Cursor, Reader, ◌>>=◌, pure, lift}
use soal.Codec.Fields.{repeat}

pub record Returns {ℓ} {A : Type ℓ} (m : Reader A) (a : A) : Type ℓ where
  pub start : Cursor
  pub end : Cursor
  pub run : m start ≡ ok (a, end)

module _ {ℓ κ} {A : Type ℓ} {B : Type κ} where
  pub >>=-Returns :
      (m : Reader A) (f : A → Reader B) {b : B}
      → Returns (m >>= f) b
      → (a : A) × Returns m a × Returns (f a) b
  unfolding ◌>>=◌
  >>=-Returns m f r =
      let ((a, c), p, q) = >>=-ok (m r.start) _ r.run in
      (a, record { start = r.start; end = c; run = p }, record { start = c; end = r.end; run = q })

module _ {ℓ} {A : Type ℓ} where
  pub pure-Returns : {a b : A} → Returns (pure a) b → a ≡ b
  unfolding pure
  pure-Returns {a} {b} r = first r.run
    where
      first : {c d : Cursor} → ◌≡◌ {A = Result (A × Cursor)} (ok (a, c)) (ok (b, d)) → a ≡ b
      first e = cc

  pub lift-Returns : {m : Result A} {a : A} → Returns (lift m) a → m ≡ ok a
  unfolding lift
  lift-Returns {m} {a} r = go m r.start r.end r.run
    where
      go :
          (m : Result A) (c d : Cursor)
          → Base.◌>>=◌ {Y = A × Cursor} m (λ x. ok (x, c)) ≡ ok (a, d)
          → m ≡ ok a
      go (ok x) c d e = cc
      go (err x) c d e = absurd cc
      go panic c d e = absurd cc

-- What each round keeps, the loop keeps.
pub repeat-Returns {κ} :
    {S : Type 0} (round : S → Reader S) (P : S → Type κ)
    → ((s s' : S) → P s → Returns (round s) s' → P s')
    → (n : ℕ) (s s' : S) → P s
    → Returns (repeat round n s) s'
    → P s'
unfolding repeat
repeat-Returns round P keep zero s s' p r = subst P (pure-Returns r) p
repeat-Returns round P keep (suc n) s s' p r =
    let (t, q, r') = >>=-Returns (round s) (repeat round n) r in
    repeat-Returns round P keep n t s' (keep s t p q) r'
