-- ===== src/Codec/Cbor/Unique.antt =====
-- What a reader of src/codec.rs makes of two equal slices.
use soal.Base.{◌^◌, ◌<◌, ◌≡◌, sym, ap, ◌∙◌, subst, Bytes, ◌++◌, drop, length, Result, ok}
use soal.Codec.Cbor.{Cursor, Cursor_new, Reader}
use soal.Codec.Cbor.Reads.{Remains, Remains-new, Reads}

same_cursor {ℓ} :
    {A : Type ℓ} (a b : A) (c d : Cursor)
    → ◌≡◌ {A = Result (A × Cursor)} (ok (a, c)) (ok (b, d))
    → (a ≡ b) × (c ≡ d)
same_cursor a b c d e = (cc, cc)

Remains-unique : (c d : Cursor) (s t : Bytes) → c ≡ d → Remains c s → Remains d t → s ≡ t
Remains-unique c d s t e h k = sym h.rest ∙ ap (λ (x : Cursor). drop x.pos x.bytes) e ∙ k.rest

pub Reads-unique {ℓ} :
    {A : Type ℓ} (m : Reader A) (s t x y : Bytes) (a b : A)
    → Reads m s a
    → Reads m t b
    → length (s ++ x) < 2 ^ 63
    → s ++ x ≡ t ++ y
    → (a ≡ b) × (x ≡ y)
Reads-unique m s t x y a b hs ht h e =
    let c : Cursor = Cursor_new (s ++ x) in
    let r : Remains c (s ++ x) = Remains-new (s ++ x) h in
    let (c1, e1, r1) = hs.at c x r in
    let (c2, e2, r2) = ht.at c y (subst (Remains c) e r) in
    let (p, q) = same_cursor a b c1 c2 (sym e1 ∙ e2) in (p, Remains-unique c1 c2 x y q r1 r2)
