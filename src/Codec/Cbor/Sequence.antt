-- ===== src/Codec/Cbor/Sequence.antt =====
-- Sequences of numbers and byte strings, as src/codec.rs writes them.
use soal.Base.{
  ℕ, ◌+◌, ◌^◌, ◌≤◌, ◌<◌, ◌≡◌, refl, Bool, true, false, Bytes, List, [], ◌∷◌, ◌++◌, map, arith,
  length-be_bytes, length, length-append, All,
}
use soal.Codec.Cbor.{
  Reader, ◌>>=◌, pure, read_u64_value, read_bstr, push_uint, write_u64, write_bstr,
}
use soal.Codec.Cbor.Reads.{Reads, >>=-Reads_pure}
use soal.Codec.Cbor.Items.{u64, bstr, u64-Reads, bstr-Reads}
use soal.Codec.Cbor.Unique.{Reads-unique}

pub data Item : Type 0 where
  num : ℕ → Item
  blob : Bytes → Item

unfoldable pub is_num : Item → Bool
is_num (num v) = true
is_num (blob s) = false

unfoldable pub item : Item → Bytes
item (num v) = u64 v
item (blob s) = bstr s

unfoldable pub items : List Item → Bytes
items [] = []
items (i ∷ is) = item i ++ items is

-- The values that a word and a slice hold.
unfoldable pub Fits : Item → Type 0
Fits (num v) = v < 2 ^ 64
Fits (blob s) = length s < 2 ^ 64

unfoldable read_item : Bool → Reader Item
read_item true = do v ← read_u64_value; pure (num v)
read_item false = do s ← read_bstr; pure (blob s)

item-Reads : (k : Bool) (i : Item) → is_num i ≡ k → Fits i → Reads (read_item k) (item i) i
unfolding read_item item is_num Fits
item-Reads true (num v) e h = >>=-Reads_pure _ (u64-Reads v h) (λ c. unfold pure in refl)
item-Reads false (num v) e h = absurd cc
item-Reads true (blob s) e h = absurd cc
item-Reads false (blob s) e h = >>=-Reads_pure _ (bstr-Reads s h) (λ c. unfold pure in refl)

pub items_injective :
    (xs ys : List Item)
    → map is_num xs ≡ map is_num ys
    → All Fits xs
    → All Fits ys
    → length (items xs) < 2 ^ 63
    → items xs ≡ items ys
    → xs ≡ ys
unfolding items
items_injective [] [] k f g h e = refl
items_injective [] (y ∷ ys) k f g h e = absurd cc
items_injective (x ∷ xs) [] k f g h e = absurd cc
items_injective (x ∷ xs) (y ∷ ys) k (fx, fs) (gy, gs) h e =
    let (p, q) =
      Reads-unique (read_item (is_num y)) (item x) (item y) (items xs) (items ys) x y
        (item-Reads (is_num y) x (cc) fx) (item-Reads (is_num y) y refl gy) h e in
    let r =
      items_injective xs ys (cc) fs gs (omega (arith, h, length-append (item x) (items xs))) q in
    cc

-- A number takes at most nine bytes.
pub length-push_uint : (m v : ℕ) → length (push_uint m v []) ≤ 9
unfolding push_uint
length-push_uint m v = grind (arith, length-be_bytes, length-append)

unfoldable pub weight : Item → ℕ
weight (num v) = 9
weight (blob s) = 9 + length s

unfoldable pub weights : List Item → ℕ
weights [] = 0
weights (i ∷ is) = weight i + weights is

length-item : (i : Item) → length (item i) ≤ weight i
unfolding item weight u64 write_u64 bstr write_bstr
length-item (num v) = length-push_uint 0 v
length-item (blob s) =
    omega (arith, length-push_uint 2 (length s), length-append (push_uint 2 (length s) []) s)

pub length-items : (is : List Item) → length (items is) ≤ weights is
unfolding items weights
length-items [] = omega arith
length-items (i ∷ is) =
    omega (arith, length-item i, length-items is, length-append (item i) (items is))
