-- ===== src/Set.antt =====
-- `BTreeSet<ContentHash>` of Rust's standard library: the hashes in ascending order of their bytes.
use mathlib.Core.List.{Memᴰ}
use mathlib.Core.List.Memᴰ
use soal.Base.{
  suc, length, ◌≡◌, refl, sym, ◌⊎◌, inl, inr, Bool, true, false, Bytes, List, [], ◌∷◌, none, some,
  arith, if◌then◌else◌, Bool-cases,
}
use soal.Content.{bytes_eq, bytes_eq_iff, bytes_eq_refl}
use soal.Map.{Map, lookup, insert, lookup-insert}

abbrev pub Hashes : Type 0
Hashes = Map (Unit {0})

unfoldable pub contains : Bytes → Hashes → Bool
contains h s = elim (lookup h s) [ none ↦ false | some u ↦ true ]

unfoldable pub add : Bytes → Hashes → Hashes
add h s = insert h tt s

-- `set.into_iter()`
unfoldable pub elements : Hashes → List Bytes
elements [] = []
elements ((h, u) ∷ s) = h ∷ elements s

-- `for h in hs { set.insert(h); }`
unfoldable pub add_all : List Bytes → Hashes → Hashes
add_all [] s = s
add_all (h ∷ hs) s = add_all hs (add h s)

-- `list.contains(&p)`
unfoldable pub is_listed : Bytes → List Bytes → Bool
is_listed p [] = false
is_listed p (q ∷ l) = if bytes_eq q p then true else is_listed p l

pub contains-add :
    (h k : Bytes) (s : Hashes)
    → contains k (add h s) ≡ (if bytes_eq h k then true else contains k s)
unfolding contains add
contains-add h k s = ground (arith, lookup-insert h k tt s)

pub contains-add_cases :
    (h k : Bytes) (s : Hashes) → contains k (add h s) ≡ true → (k ≡ h) ⊎ (contains k s ≡ true)
contains-add_cases h k s e = ground (arith, contains-add h k s, bytes_eq_iff h k)

pub contains-add_self : (h : Bytes) (s : Hashes) → contains h (add h s) ≡ true
contains-add_self h s = ground (arith, contains-add h h s, bytes_eq_refl h)

pub contains-add_old :
    (h k : Bytes) (s : Hashes) → contains k s ≡ true → contains k (add h s) ≡ true
contains-add_old h k s e = ground (arith, contains-add h k s)

pub contains-nil : (k : Bytes) → contains k [] ≡ false
unfolding contains lookup
contains-nil k = refl

pub contains-add_all_old :
    (k : Bytes) (hs : List Bytes) (s : Hashes)
    → contains k s ≡ true
    → contains k (add_all hs s) ≡ true
unfolding add_all
contains-add_all_old k [] s e = e
contains-add_all_old k (h ∷ hs) s e = contains-add_all_old k hs (add h s) (contains-add_old h k s e)

pub contains-add_all :
    (k : Bytes) (hs : List Bytes) (s : Hashes) → Memᴰ k hs → contains k (add_all hs s) ≡ true
unfolding add_all
contains-add_all k [] s m = absurd (Memᴰ.not-nil m)
contains-add_all k (h ∷ hs) s m = elim (Memᴰ.cases_cons m) [
  | inl e ↦ contains-add_all_old k hs (add h s) (rw e (contains-add_self h s))
  | inr r ↦ contains-add_all k hs (add h s) r
]

pub contains-add_all_eq :
    (k : Bytes) (hs : List Bytes) (s : Hashes)
    → contains k (add_all hs s) ≡ (if is_listed k hs then true else contains k s)
unfolding add_all is_listed
contains-add_all_eq k [] s = refl
contains-add_all_eq k (h ∷ hs) s =
    ground (arith, contains-add_all_eq k hs (add h s), contains-add h k s)

pub contains-add_all_cases :
    (k : Bytes) (hs : List Bytes) (s : Hashes)
    → contains k (add_all hs s) ≡ true
    → Memᴰ k hs ⊎ (contains k s ≡ true)
unfolding add_all
contains-add_all_cases k [] s e = inr e
contains-add_all_cases k (h ∷ hs) s e = elim (contains-add_all_cases k hs (add h s) e) [
  | inl m ↦ inl (Memᴰ.tail m)
  | inr f ↦ elim (contains-add_cases h k s f) [ inl q ↦ inl (Memᴰ.head q) | inr old ↦ inr old ]
]

contains-cons :
    (k h : Bytes) (u : Unit {0}) (s : Hashes)
    → contains k ((h, u) ∷ s) ≡ (if bytes_eq h k then true else contains k s)
unfolding contains lookup
contains-cons k h u s = ground arith

-- What the set holds is among its elements, and the other way round.
pub mem-elements : (k : Bytes) (s : Hashes) → contains k s ≡ true → Memᴰ k (elements s)
unfolding elements
mem-elements k [] e = cc (contains-nil k)
mem-elements k ((h, u) ∷ s) e = elim (Bool-cases (bytes_eq h k)) [
  | inl q ↦ Memᴰ.head (sym ((bytes_eq_iff h k).0 q))
  | inr q ↦ Memᴰ.tail (mem-elements k s (ground (arith, contains-cons k h u s)))
]

pub contains_of_mem : (k : Bytes) (s : Hashes) → Memᴰ k (elements s) → contains k s ≡ true
unfolding elements
contains_of_mem k [] m = absurd (Memᴰ.not-nil m)
contains_of_mem k ((h, u) ∷ s) m = elim (Bool-cases (bytes_eq h k)) [
  | inl q ↦ rw (contains-cons k h u s, q)
  | inr q ↦ elim (Memᴰ.cases_cons m) [
    | inl e ↦ cc (q, (bytes_eq_iff h k).1 (sym e))
    | inr r ↦ rw (contains-cons k h u s, q) (contains_of_mem k s r)
  ]
]

length-insert :
    (key : Bytes) (m : Hashes) → lookup key m ≡ none → length (insert key tt m) ≡ suc (length m)
unfolding lookup insert
length-insert key [] e = refl
length-insert key ((first, u) ∷ m) e =
    ground (arith, bytes_eq_iff first key, bytes_eq_iff key first, length-insert key m, e)

pub length-add : (h : Bytes) (s : Hashes) → contains h s ≡ false → length (add h s) ≡ suc (length s)
unfolding contains add
length-add h s e = length-insert h s (ground (arith, e))
