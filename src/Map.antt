-- ===== src/Map.antt =====
-- `BTreeMap<String, V>` and `BTreeSet`, of Rust's standard library: the entries in the ascending
-- order of their keys, which are compared byte by byte.
pub mod Order
use soal.Base.{
  ◌≡◌, refl, ap, Bool, true, false, Bytes, List, [], ◌∷◌, ◌++◌, Option, none, some, arith,
  if◌then◌else◌,
}
use soal.Content.{bytes_eq, bytes_ltb, bytes_eq_iff, bytes_ltb_irrefl, bytes_ltb_trans}

abbrev pub Map {ℓ} : Type ℓ → Type ℓ
Map V = List (Bytes × V)

module _ {ℓ} {V : Type ℓ} where
  unfoldable pub lookup : Bytes → Map V → Option V
  lookup path [] = none
  lookup path ((first, v) ∷ rest) = if bytes_eq first path then some v else lookup path rest

  unfoldable pub insert : Bytes → V → Map V → Map V
  insert key new [] = (key, new) ∷ []
  insert key new ((first, old) ∷ rest) =
      if bytes_ltb key first
      then (key, new) ∷ (first, old) ∷ rest
      else if bytes_eq key first
      then (key, new) ∷ rest
      else (first, old) ∷ insert key new rest

  unfoldable pub remove : Bytes → Map V → Map V
  remove k [] = []
  remove k ((j, v) ∷ m) = let rest = remove k m in if bytes_eq k j then rest else (j, v) ∷ rest

  pub lookup-remove :
      (k j : Bytes) (m : Map V)
      → lookup j (remove k m) ≡ (if bytes_eq k j then none else lookup j m)
  unfolding lookup remove
  lookup-remove k j [] = ground arith
  lookup-remove k j ((i, w) ∷ m) =
      ground (arith, bytes_eq_iff k j, bytes_eq_iff k i, bytes_eq_iff i j, lookup-remove k j m)

  pub lookup-insert :
      (key at : Bytes) (new : V) (entries : Map V)
      → lookup at (insert key new entries)
        ≡ (if bytes_eq key at then some new else lookup at entries)
  unfolding lookup insert
  lookup-insert key at new [] = refl
  lookup-insert key at new ((first, old) ∷ rest) = ground (
    arith,
    lookup-insert key at new rest,
    bytes_eq_iff first at,
    bytes_eq_iff first key,
    bytes_eq_iff key first,
    bytes_eq_iff key at,
  )

  -- `k` is below the first key.
  abbrev pub Below : Bytes → Map V → Type 0
  Below k [] = Unit {0}
  Below k ((j, v) ∷ m) = bytes_ltb k j ≡ true

  abbrev pub IsSorted : Map V → Type 0
  IsSorted [] = Unit {0}
  IsSorted ((k, v) ∷ m) = Below k m × IsSorted m
