-- ===== src/Map/Order.antt =====
-- The order of the keys of a map.
use soal.Base.{
  ◌≡◌, refl, sym, ◌∙◌, ap, subst, true, false, Bytes, [], ◌∷◌, ◌++◌, none, some, arith, Bool-cases,
  inl, inr,
}
use soal.Content.{
  bytes_eq, bytes_ltb, bytes_eq_iff, bytes_eq_refl, bytes_ltb_irrefl, bytes_ltb_trans, bytes_ltb_eq,
}
use soal.Map.{Map, lookup, insert, Below, IsSorted}

-- The order is total.
pub above : (k j : Bytes) → bytes_ltb k j ≡ false → bytes_eq k j ≡ false → bytes_ltb j k ≡ true
above k j p q = elim (Bool-cases (bytes_ltb j k)) [
  | inl r ↦ r
  | inr r ↦ cc (q, (bytes_eq_iff k j).1 (bytes_ltb_eq k j p r))
]

pub ltb-ne : (k j : Bytes) → bytes_ltb k j ≡ true → bytes_eq j k ≡ false
ltb-ne k j p = ground (arith, bytes_eq_iff j k, bytes_ltb_irrefl k)

module _ {ℓ} {V : Type ℓ} where
  Below-insert :
      (i k : Bytes) (v : V) (m : Map V) → bytes_ltb i k ≡ true → Below i m → Below i (insert k v m)
  unfolding insert
  Below-insert i k v [] h b = h
  Below-insert i k v ((j, w) ∷ m) h b = ground arith

  pub insert-IsSorted : (k : Bytes) (v : V) (m : Map V) → IsSorted m → IsSorted (insert k v m)
  unfolding insert
  insert-IsSorted k v [] h = (tt, tt)
  insert-IsSorted k v ((j, w) ∷ m) (b, s) = elim (Bool-cases (bytes_ltb k j)) [
    | inl p ↦ rw p (p, (b, s))
    | inr p ↦ elim (Bool-cases (bytes_eq k j)) [
      | inl q ↦ rw (p, q) (subst (λ i. Below i m) (sym ((bytes_eq_iff k j).0 q)) b, s)
      | inr q ↦ rw (p, q) (Below-insert j k v m (above k j p q) b, insert-IsSorted k v m s)
    ]
  ]

  -- A key below the first is not in the map.
  pub lookup_of_Below : (k : Bytes) (m : Map V) → Below k m → IsSorted m → lookup k m ≡ none
  unfolding lookup
  lookup_of_Below k [] b s = refl
  lookup_of_Below k ((j, v) ∷ []) b s = rw (ltb-ne k j b)
  lookup_of_Below k ((j, v) ∷ (i, w) ∷ m) b (c, s) =
      rw (ltb-ne k j b) (lookup_of_Below k ((i, w) ∷ m) (bytes_ltb_trans k j i b c) s)

  lookup_head : (k : Bytes) (v : V) (m : Map V) → lookup k ((k, v) ∷ m) ≡ some v
  unfolding lookup
  lookup_head k v m = rw (bytes_eq_refl k)

  lookup_tail :
      (k i : Bytes) (v : V) (m : Map V) → bytes_eq k i ≡ false → lookup i ((k, v) ∷ m) ≡ lookup i m
  unfolding lookup
  lookup_tail k i v m p = rw p

  lookup_nil : (k : Bytes) → lookup {V = V} k [] ≡ none
  unfolding lookup
  lookup_nil k = refl

  -- Entries of the same lookups, in the same order.
  pub IsSorted-ext :
      (m n : Map V) → IsSorted m → IsSorted n → ((k : Bytes) → lookup k m ≡ lookup k n) → m ≡ n
  IsSorted-ext [] [] s t h = refl
  IsSorted-ext [] ((j, w) ∷ n) s t h = cc (lookup_nil j, h j, lookup_head j w n)
  IsSorted-ext ((k, v) ∷ m) [] s t h = cc (lookup_nil k, h k, lookup_head k v m)
  IsSorted-ext ((k, v) ∷ m) ((j, w) ∷ n) (b, s) (c, t) h = elim (Bool-cases (bytes_ltb k j)) [
    | inl p ↦ cc (lookup_head k v m, h k, lookup_of_Below k ((j, w) ∷ n) p (c, t))
    | inr p ↦ elim (Bool-cases (bytes_ltb j k)) [
      | inl q ↦ cc (lookup_head j w n, h j, lookup_of_Below j ((k, v) ∷ m) q (b, s))
      | inr q ↦
          let e : k ≡ j = bytes_ltb_eq k j p q in
          let vw : v ≡ w =
            cc (
              lookup_head k v m,
              h k,
              ap (λ i. lookup k ((i, w) ∷ n)) (sym e),
              lookup_head k w n,
            ) in
          let c' : Below k n = subst (λ i. Below i n) (sym e) c in
          let mn : m ≡ n = IsSorted-ext m n s t (λ i. elim (Bool-cases (bytes_eq k i)) [
            | inl r ↦
                let f : k ≡ i = (bytes_eq_iff k i).0 r in
                ap (λ a. lookup a m) (sym f)
                ∙ lookup_of_Below k m b s
                ∙ sym (lookup_of_Below k n c' t)
                ∙ ap (λ a. lookup a n) f
            | inr r ↦
                sym (lookup_tail k i v m r)
                ∙ h i
                ∙ ap (λ a. lookup i ((a, w) ∷ n)) (sym e)
                ∙ lookup_tail k i w n r
          ]) in
          cc
    ]
  ]

  head_below :
      (j k : Bytes) (w v : V) (a m : Map V)
      → IsSorted ((j, w) ∷ (a ++ (k, v) ∷ m))
      → bytes_ltb j k ≡ true
  head_below j k w v [] m (b, s) = b
  head_below j k w v ((i, u) ∷ a) m (b, s) = bytes_ltb_trans j i k b (head_below i k u v a m s)

  -- An entry above all others goes to the end.
  pub insert_last :
      (k : Bytes) (v : V) (a m : Map V)
      → IsSorted (a ++ (k, v) ∷ m)
      → insert k v a ≡ a ++ (k, v) ∷ []
  unfolding insert
  insert_last k v [] m s = refl
  insert_last k v ((j, w) ∷ a) m s =
      let p : bytes_ltb j k ≡ true = head_below j k w v a m s in
      ground (arith, not_below j k p, ltb-ne j k p, insert_last k v a m s.1)
    where
      not_below : (i l : Bytes) → bytes_ltb i l ≡ true → bytes_ltb l i ≡ false
      not_below i l p = ground (arith, bytes_ltb_trans l i l, bytes_ltb_irrefl l)
