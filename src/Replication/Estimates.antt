-- ===== src/Replication/Estimates.antt =====
-- src/replication.rs, `under_replicated_chunks` and `estimated_replicas`: the estimates, and what
-- `note_peer_has` adds to them.
use soal.Base.{
  ℕ, ◌+◌, ◌≡◌, refl, Bool, true, false, Bytes, [], ◌∷◌, some, arith, Bool-cases, inl, inr,
  if◌then◌else◌,
}
use soal.Content.{bytes_eq, bytes_eq_iff, bytes_ltb}
use soal.Map.{Map, lookup, insert, IsSorted}
use soal.Map.Order.{lookup_of_Below}
use soal.Set.{Hashes, contains, contains-nil}
use soal.Replication.{count_peers, or_empty}

pub count_from :
    (digits : Bytes) (peers : Map Hashes) (n : ℕ)
    → count_peers digits peers n ≡ count_peers digits peers 0 + n
unfolding count_peers
count_from digits [] n = omega arith
count_from digits ((peer, set) ∷ peers) n =
    ground
      (arith, count_from digits peers n, count_from digits peers (n + 1), count_from digits peers 1)

abbrev pub one_if : Bool → ℕ
one_if b = if b then 1 else 0

count_step :
    (digits q : Bytes) (t : Hashes) (peers : Map Hashes)
    → count_peers digits ((q, t) ∷ peers) 0
      ≡ count_peers digits peers 0 + one_if (contains digits t)
unfolding count_peers
count_step digits q t peers = ground (arith, count_from digits peers 1)

lookup_step :
    (p q : Bytes) (t : Hashes) (peers : Map Hashes)
    → lookup p ((q, t) ∷ peers) ≡ (if bytes_eq q p then some t else lookup p peers)
unfolding lookup
lookup_step p q t peers = refl

-- A peer's new set in place of its old one.
pub count-insert :
    (digits p : Bytes) (s : Hashes) (peers : Map Hashes)
    → IsSorted peers
    → count_peers digits (insert p s peers) 0 + one_if (contains digits (or_empty (lookup p peers)))
      ≡ count_peers digits peers 0 + one_if (contains digits s)
unfolding insert
count-insert digits p s [] h = unfold contains count_peers lookup in ground arith
count-insert digits p s ((q, t) ∷ peers) (b, h) = elim (Bool-cases (bytes_ltb p q)) [
  | inl l ↦
      rw (l, lookup_of_Below p ((q, t) ∷ peers) l (b, h), contains-nil digits)
        (omega (
          arith,
          count_from digits peers (one_if (contains digits t)),
          count_step digits p s ((q, t) ∷ peers),
          count_step digits q t peers,
        ))
  | inr l ↦ elim (Bool-cases (bytes_eq p q)) [
    | inl e ↦
        rw (l, e, lookup_step p q t peers, swap e)
          (omega (arith, count_step digits p s peers, count_step digits q t peers))
    | inr e ↦
        rw (l, e, lookup_step p q t peers, differ e)
          (omega (
            arith,
            count_step digits q t (insert p s peers),
            count_step digits q t peers,
            count-insert digits p s peers h,
          ))
  ]
]
  where
    swap : bytes_eq p q ≡ true → bytes_eq q p ≡ true
    swap e = grind (arith, bytes_eq_iff p q, bytes_eq_iff q p, e)

    differ : bytes_eq p q ≡ false → bytes_eq q p ≡ false
    differ e = grind (arith, bytes_eq_iff p q, bytes_eq_iff q p, e)
