-- ===== src/Replication/Ranked.antt =====
-- src/replication.rs, `rank_peers`: which peers it returns, and in which order.
use mathlib.Core.List.{Perm, Pairwise, Pairwise-singleton, Mem, mem-cons_self, exists_of_mem-map}
use mathlib.Core.List.Perm
use mathlib.Core.List.Pairwise
use mathlib.Core.Logic.{∥∥₁_elim, ∥∥₁_map}
use mathlib.Core.Bool.{Bool-set}
use soal.Base.{
  ℕ, ◌^◌, ◌<◌, ◌≤◌, ◌+◌, ◌≡◌, refl, sym, ap, ◌∙◌, subst, Bool, true, false, Bytes, List, [], ◌∷◌,
  map, ltb, Option, none, some, arith, Bool-cases, inl, inr, if◌then◌else◌, ltb_ℤ, ◌+ℤ◌, ℤ, pos,
  negsuc, pos_part, neg_part, +ℤ_parts, -ℤ_parts,
}
use soal.Content.{bytes_ltb_irrefl, bytes_ltb_trans, bytes_ltb_eq}
use soal.Policy.{VaultPolicy}
use soal.Map.{Map}
use soal.Replication.Scores.{
  PeerScore, before, insert_score, sort_scores, score_peer, total, recency, liveness, min_200,
  div_36, as_i64, secs_ago,
}
use soal.Replication.{PeerHave}

before_trans : (a b c : PeerScore) → before b a ≡ false → before c b ≡ false → before c a ≡ false
unfolding before
before_trans a b c h k = ground (
  arith,
  bytes_ltb_trans c.peer a.peer b.peer,
  bytes_ltb_trans a.peer b.peer c.peer,
  bytes_ltb_irrefl a.peer,
  bytes_ltb_irrefl b.peer,
  bytes_ltb_eq b.peer a.peer,
  bytes_ltb_eq c.peer b.peer,
  bytes_ltb_eq a.peer b.peer,
  bytes_ltb_eq b.peer c.peer,
  h,
  k,
)

before_asym : (a b : PeerScore) → before a b ≡ true → before b a ≡ false
unfolding before
before_asym a b h = ground (arith, bytes_ltb_trans a.peer b.peer a.peer, bytes_ltb_irrefl a.peer, h)

-- No peer is to stand before one that stands before it.
abbrev pub IsRanked : List PeerScore → Type 0
IsRanked = Pairwise (λ a b. before b a ≡ false)

insert-perm : (a : PeerScore) (l : List PeerScore) → Perm (insert_score a l) (a ∷ l)
unfolding insert_score
insert-perm a [] = Perm.rfl
insert-perm a (b ∷ l) = elim (Bool-cases (before b a)) [
  | inl p ↦ rw p (Perm.trans (Perm.cons b (insert-perm a l)) (Perm.swap a b l))
  | inr p ↦ rw p Perm.rfl
]

-- What stands behind a head stands behind what may stand before the head.
below_head :
    (a b : PeerScore) (l : List PeerScore)
    → before b a ≡ false
    → ((c : PeerScore) → Mem c l → before c b ≡ false)
    → (c : PeerScore) → Mem c (b ∷ l)
    → before c a ≡ false
below_head a b l p h =
    (mathlib.Core.List.forall_mem-cons (λ c. Bool-set _ _)).1
      (p, λ c m. before_trans a b c p (h c m))

insert-IsRanked : (a : PeerScore) {l : List PeerScore} → IsRanked l → IsRanked (insert_score a l)
unfolding insert_score
insert-IsRanked a Pairwise.nil = Pairwise-singleton _ a
insert-IsRanked a (Pairwise.cons {a = b} {l = l} below s) = elim (Bool-cases (before b a)) [
  | inl p ↦ rw p (
      Pairwise.cons
        (λ c m.
          (mathlib.Core.List.forall_mem-cons (λ x. Bool-set _ _)).1 (before_asym b a p, below) c
            ((Perm.mem_iff (insert-perm a l)).0 m))
        (insert-IsRanked a s))
  | inr p ↦ rw p (Pairwise.cons (below_head a b l p below) (Pairwise.cons below s))
]

pub sort-IsRanked : (l : List PeerScore) → IsRanked (sort_scores l)
unfolding sort_scores
sort-IsRanked [] = Pairwise.nil
sort-IsRanked (a ∷ l) = insert-IsRanked a (sort-IsRanked l)

pub sort-perm : (l : List PeerScore) → Perm (sort_scores l) l
unfolding sort_scores
sort-perm [] = Perm.rfl
sort-perm (a ∷ l) = Perm.trans (insert-perm a (sort_scores l)) (Perm.cons a (sort-perm l))

-- The bounds of the summands.
recency_bounds :
    (now : ℕ) (t : Option ℕ)
    → now < 2 ^ 63
    → (pos_part (recency (secs_ago now t)) ≤ 100) × (neg_part (recency (secs_ago now t)) ≤ 100)
unfolding recency secs_ago
recency_bounds now none h = (omega arith, omega arith)
recency_bounds now (some t) h = unfold min_200 div_36 as_i64 soal.Base.◌-ℤ◌ in ground arith

liveness_bounds : (o : Option Bool) → (pos_part (liveness o) ≤ 200) × (neg_part (liveness o) ≤ 300)
unfolding liveness
liveness_bounds none = (omega arith, omega arith)
liveness_bounds (some true) = (omega arith, omega arith)
liveness_bounds (some false) = (omega arith, omega arith)

-- A preferred peer's score is above that of any other.
prefers :
    (now : ℕ) (s t : Option ℕ) (al al' : Option Bool) (h h' b c : Bool)
    → now < 2 ^ 63
    → b ≡ true
    → c ≡ false
    → ltb_ℤ (total c (secs_ago now t) al' h') (total b (secs_ago now s) al h) ≡ true
unfolding total
prefers now s t al al' h h' false c small e k = cc
prefers now s t al al' h h' true true small e k = cc
prefers now s t al al' h h' true false small _ _ =
    let (a, b) = recency_bounds now s small in
    let (c, d) = recency_bounds now t small in
    let (e, f) = liveness_bounds al in
    let (g, i) = liveness_bounds al' in
    gap (recency (secs_ago now s)) (recency (secs_ago now t)) (liveness al) (liveness al') h h' b c
      f g
  where
    gap :
        (x y u v : ℤ) (k l : Bool)
        → neg_part x ≤ 100
        → pos_part y ≤ 100
        → neg_part u ≤ 300
        → pos_part v ≤ 200
        → ltb_ℤ
            (pos 0 +ℤ y +ℤ v +ℤ (if l then pos 50 else pos 0))
            (pos 1000 +ℤ x +ℤ u +ℤ (if k then pos 50 else pos 0))
          ≡ true
    gap x y u v k l p q r s = ground (
      arith,
      +ℤ_parts (pos 0) y,
      +ℤ_parts (pos 0 +ℤ y) v,
      +ℤ_parts (pos 0 +ℤ y +ℤ v) (if l then pos 50 else pos 0),
      +ℤ_parts (pos 1000) x,
      +ℤ_parts (pos 1000 +ℤ x) u,
      +ℤ_parts (pos 1000 +ℤ x +ℤ u) (if k then pos 50 else pos 0),
    )

higher : (a b : PeerScore) → ltb_ℤ b.score a.score ≡ true → before a b ≡ true
unfolding before
higher a b h = rw h

abbrev pub Yields : PeerScore → PeerScore → Type 0
Yields a b = b.preferred ≡ true → a.preferred ≡ true

module _ (policy : VaultPolicy) (last_seen : Map ℕ) (peer_alive : Map Bool) (now : ℕ)
    (have : PeerHave) (head_hex : Bytes) where
  abbrev scored : Bytes → PeerScore
  scored = score_peer policy last_seen peer_alive now have head_hex

  yields :
      now < 2 ^ 63
      → (p q : Bytes) → before (scored q) (scored p) ≡ false
      → Yields (scored p) (scored q)
  unfolding score_peer
  yields small p q h e = elim (Bool-cases (scored p).preferred) [
    | inl y ↦ y
    | inr n ↦ absurd (clash (higher (scored q) (scored p) (prefers now _ _ _ _ _ _ _ _ small e n)))
  ]
    where
      clash : before (scored q) (scored p) ≡ true → ⊥
      clash k = cc

  peers_of : (peers : List Bytes) → map (λ s. s.peer) (map scored peers) ≡ peers
  unfolding score_peer
  peers_of [] = refl
  peers_of (p ∷ peers) = ap (λ t. p ∷ t) (peers_of peers)

  Scored : PeerScore → Type 0
  Scored a = ∥ ((q : Bytes) × (scored q ≡ a)) ∥₁

  Scored-Yields :
      now < 2 ^ 63 → (a b : PeerScore) → Scored a → Scored b → before b a ≡ false → Yields a b
  unfolding Scored
  Scored-Yields small a b s t h e = ∥∥₁_elim s (Bool-set _ _) (λ (p, u).
      ∥∥₁_elim t (Bool-set _ _) (λ (q, v).
        subst (λ (x : PeerScore). x.preferred ≡ true) u
          (yields small p q
            (subst (λ (x : PeerScore). before x (scored p) ≡ false) (sym v)
              (subst (λ (x : PeerScore). before b x ≡ false) (sym u) h))
            (subst (λ (x : PeerScore). x.preferred ≡ true) (sym v) e))))

  -- What `rank_peers` makes of its peers.
  abbrev pub ranking : List Bytes → List PeerScore
  ranking peers = sort_scores (map scored peers)

  ranking-Scored : (peers : List Bytes) (a : PeerScore) → Mem a (ranking peers) → Scored a
  unfolding Scored
  ranking-Scored peers a m =
      ∥∥₁_map (exists_of_mem-map ((Perm.mem_iff (sort-perm (map scored peers))).0 m))
        (λ (q, _, e). (q, e))

  pub ranking-Yields : now < 2 ^ 63 → (peers : List Bytes) → Pairwise Yields (ranking peers)
  ranking-Yields small peers =
      Pairwise.imp_of_mem
        (λ a b m n h.
          Scored-Yields small a b (ranking-Scored peers a m) (ranking-Scored peers b n) h)
        (sort-IsRanked (map scored peers))

  pub ranking-perm : (peers : List Bytes) → Perm (map (λ s. s.peer) (ranking peers)) peers
  ranking-perm peers =
      subst (Perm _) (peers_of peers) (Perm.map (λ s. s.peer) (sort-perm (map scored peers)))

  pub ranking-IsRanked : (peers : List Bytes) → IsRanked (ranking peers)
  ranking-IsRanked peers = sort-IsRanked (map scored peers)
