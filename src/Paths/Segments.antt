-- ===== src/Paths/Segments.antt =====
-- The segments of a path of src/tree.rs, and what `check_segments` asks of them.
use soal.Base.{
  ℕ, ◌≡◌, refl, sym, ap, ◌∙◌, ◌≢◌, ◌↔◌, true, false, ◌||◌, Bytes, List, [], ◌∷◌, ◌++◌, ◌==◌, ==_iff,
  arith, All, ok, Bool-cases, inl, inr,
}
use soal.Content.{codes, bytes_eq, bytes_eq_iff}
use soal.Paths.{contains, split, push_front, is_empty, check_segments}

-- A name that stands for a child of a directory.
pub record IsName (seg : Bytes) : Type 0 where
  pub filled : seg ≢ []
  pub not_here : seg ≢ codes "."
  pub not_parent : seg ≢ codes ".."

pub check_segments_iff : (segs : List Bytes) → (check_segments segs ≡ ok tt) ↔ All IsName segs
unfolding check_segments is_empty
check_segments_iff [] = (λ h. tt, λ h. refl)
check_segments_iff ([] ∷ segs) = (λ h. cc, λ h. absurd (h.0.filled refl))
check_segments_iff ((b ∷ seg) ∷ segs) =
    let ih : (check_segments segs ≡ ok tt) ↔ All IsName segs = check_segments_iff segs in
    let here : (bytes_eq (b ∷ seg) (codes ".") ≡ true) ↔ (b ∷ seg ≡ codes ".") = bytes_eq_iff _ _ in
    let parent : (bytes_eq (b ∷ seg) (codes "..") ≡ true) ↔ (b ∷ seg ≡ codes "..") =
      bytes_eq_iff _ _ in
    (
      λ h. (
        record {
          filled = λ e. cc;
          not_here = λ e. ground (arith, here.1 e);
          not_parent = λ e. ground (arith, parent.1 e);
        },
        ih.0 (ground arith),
      ),
      λ h. ground (arith, ih.1 h.1, here.0, parent.0, h.0.not_here, h.0.not_parent),
    )

-- `parts.join("/")`
unfoldable pub join : ℕ → List Bytes → Bytes
join sep [] = []
join sep (s ∷ []) = s
join sep (s ∷ t ∷ rest) = s ++ sep ∷ join sep (t ∷ rest)

pub split-ne-nil : (sep : ℕ) (s : Bytes) → split sep s ≢ []
unfolding split
split-ne-nil sep [] h = cc
split-ne-nil sep (b ∷ s) h = elim (Bool-cases (b == sep)) [
  | inl p ↦ cc (rw p at h)
  | inr p ↦ push_front-ne-nil b (split sep s) (rw p at h)
]
  where
    push_front-ne-nil : (c : ℕ) (segs : List Bytes) → push_front c segs ≢ []
    push_front-ne-nil c [] e = cc
    push_front-ne-nil c (t ∷ ts) e = cc

module _ (sep : ℕ) where
  join-push_front :
      (b : ℕ) (segs : List Bytes) → segs ≢ [] → join sep (push_front b segs) ≡ b ∷ join sep segs
  unfolding join
  join-push_front b [] h = absurd (h refl)
  join-push_front b (s ∷ []) h = refl
  join-push_front b (s ∷ t ∷ r) h = refl

  join_of_nil : (segs : List Bytes) → segs ≢ [] → join sep ([] ∷ segs) ≡ sep ∷ join sep segs
  unfolding join
  join_of_nil [] h = absurd (h refl)
  join_of_nil (s ∷ r) h = refl

  -- Joining what was split gives the path back.
  pub join-split : (s : Bytes) → join sep (split sep s) ≡ s
  unfolding split
  join-split [] = unfold join in refl
  join-split (b ∷ s) = elim (Bool-cases (b == sep)) [
    | inl p ↦
        rw (p, join_of_nil (split sep s) (split-ne-nil sep s), join-split s)
          (ap (λ c. c ∷ s) (sym ((==_iff b sep).0 p)))
    | inr p ↦ rw (p, join-push_front b (split sep s) (split-ne-nil sep s), join-split s)
  ]

  abbrev pub Lacks : Bytes → Type 0
  Lacks s = contains sep s ≡ false

  Lacks-push_front :
      (b : ℕ) (segs : List Bytes)
      → (b == sep) ≡ false
      → All Lacks segs
      → All Lacks (push_front b segs)
  unfolding contains
  Lacks-push_front b [] p h = ground arith
  Lacks-push_front b (s ∷ r) p h = ground arith

  -- No segment holds a separator.
  pub split-Lacks : (s : Bytes) → All Lacks (split sep s)
  unfolding split
  split-Lacks [] = (unfold contains in refl, tt)
  split-Lacks (b ∷ s) = elim (Bool-cases (b == sep)) [
    | inl p ↦ rw p (unfold contains in refl, split-Lacks s)
    | inr p ↦ rw p (Lacks-push_front b (split sep s) p (split-Lacks s))
  ]

  pub split_of_Lacks : (s : Bytes) → Lacks s → split sep s ≡ s ∷ []
  unfolding split contains
  split_of_Lacks [] h = refl
  split_of_Lacks (b ∷ s) h = ground (arith, split_of_Lacks s)

  pub split-append_sep : (s t : Bytes) → Lacks s → split sep (s ++ sep ∷ t) ≡ s ∷ split sep t
  unfolding split contains
  split-append_sep [] t h = ground arith
  split-append_sep (b ∷ s) t h = ground (arith, split-append_sep s t)

  -- Splitting what was joined gives the segments back.
  pub split-join :
      (segs : List Bytes) → segs ≢ [] → All Lacks segs → split sep (join sep segs) ≡ segs
  unfolding join
  split-join [] n h = absurd (n refl)
  split-join (s ∷ []) n h = split_of_Lacks s h.0
  split-join (s ∷ t ∷ r) n h =
      split-append_sep s (join sep (t ∷ r)) h.0 ∙ ap (λ x. s ∷ x) (split-join (t ∷ r) (λ e. cc) h.1)

  push_front-append :
      (b : ℕ) (segs more : List Bytes)
      → segs ≢ []
      → push_front b (segs ++ more) ≡ push_front b segs ++ more
  push_front-append b [] more h = absurd (h refl)
  push_front-append b (s ∷ r) more h = refl

  pub split-append : (s t : Bytes) → split sep (s ++ sep ∷ t) ≡ split sep s ++ split sep t
  unfolding split
  split-append [] t = ground arith
  split-append (b ∷ s) t = ground (
    arith,
    split-append s t,
    push_front-append b (split sep s) (split sep t) (split-ne-nil sep s),
  )

module _ (sep b : ℕ) where
  pub contains-append : (s t : Bytes) → contains b (s ++ t) ≡ (contains b s || contains b t)
  unfolding contains
  contains-append [] t = refl
  contains-append (a ∷ s) t = ground (arith, contains-append s t)

  pub join-Lacks :
      (segs : List Bytes) → (sep == b) ≡ false → All (Lacks b) segs → Lacks b (join sep segs)
  unfolding join contains
  join-Lacks [] n h = refl
  join-Lacks (s ∷ []) n h = h.0
  join-Lacks (s ∷ t ∷ r) n h =
      ground (arith, contains-append s (sep ∷ join sep (t ∷ r)), join-Lacks (t ∷ r) n h.1)
