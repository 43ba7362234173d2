-- ===== src/Vault/Live/Reach.antt =====
-- src/vault.rs, the marking walks: the relation of a commit to its ancestors, and the marks.
use mathlib.Core.List.{Memᴰ, reverse-cons}
use mathlib.Core.List.Memᴰ
use soal.Base.{
  ℕ, zero, suc, ◌≡◌, refl, sym, subst, ◌⊎◌, inl, inr, true, ◌++◌, List, [], ◌∷◌, reverse, some, ok,
}
use soal.Content.{ContentHash}
use soal.Commit.{Commit}
use soal.Disk.{Disk, quiet, pure}
use soal.Disk.Triples.{Files}
use soal.Set.{Hashes, contains, add}
use soal.Vault.{Crates}
use soal.Vault.Live.{Mark, walk}
use soal.Vault.Live.Rounds.{Holds, Walks, Visited, walk-round}

pub mem-reverse {ℓ} : {A : Type ℓ} (a : A) (xs : List A) → Memᴰ a xs → Memᴰ a (reverse xs)
mem-reverse a [] m = m
mem-reverse a (x ∷ xs) m = rw (reverse-cons x xs) (elim (Memᴰ.cases_cons m) [
  | inl e ↦ Memᴰ.append_right (reverse xs) (Memᴰ.head e)
  | inr r ↦ Memᴰ.append_left (x ∷ []) (mem-reverse a xs r)
])

pub mem_of_reverse {ℓ} : {A : Type ℓ} (a : A) (xs : List A) → Memᴰ a (reverse xs) → Memᴰ a xs
mem_of_reverse a [] m = m
mem_of_reverse a (x ∷ xs) m = elim (Memᴰ.append_cases (reverse xs) (rw (reverse-cons x xs) at m)) [
  | inl r ↦ Memᴰ.tail (mem_of_reverse a xs r)
  | inr l ↦ Memᴰ.head (Memᴰ.eq_of_singleton l)
]

module _ (crates : Crates) (m : Files) where
  -- The commit ids that the roots lead to along the parents of commits that the vault holds.
  pub data Linked (Root : ContentHash → Type 0) : ContentHash → Type 0 where
    root : {h : ContentHash} → Root h → Linked Root h
    parent :
        {h p : ContentHash} (c : Commit)
        → Linked Root h
        → Holds crates m h c
        → Memᴰ p c.parents
        → Linked Root p

  Linked-map :
      {Root Root' : ContentHash → Type 0}
      → ((h : ContentHash) → Root h → Root' h)
      → {h : ContentHash} → Linked Root h
      → Linked Root' h
  Linked-map f (root r) = root (f _ r)
  Linked-map f (parent c l held k) = parent c (Linked-map f l) held k

  -- What a mark adds at a commit.
  abbrev pub Item : Type 1
  Item = ContentHash → Commit → ContentHash → Type 0

  -- The marks at a commit that the roots lead to.
  pub record IsLive (item : Item) (Root : ContentHash → Type 0) (x : ContentHash) : Type 0 where
    pub hash : ContentHash
    pub commit : Commit
    pub linked : Linked Root hash
    pub held : Holds crates m hash commit
    pub marks : item hash commit x

  -- What is live for some roots is live for more.
  pub IsLive-map :
      {item : Item} {Root Root' : ContentHash → Type 0} {x : ContentHash}
      → ((h : ContentHash) → Root h → Root' h)
      → IsLive item Root x
      → IsLive item Root' x
  IsLive-map f l = record {
    hash = l.hash;
    commit = l.commit;
    linked = Linked-map f l.linked;
    held = l.held;
    marks = l.marks;
  }

  pub record Marks (mark : Mark crates) (item : Item) : Type 0 where
    pub stays :
        (h : ContentHash) (c : Commit) (live live' : Hashes) (d : Disk)
        → mark h c live (quiet m) ≡ (ok live', d)
        → d ≡ quiet m
    pub only :
        (h : ContentHash) (c : Commit) (live live' : Hashes) (d : Disk) (x : ContentHash)
        → mark h c live (quiet m) ≡ (ok live', d)
        → contains x live' ≡ true
        → (contains x live ≡ true) ⊎ item h c x
    pub keeps :
        (h : ContentHash) (c : Commit) (live live' : Hashes) (d : Disk) (x : ContentHash)
        → mark h c live (quiet m) ≡ (ok live', d)
        → contains x live ≡ true
        → contains x live' ≡ true
    pub marks :
        (h : ContentHash) (c : Commit) (live live' : Hashes) (d : Disk) (x : ContentHash)
        → mark h c live (quiet m) ≡ (ok live', d)
        → item h c x
        → contains x live' ≡ true

  module _ (mark : Mark crates) (item : Item) (spec : Marks mark item) where
    pub rest_of :
        {fuel : ℕ} {h : ContentHash} {queue : List ContentHash} {seen live out : Hashes} {d : Disk}
        (v : Visited crates m mark fuel h queue seen live out d)
        → Walks crates m mark fuel (reverse v.commit.parents ++ queue) (add h seen) v.live' out d
    rest_of {fuel} {h} {queue} {seen} {live} {out} {d} v =
        subst
          (λ a.
            walk crates mark fuel (reverse v.commit.parents ++ queue) (add h seen) v.live' a
            ≡ (ok (some out), d))
          (spec.stays h v.commit live v.live' v.after v.marked) v.rest

    pub returned :
        (fuel : ℕ) (seen live out : Hashes) (d : Disk)
        → Walks crates m mark fuel [] seen live out d
        → live ≡ out
    unfolding walk pure
    returned fuel seen live out d e = cc

    -- A walk that returns a set leaves the disk as it is.
    pub walk_left :
        (fuel : ℕ) (queue : List ContentHash) (seen live out : Hashes) (d : Disk)
        → Walks crates m mark fuel queue seen live out d
        → d ≡ quiet m
    walk_left fuel [] seen live out d e = unfold walk pure in cc
    walk_left zero (h ∷ queue) seen live out d e = unfold walk pure in cc
    walk_left (suc fuel) (h ∷ queue) seen live out d e =
        elim (walk-round crates m mark fuel h queue seen live out d e) [
          | inl (_, w) ↦ walk_left fuel queue seen live out d w
          | inr (inl (_, _, w)) ↦ walk_left fuel queue (add h seen) live out d w
          | inr (inr (_, v)) ↦
              walk_left fuel (reverse v.commit.parents ++ queue) (add h seen) v.live' out d
                (rest_of v)
        ]

    module _ (Root : ContentHash → Type 0) where
      pub walk_sound :
          (fuel : ℕ) (queue : List ContentHash) (seen live out : Hashes) (d : Disk)
          → Walks crates m mark fuel queue seen live out d
          → ((x : ContentHash) → Memᴰ x queue → Linked Root x)
          → ((x : ContentHash) → contains x live ≡ true → IsLive item Root x)
          → (x : ContentHash) → contains x out ≡ true
          → IsLive item Root x
      walk_sound fuel [] seen live out d e q l x f =
          l x (subst (λ s. contains x s ≡ true) (sym (returned fuel seen live out d e)) f)
      walk_sound zero (h ∷ queue) seen live out d e q l x f = unfold walk pure in cc
      walk_sound (suc fuel) (h ∷ queue) seen live out d e q l x f =
          elim (walk-round crates m mark fuel h queue seen live out d e) [
            | inl (_, w) ↦ walk_sound fuel queue seen live out d w (λ y k. q y (Memᴰ.tail k)) l x f
            | inr (inl (_, _, w)) ↦
                walk_sound fuel queue (add h seen) live out d w (λ y k. q y (Memᴰ.tail k)) l x f
            | inr (inr (_, v)) ↦
                let here : Linked Root h = q h (Memᴰ.head refl) in
                walk_sound fuel (reverse v.commit.parents ++ queue) (add h seen) v.live' out d
                  (rest_of v)
                  (λ y k. elim (Memᴰ.append_cases (reverse v.commit.parents) k) [
                    | inl up ↦ parent v.commit here v.held (mem_of_reverse y v.commit.parents up)
                    | inr old ↦ q y (Memᴰ.tail old)
                  ])
                  (λ y k. elim (spec.only h v.commit live v.live' v.after y v.marked k) [
                    | inl old ↦ l y old
                    | inr new ↦ record {
                      hash = h;
                      commit = v.commit;
                      linked = here;
                      held = v.held;
                      marks = new;
                    }
                  ])
                  x f
          ]
