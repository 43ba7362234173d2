-- ===== src/Vault/Live/Complete.antt =====
-- src/vault.rs, the marking walks: the marks against what the roots lead to.
use mathlib.Core.List.{Memᴰ}
use mathlib.Core.List.Memᴰ
use soal.Base.{ℕ, zero, suc, ◌≡◌, sym, subst, ap, ◌⊎◌, inl, inr, true, ◌++◌, List, [], ◌∷◌, reverse}
use soal.Content.{ContentHash}
use soal.Commit.{Commit}
use soal.Disk.{Disk, quiet, pure}
use soal.Disk.Triples.{Files}
use soal.Set.{
  Hashes, contains, add, contains-add_cases, contains-add_self, contains-add_old, contains-nil,
}
use soal.Vault.{Crates}
use soal.Vault.Objects.{has_commit_object}
use soal.Vault.Live.{Mark, walk}
use soal.Vault.Live.Rounds.{Holds, Walks, walk-round}
use soal.Vault.Live.Reach.{
  Linked, root, parent, Item, IsLive, Marks, rest_of, returned, walk_sound, mem-reverse,
}

module _ (crates : Crates) (m : Files) (item : Item crates m) where
  -- What is known of a seen commit that the vault has.
  record Seen (seen live : Hashes) (queue : List ContentHash) (h : ContentHash) : Type 0 where
    commit : Commit
    held : Holds crates m h commit
    marked : (x : ContentHash) → item h commit x → contains x live ≡ true
    parents : (p : ContentHash) → Memᴰ p commit.parents → (contains p seen ≡ true) ⊎ Memᴰ p queue

  abbrev Closed : Hashes → Hashes → List ContentHash → Type 0
  Closed seen live queue =
      (h : ContentHash)
      → contains h seen ≡ true
      → has_commit_object crates h (quiet m) ≡ true
      → Seen seen live queue h

  -- The set of all commits that a walk has seen when it returns.
  record Final (seen out : Hashes) (queue : List ContentHash) : Type 0 where
    final : Hashes
    grown : (h : ContentHash) → contains h seen ≡ true → contains h final ≡ true
    done : (h : ContentHash) → Memᴰ h queue → contains h final ≡ true
    closed : Closed final out []

  -- A known fact stays known when sets grow and what leaves the queue is seen.
  Seen-grow :
      (seen seen' live live' : Hashes) (queue queue' : List ContentHash) (h : ContentHash)
      → ((x : ContentHash) → contains x live ≡ true → contains x live' ≡ true)
      → ((x : ContentHash) → contains x seen ≡ true → contains x seen' ≡ true)
      → ((x : ContentHash) → Memᴰ x queue → (contains x seen' ≡ true) ⊎ Memᴰ x queue')
      → Seen seen live queue h
      → Seen seen' live' queue' h
  Seen-grow seen seen' live live' queue queue' h l s q k = record {
    commit = k.commit;
    held = k.held;
    marked = λ x i. l x (k.marked x i);
    parents = λ p u. elim (k.parents p u) [ inl old ↦ inl (s p old) | inr wait ↦ q p wait ];
  }

  module _ (mark : Mark crates) (spec : Marks crates m mark item) where
    walk_closes :
        (fuel : ℕ) (queue : List ContentHash) (seen live out : Hashes) (d : Disk)
        → Walks crates m mark fuel queue seen live out d
        → Closed seen live queue
        → Final seen out queue
    walk_closes fuel [] seen live out d e c = record {
      final = seen;
      grown = λ h k. k;
      done = λ h k. absurd (Memᴰ.not-nil k);
      closed =
          subst (λ s. Closed seen s []) (returned crates m mark item spec fuel seen live out d e) c;
    }
    walk_closes zero (h ∷ queue) seen live out d e c = unfold walk pure in cc
    walk_closes (suc fuel) (h ∷ queue) seen live out d e c =
        elim (walk-round crates m mark fuel h queue seen live out d e) [
          | inl (old, w) ↦
              let r = walk_closes fuel queue seen live out d w (λ k u has.
                Seen-grow seen seen live live (h ∷ queue) queue k (λ x y. y) (λ x y. y)
                  (λ x y. elim (Memᴰ.cases_cons y) [
                    | inl f ↦ inl (subst (λ z. contains z seen ≡ true) (sym f) old)
                    | inr t ↦ inr t
                  ])
                  (c k u has)) in
              record {
                final = r.final;
                grown = r.grown;
                done = λ k u. elim (Memᴰ.cases_cons u) [
                  | inl f ↦ r.grown k (subst (λ z. contains z seen ≡ true) (sym f) old)
                  | inr t ↦ r.done k t
                ];
                closed = r.closed;
              }
          | inr (inl (new, absent, w)) ↦
              let r = walk_closes fuel queue (add h seen) live out d w (λ k u has.
                elim (contains-add_cases h k seen u) [
                  | inl f ↦
                      absurd (cc (absent, has, ap (λ z. has_commit_object crates z (quiet m)) f))
                  | inr old ↦
                      Seen-grow seen (add h seen) live live (h ∷ queue) queue k (λ x y. y)
                        (λ x y. contains-add_old h x seen y) (left h queue seen) (c k old has)
                ]) in
              ends h queue seen out r
          | inr (inr (new, v)) ↦
              let up = reverse v.commit.parents in
              let r =
                walk_closes fuel (up ++ queue) (add h seen) v.live' out d
                  (rest_of crates m mark item spec v)
                  (λ k u has. elim (contains-add_cases h k seen u) [
                    | inl f ↦ subst (Seen (add h seen) v.live' (up ++ queue)) (sym f) (record {
                      commit = v.commit;
                      held = v.held;
                      marked = λ x i. spec.marks h v.commit live v.live' v.after x v.marked i;
                      parents =
                          λ p y. inr (Memᴰ.append_left queue (mem-reverse p v.commit.parents y));
                    })
                    | inr old ↦
                        Seen-grow seen (add h seen) live v.live' (h ∷ queue) (up ++ queue) k
                          (λ x y. spec.keeps h v.commit live v.live' v.after x v.marked y)
                          (λ x y. contains-add_old h x seen y)
                          (λ x y. elim (left h queue seen x y) [
                            | inl a ↦ inl a
                            | inr b ↦ inr (Memᴰ.append_right up b)
                          ])
                          (c k old has)
                  ]) in
              let s = ends h (up ++ queue) seen out r in
              record {
                final = s.final;
                grown = s.grown;
                done = λ k u. elim (Memᴰ.cases_cons u) [
                  | inl f ↦ s.done k (Memᴰ.head f)
                  | inr t ↦ s.done k (Memᴰ.tail (Memᴰ.append_right up t))
                ];
                closed = s.closed;
              }
        ]
      where
        left :
            (h : ContentHash) (queue : List ContentHash) (seen : Hashes) (x : ContentHash)
            → Memᴰ x (h ∷ queue)
            → (contains x (add h seen) ≡ true) ⊎ Memᴰ x queue
        left h queue seen x y = elim (Memᴰ.cases_cons y) [
          | inl f ↦
              inl (subst (λ z. contains z (add h seen) ≡ true) (sym f) (contains-add_self h seen))
          | inr t ↦ inr t
        ]

        ends :
            (h : ContentHash) (queue : List ContentHash) (seen out : Hashes)
            → Final (add h seen) out queue
            → Final seen out (h ∷ queue)
        ends h queue seen out r = record {
          final = r.final;
          grown = λ k u. r.grown k (contains-add_old h k seen u);
          done = λ k u. elim (Memᴰ.cases_cons u) [
            | inl f ↦
                r.grown k
                  (subst (λ z. contains z (add h seen) ≡ true) (sym f) (contains-add_self h seen))
            | inr t ↦ r.done k t
          ];
          closed = r.closed;
        }

    reached :
        (Root : ContentHash → Type 0) (queue : List ContentHash) (seen out : Hashes)
        (h : ContentHash)
        → ((x : ContentHash) → Root x → Memᴰ x queue)
        → (r : Final seen out queue) → Linked crates m Root h
        → contains h r.final ≡ true
    reached Root queue seen out h q r (root k) = r.done h (q h k)
    reached Root queue seen out h q r (parent {h = g} c link held k) =
        let s = r.closed g (reached Root queue seen out g q r link) held.present in
        elim (s.parents h
          (subst (λ (a : Commit). Memᴰ h a.parents) (same c s.commit held s.held) k)) [
            | inl f ↦ f
            | inr t ↦ absurd (Memᴰ.not-nil t)
          ]
      where
        same : (a b : Commit) → Holds crates m g a → Holds crates m g b → a ≡ b
        same a b s t = cc (s.loaded, t.loaded)

    -- From the roots, in any order, the walk returns what the commits that they lead to refer to.
    pub walk_iff :
        (fuel : ℕ) (Root : ContentHash → Type 0) (queue : List ContentHash) (out : Hashes)
        (d : Disk) (x : ContentHash)
        → ((h : ContentHash) → Root h → Memᴰ h queue)
        → ((h : ContentHash) → Memᴰ h queue → Root h)
        → Walks crates m mark fuel queue [] [] out d
        → (contains x out ≡ true → IsLive crates m item Root x)
          × (IsLive crates m item Root x → contains x out ≡ true)
    walk_iff fuel Root queue out d x into back e = (
      walk_sound crates m mark item spec Root fuel queue [] [] out d e (λ y k. root (back y k))
          (λ y k. absurd (cc (k, contains-nil y))) x,
      λ l.
          let r = walk_closes fuel queue [] [] out d e (λ h k. absurd (cc (k, contains-nil h))) in
          let s =
            r.closed l.hash (reached Root queue [] out l.hash into r l.linked) l.held.present in
          s.marked x
            (subst (λ a. item l.hash a x) (same l.hash l.commit s.commit l.held s.held) l.marks),
    )
      where
        same : (g : ContentHash) (a b : Commit) → Holds crates m g a → Holds crates m g b → a ≡ b
        same g a b s t = cc (s.loaded, t.loaded)
