-- ===== src/Vault/Live/Rounds.antt =====
-- src/vault.rs, the marking walks: one round, on a disk with no fault ahead.
use soal.Base.{
  suc, ◌≡◌, ◌⊎◌, inl, inr, true, false, ◌++◌, List, ◌∷◌, reverse, some, ok, Bool-cases, ℕ,
}
use soal.Content.{ContentHash}
use soal.Commit.{Commit}
use soal.Disk.{Disk, quiet}
use soal.Disk.Triples.{Files}
use soal.Disk.Quiet.{>>=-eq-ok, >>=-quiet}
use soal.Set.{Hashes, contains, add}
use soal.Vault.{Crates}
use soal.Vault.Objects.{has_commit_object, load_commit}
use soal.Vault.Objects.Reading.{load_commit-IsReading}
use soal.Vault.Live.{Mark, walk}

module _ (crates : Crates) (m : Files) where
  -- The vault has the commit `c` under the hash `h`.
  pub record Holds (h : ContentHash) (c : Commit) : Type 0 where
    pub present : has_commit_object crates h (quiet m) ≡ true
    pub loaded : load_commit crates h (quiet m) ≡ (ok c, quiet m)

  module _ (mark : Mark crates) where
    -- A walk that returns `out`.
    abbrev pub Walks : ℕ → List ContentHash → Hashes → Hashes → Hashes → Disk → Type 0
    Walks fuel queue seen live out d =
        walk crates mark fuel queue seen live (quiet m) ≡ (ok (some out), d)

    -- A commit that is loaded and marked before the walk goes on to its parents.
    pub record Visited (fuel : ℕ) (h : ContentHash) (queue : List ContentHash)
        (seen live out : Hashes) (d : Disk) : Type 0 where
      pub commit : Commit
      pub live' : Hashes
      pub after : Disk
      pub held : Holds h commit
      pub marked : mark h commit live (quiet m) ≡ (ok live', after)
      pub rest :
          walk crates mark fuel (reverse commit.parents ++ queue) (add h seen) live' after
          ≡ (ok (some out), d)

    pub walk-round :
        (fuel : ℕ) (h : ContentHash) (queue : List ContentHash) (seen live out : Hashes) (d : Disk)
        → Walks (suc fuel) (h ∷ queue) seen live out d
        → ((contains h seen ≡ true) × Walks fuel queue seen live out d)
          ⊎ ((contains h seen ≡ false)
              × (has_commit_object crates h (quiet m) ≡ false)
              × Walks fuel queue (add h seen) live out d)
          ⊎ ((contains h seen ≡ false) × Visited fuel h queue seen live out d)
    unfolding walk
    walk-round fuel h queue seen live out d e = elim (Bool-cases (contains h seen)) [
      | inl old ↦ inl (old, rw (old, walk) at e)
      | inr new ↦ elim (Bool-cases (has_commit_object crates h (quiet m))) [
        | inr absent ↦ inr (inl (new, absent, rw (new, absent, walk) at e))
        | inl present ↦
            let (c, p, e1) =
              >>=-quiet (load_commit crates h) _ (load_commit-IsReading crates h)
                (rw (new, present, walk) at e) in
            let (live', d2, q, e2) = >>=-eq-ok (mark h c live) _ e1 in
            inr (
              inr (
                new,
                record {
                  commit = c;
                  live' = live';
                  after = d2;
                  held = record { present = present; loaded = p };
                  marked = q;
                  rest = e2;
                },
              ))
      ]
    ]
