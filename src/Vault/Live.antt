-- ===== src/Vault/Live.antt =====
-- src/vault.rs, `live_chunk_hashes` and `live_object_hashes`: the walks that mark what is
-- reachable from protected commits.
pub mod Rounds
pub mod Roots
pub mod Reach
pub mod Complete
pub mod Marks
pub mod Ends
use soal.Base.{
  ℕ, zero, suc, Bool, true, false, not, Bytes, List, [], ◌∷◌, ◌++◌, reverse, if◌then◌else◌, Option,
  none, some, Result, ok, err, panic,
}
use soal.Content.{ContentHash}
use soal.Commit.{Commit}
use soal.Tree.{all_chunk_hashes}
use soal.Disk.{Disk, Io, ◌>>=◌, ◌>>◌, pure}
use soal.Set.{Hashes, contains, add, add_all}
use soal.Vault.{Crates}
use soal.Vault.Objects.{has_commit_object, has_tree_object, load_commit, load_tree}
use soal.Vault.Heads.{head, protected_commit_roots}

abbrev pub optional : Option ContentHash → List ContentHash
optional none = []
optional (some h) = h ∷ []

-- `self.head().ok().flatten().into_iter().collect()`
unfoldable pub head_or_none : Result (Option ContentHash) × Disk → Result (List ContentHash) × Disk
head_or_none (ok h, d) = (ok (optional h), d)
head_or_none (err e, d) = (ok [], d)
head_or_none (panic, d) = (panic, d)

module _ (crates : Crates) where
  -- What a walk does at a commit with what is live so far.
  abbrev pub Mark : Type 0
  Mark = ContentHash → Commit → Hashes → Io Hashes

  -- `while let Some(h) = queue.pop() { .. }`. The queue is held from its end, where `pop` takes and
  -- `extend` puts. `none` is a walk that the fuel ended.
  unfoldable pub walk : Mark → ℕ → List ContentHash → Hashes → Hashes → Io (Option Hashes)
  walk mark fuel [] seen live = pure (some live)
  walk mark zero (h ∷ queue) seen live = pure none
  walk mark (suc fuel) (h ∷ queue) seen live =
      let skip = walk mark fuel queue seen live in
      let absent = walk mark fuel queue (add h seen) live in
      let visit = (do
        c ← load_commit crates h
        live' ← mark h c live
        walk mark fuel (reverse c.parents ++ queue) (add h seen) live') in
      λ d.
        if contains h seen
        then skip d
        else if not (has_commit_object crates h d)
        then absent d
        else visit d

  -- `if self.has_tree_object(&c.tree) { let tree = self.load_tree(c.tree)?; .. }`
  unfoldable pub mark_chunks : Mark
  mark_chunks h c live d =
      if has_tree_object crates c.tree d
      then (do tree ← load_tree crates c.tree; pure (add_all (all_chunk_hashes tree) live)) d
      else (ok live, d)

  unfoldable pub mark_objects : Mark
  mark_objects h c live = pure (add c.tree (add h live))

  -- `policy::protected_commit_roots(self).unwrap_or_else(|_| ..)`
  unfoldable pub or_head : Result (List ContentHash) × Disk → Result (List ContentHash) × Disk
  or_head (ok roots, d) = (ok roots, d)
  or_head (err e, d) = head_or_none (head crates d)
  or_head (panic, d) = (panic, d)

  unfoldable pub live_roots : Io (List ContentHash)
  live_roots d = or_head (protected_commit_roots crates d)

  unfoldable pub live_chunk_hashes_from_roots : ℕ → List ContentHash → Io (Option Hashes)
  live_chunk_hashes_from_roots fuel roots = walk mark_chunks fuel (reverse roots) [] []

  unfoldable pub live_chunk_hashes : ℕ → Io (Option Hashes)
  live_chunk_hashes fuel = do roots ← live_roots; live_chunk_hashes_from_roots fuel roots

  unfoldable pub live_object_hashes : ℕ → Io (Option Hashes)
  live_object_hashes fuel = do roots ← live_roots; walk mark_objects fuel (reverse roots) [] []
