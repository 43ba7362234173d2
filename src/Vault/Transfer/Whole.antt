-- ===== src/Vault/Transfer/Whole.antt =====
-- src/vault.rs, `is_complete`: the files that it depends on.
use soal.Base.{
  ◌≡◌, refl, sym, ap, Bool, true, false, not, ◌&&◌, Bytes, List, [], ◌∷◌, Result, ok, if◌then◌else◌,
}
use soal.Content.{ContentHash}
use soal.Disk.{Disk, Io, ◌>>=◌, exists, quiet, lift}
use soal.Disk.Triples.{Files}
use soal.Disk.Local.{
  Agrees, IsLocal, >>=-IsLocal, lift-IsLocal, pure-IsLocal, read_file-IsLocal, if-IsLocal,
  exists-Agrees,
}
use soal.Tree.{all_chunk_hashes}
use soal.Store.{path_for, store_exists}
use soal.Vault.{Crates}
use soal.Vault.Objects.{
  load_commit, load_commit_bin, load_commit_json, load_tree, load_tree_bin, load_tree_json,
  commit_path_bin, commit_path_json, tree_path_bin, tree_path_json, has_commit_object,
  has_tree_object,
}
use soal.Vault.Stored.{IsStored}
use soal.Vault.Transfer.{has_chunk, has_chunks, has_tree_and_chunks, is_complete}

module _ (crates : Crates) where
  open crates use {hex, blake3}

  abbrev P : Bytes → Type 0
  P = IsStored crates

  commit_bin-IsStored : (h : ContentHash) → P (commit_path_bin crates h)
  unfolding commit_path_bin
  commit_bin-IsStored h = IsStored.commit _

  commit_json-IsStored : (h : ContentHash) → P (commit_path_json crates h)
  unfolding commit_path_json
  commit_json-IsStored h = IsStored.commit _

  tree_bin-IsStored : (h : ContentHash) → P (tree_path_bin crates h)
  unfolding tree_path_bin
  tree_bin-IsStored h = IsStored.tree _

  tree_json-IsStored : (h : ContentHash) → P (tree_path_json crates h)
  unfolding tree_path_json
  tree_json-IsStored h = IsStored.tree _

  -- `r?` and then `m`.
  then_lift {ℓ κ} :
      {A : Type ℓ} {B : Type κ} (r : Result A) (f : A → Io B)
      → ((a : A) → IsLocal P (f a))
      → IsLocal P (lift r >>= f)
  then_lift r f h = >>=-IsLocal P (lift r) f (lift-IsLocal P r) h

  load_commit-IsLocal : (h : ContentHash) → IsLocal P (load_commit crates h)
  unfolding load_commit load_commit_bin load_commit_json exists ◌>>=◌ lift
  load_commit-IsLocal h =
      if-IsLocal P (λ f. exists (commit_path_bin crates h) (quiet f)) _ _
        (exists-Agrees P _ (commit_bin-IsStored h))
        (>>=-IsLocal P _ _ (read_file-IsLocal P _ (commit_bin-IsStored h)) (λ bytes.
          then_lift _ _
            (λ u. then_lift _ _ (λ c. then_lift _ _ (λ a. then_lift _ _ (λ v. pure-IsLocal P c))))))
        (if-IsLocal P (λ f. exists (commit_path_json crates h) (quiet f)) _ _
          (exists-Agrees P _ (commit_json-IsStored h))
          (>>=-IsLocal P _ _ (read_file-IsLocal P _ (commit_json-IsStored h))
            (λ bytes. then_lift _ _ (λ c. then_lift _ _ (λ v. pure-IsLocal P c))))
          (fails _))
    where
      fails :
          (e : soal.Base.SoalError) → IsLocal P (lift {A = soal.Commit.Commit} (soal.Base.err e))
      fails e = lift-IsLocal P _

  load_tree-IsLocal : (h : ContentHash) → IsLocal P (load_tree crates h)
  unfolding load_tree load_tree_bin load_tree_json exists ◌>>=◌ lift
  load_tree-IsLocal h =
      if-IsLocal P (λ f. exists (tree_path_bin crates h) (quiet f)) _ _
        (exists-Agrees P _ (tree_bin-IsStored h))
        (>>=-IsLocal P _ _ (read_file-IsLocal P _ (tree_bin-IsStored h)) (λ bytes.
          then_lift _ _
            (λ u. then_lift _ _ (λ c. then_lift _ _ (λ a. then_lift _ _ (λ v. pure-IsLocal P c))))))
        (if-IsLocal P (λ f. exists (tree_path_json crates h) (quiet f)) _ _
          (exists-Agrees P _ (tree_json-IsStored h))
          (>>=-IsLocal P _ _ (read_file-IsLocal P _ (tree_json-IsStored h))
            (λ bytes. then_lift _ _ (λ c. then_lift _ _ (λ v. pure-IsLocal P c))))
          (lift-IsLocal P (soal.Base.err _)))

  has_chunks-Agrees :
      (hs : List ContentHash) (f g : Files)
      → Agrees P f g
      → has_chunks crates hs (quiet f) ≡ has_chunks crates hs (quiet g)
  unfolding has_chunks has_chunk store_exists
  has_chunks-Agrees [] f g e = refl
  has_chunks-Agrees (h ∷ hs) f g e =
      rw
        (
          exists-Agrees P (path_for hex blake3 h) (IsStored.chunk h) f g e,
          has_chunks-Agrees hs f g e,
        )
        refl

  has_chunks-quiet :
      (hs : List ContentHash) (d : Disk)
      → has_chunks crates hs d ≡ has_chunks crates hs (quiet d.files)
  unfolding has_chunks has_chunk store_exists exists
  has_chunks-quiet [] d = refl
  has_chunks-quiet (h ∷ hs) d = rw (has_chunks-quiet hs d) refl

  -- `Ok` of whether all chunks are there.
  answer : List ContentHash → Io Bool
  answer hs d = (ok (has_chunks crates hs d), d)

  answer-IsLocal : (hs : List ContentHash) → IsLocal P (answer hs)
  unfolding answer
  answer-IsLocal hs = record {
    reads = record { left = λ f. refl };
    same = λ m n e. ap ok (has_chunks-Agrees hs m n e);
    lucky = λ d d' a e. (
      rw (sym (has_chunks-quiet hs d)) (cc e),
      ap (λ (x : Result Bool × Disk). x.1.files) (sym e),
    );
  }

  no_answer-IsLocal : IsLocal P (lift (ok false))
  no_answer-IsLocal = lift-IsLocal P (ok false)

  pub is_complete-IsLocal : (h : ContentHash) → IsLocal P (is_complete crates h)
  unfolding is_complete has_tree_and_chunks has_commit_object has_tree_object exists answer lift
  is_complete-IsLocal h =
      if-IsLocal P (λ f. not (has_commit_object crates h (quiet f))) _ _
        (λ f g e.
          rw
            (
              exists-Agrees P _ (commit_bin-IsStored h) f g e,
              exists-Agrees P _ (commit_json-IsStored h) f g e,
            )
            refl)
        no_answer-IsLocal
        (>>=-IsLocal P _ _ (load_commit-IsLocal h) (λ c.
          if-IsLocal P (λ f. not (has_tree_object crates c.tree (quiet f))) _ _
            (λ f g e.
              rw
                (
                  exists-Agrees P _ (tree_bin-IsStored c.tree) f g e,
                  exists-Agrees P _ (tree_json-IsStored c.tree) f g e,
                )
                refl)
            no_answer-IsLocal
            (>>=-IsLocal P _ _ (load_tree-IsLocal c.tree)
              (λ t. answer-IsLocal (all_chunk_hashes t)))))
