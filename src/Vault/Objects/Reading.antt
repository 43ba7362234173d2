-- ===== src/Vault/Objects/Reading.antt =====
-- src/vault.rs, `load_commit` and `load_tree`, on a disk with no fault ahead.
use soal.Base.{Bool, Bytes, Result}
use soal.Content.{ContentHash}
use soal.Disk.{Disk, Io, lift, pure, exists}
use soal.Disk.Quiet.{
  IsReading, >>=-IsReading, pure-IsReading, lift-IsReading, if-IsReading, read_file-IsReading,
}
use soal.Vault.{Crates}
use soal.Vault.Objects.{
  load_commit_bin, load_commit_json, load_commit, load_tree_bin, load_tree_json, load_tree,
  commit_path_bin, commit_path_json, tree_path_bin, tree_path_json,
}

-- `r?` and then `m`.
lift_then {ℓ κ} :
    {A : Type ℓ} {B : Type κ} (r : Result A) (f : A → Io B)
    → ((a : A) → IsReading (f a))
    → IsReading (soal.Disk.◌>>=◌ (lift r) f)
lift_then r f h = >>=-IsReading (lift r) f (lift-IsReading r) h

module _ (crates : Crates) (hash : ContentHash) where
  load_commit_bin-IsReading : IsReading (load_commit_bin crates hash)
  unfolding load_commit_bin
  load_commit_bin-IsReading =
      >>=-IsReading _ _ (read_file-IsReading (commit_path_bin crates hash)) (λ bytes.
        lift_then _ _ (λ u.
          lift_then _ _
            (λ commit. lift_then _ _ (λ actual. lift_then _ _ (λ v. pure-IsReading commit)))))

  load_commit_json-IsReading : IsReading (load_commit_json crates hash)
  unfolding load_commit_json
  load_commit_json-IsReading =
      >>=-IsReading _ _ (read_file-IsReading (commit_path_json crates hash))
        (λ bytes. lift_then _ _ (λ commit. lift_then _ _ (λ v. pure-IsReading commit)))

  pub load_commit-IsReading : IsReading (load_commit crates hash)
  unfolding load_commit
  load_commit-IsReading =
      if-IsReading (exists (commit_path_bin crates hash)) _ _ load_commit_bin-IsReading (
        if-IsReading (exists (commit_path_json crates hash)) _ _ load_commit_json-IsReading
          (record { left = λ f. soal.Base.refl }))

  load_tree_bin-IsReading : IsReading (load_tree_bin crates hash)
  unfolding load_tree_bin
  load_tree_bin-IsReading =
      >>=-IsReading _ _ (read_file-IsReading (tree_path_bin crates hash)) (λ bytes.
        lift_then _ _ (λ u.
          lift_then _ _
            (λ tree. lift_then _ _ (λ actual. lift_then _ _ (λ v. pure-IsReading tree)))))

  load_tree_json-IsReading : IsReading (load_tree_json crates hash)
  unfolding load_tree_json
  load_tree_json-IsReading =
      >>=-IsReading _ _ (read_file-IsReading (tree_path_json crates hash))
        (λ bytes. lift_then _ _ (λ tree. lift_then _ _ (λ v. pure-IsReading tree)))

  pub load_tree-IsReading : IsReading (load_tree crates hash)
  unfolding load_tree
  load_tree-IsReading =
      if-IsReading (exists (tree_path_bin crates hash)) _ _ load_tree_bin-IsReading (
        if-IsReading (exists (tree_path_json crates hash)) _ _ load_tree_json-IsReading
          (record { left = λ f. soal.Base.refl }))
