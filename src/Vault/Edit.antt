-- ===== src/Vault/Edit.antt =====
-- src/vault.rs, `store_chunk`, `load_chunk`, `head_tree`, `snapshot` and `merge_head`: chunks as
-- they are stored, snapshots and merges. The clock's time is `now`.
pub mod Chunks
use soal.Base.{
  ℕ, false, Bytes, List, [], ◌∷◌, ◌++◌, ltb, ◌==◌, if◌then◌else◌, Option, none, some, Result, ok,
  err, panic,
}
use soal.Content.{ContentHash, bytes_eq, codes}
use soal.Chunking.{Chunk}
use soal.Crypto.{encrypt_deterministic, decrypt_chunk}
use soal.Codec.Frame.{cid_of}
use soal.Disk.{Disk, Io, ◌>>=◌, ◌>>◌, pure, lift}
use soal.Network.{u64_to_string}
use soal.Policy.Registry.{register_snapshot, load_policy, apply_retention}
use soal.Set.{add}
use soal.Store.{put, get}
use soal.Tree.{Tree, try_add_file, merge_with_conflicts}
use soal.Tree
use soal.Vault.{Crates, Vault}
use soal.Vault.Objects.{save_tree, save_commit, load_commit, load_tree}
use soal.Vault.Heads.{head, set_head, write_heads}
use soal.Vault.Node.{make_commit}

module _ (crates : Crates) where
  open crates use {hex, blake3, aead}

  unfoldable pub data_to_store : Option Bytes → Bytes → Result Bytes
  data_to_store none plain = ok plain
  data_to_store (some k) plain = encrypt_deterministic aead blake3 plain k

  unfoldable pub load_plain : Option Bytes → Bytes → Result Bytes
  load_plain none stored = ok stored
  load_plain (some k) stored = decrypt_chunk aead stored k

  unfoldable pub load_chunk : Vault → ContentHash → Io Bytes
  load_chunk vault hash = do stored ← get hex blake3 hash; lift (load_plain vault.key stored)

  unfoldable pub store_chunk : Vault → Chunk → Io ContentHash
  store_chunk vault chunk = do
    stored ← lift (data_to_store vault.key chunk.bytes)
    fresh ← put hex blake3 (cid_of blake3 stored) stored
    pure (cid_of blake3 stored)

  unfoldable pub store_chunks : Vault → List Chunk → List ContentHash → Io (List ContentHash)
  store_chunks vault [] hashes = pure hashes
  store_chunks vault (c ∷ chunks) hashes = do
    h ← store_chunk vault c
    store_chunks vault chunks (hashes ++ h ∷ [])

  unfoldable pub tree_at : Option ContentHash → Io Tree
  tree_at none = pure Tree.new
  tree_at (some h) = do commit ← load_commit crates h; load_tree crates commit.tree

  unfoldable pub head_tree : Io Tree
  head_tree = do h ← head crates; tree_at h

  -- A new commit of a tree becomes the head.
  unfoldable pub commit_tree : Vault → ℕ → ContentHash → List ContentHash → Bytes → Io ContentHash
  commit_tree vault now tree_hash parents message = do
    commit ← lift (make_commit crates vault now tree_hash parents message)
    commit_hash ← save_commit crates commit
    set_head crates commit_hash
    pure commit_hash

  unfoldable pub snapshot_at : Vault → ℕ → Bytes → Option ContentHash → Io ContentHash
  snapshot_at vault now message (some current_head) = do
    head_commit ← load_commit crates current_head
    commit_tree vault now head_commit.tree (current_head ∷ []) message
  snapshot_at vault now message none = do
    tree_hash ← save_tree crates Tree.new
    commit_tree vault now tree_hash [] message

  -- `let _ = ..`: the failure is dropped, an abort is not.
  unfoldable pub ignored {ℓ} : {A : Type ℓ} → Result A × Disk → Result (Unit {0}) × Disk
  ignored (ok a, d) = (ok tt, d)
  ignored (err e, d) = (ok tt, d)
  ignored (panic, d) = (panic, d)

  unfoldable pub ignore {ℓ} : {A : Type ℓ} → Io A → Io (Unit {0})
  unfolding ignored
  ignore io d = ignored (io d)

  -- `if let Ok(pol) = policy::load_policy(self) { let _ = policy::apply_retention(self, &pol); }`
  unfoldable pub retain_by_policy : Vault → Io (Unit {0})
  retain_by_policy vault = ignore (do
    pol ← load_policy crates.policy_json vault.config.min_replicas
    apply_retention crates.snapshots_json pol)

  unfoldable pub snapshot : Vault → ℕ → Bytes → Io ContentHash
  snapshot vault now message = do
    current ← head crates
    commit_hash ← snapshot_at vault now message current
    ignore (register_snapshot crates.snapshots_json hex now commit_hash message false)
    retain_by_policy vault
    pure commit_hash

  -- `if !parents.contains(&remote_head) { parents.push(remote_head); }`
  unfoldable pub merge_parents : Option ContentHash → ContentHash → List ContentHash
  merge_parents none remote_head = remote_head ∷ []
  merge_parents (some h) remote_head =
      if bytes_eq h remote_head then h ∷ [] else h ∷ remote_head ∷ []

  unfoldable pub merge_message : Bytes → ℕ → Bytes
  merge_message from_label conflicts =
      if ltb 0 conflicts
      then codes "Merge "
        ++ (from_label
            ++ (codes " ("
                ++ (u64_to_string conflicts
                    ++ (codes " conflict"
                        ++ ((if conflicts == 1 then [] else codes "s") ++ codes ")")))))
      else codes "Merge " ++ from_label

  unfoldable pub merge_head : Vault → ℕ → ContentHash → Bytes → Io (ContentHash × ℕ)
  merge_head vault now remote_head from_label = do
    must_exist ← load_commit crates remote_head
    remote_commit ← load_commit crates remote_head
    remote_tree ← load_tree crates remote_commit.tree
    local_head ← head crates
    ours ← tree_at local_head
    let (merged, conflicts) = merge_with_conflicts ours remote_tree from_label
    tree_hash ← save_tree crates merged
    commit_hash ←
        commit_tree vault now tree_hash (merge_parents local_head remote_head)
          (merge_message from_label conflicts)
    write_heads crates (add commit_hash [])
    pure (commit_hash, conflicts)
