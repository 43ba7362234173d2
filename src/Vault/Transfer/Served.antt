-- ===== src/Vault/Transfer/Served.antt =====
-- src/vault.rs, `resolve_blob`: the bytes that it returns, and what the exports of commits and
-- trees return.
use soal.Base.{
  ◌≡◌, refl, sym, ◌∙◌, ap, inl, inr, true, false, Bytes, Bool, Result, ok, arith, Bool-cases,
  if◌then◌else◌,
}
use soal.Content.{ContentHash, bytes_eq, bytes_eq_iff}
use soal.Codec.Frame.{cid_of}
use soal.Disk.{Disk, Io, exists, lift, pure}
use soal.Disk.Triples.{Files, After, After-map, Triple}
use soal.Disk.Unchanged.{
  Reads, >>=-Reads, lift-Reads, pure-Reads, fail-Reads, read_file-Reads, if-Reads,
}
use soal.Store.Sound.{get-After}
use soal.Vault.{Crates}
use soal.Vault.Objects.{
  has_tree_object, has_commit_object, load_tree, load_tree_bin, load_tree_json, load_commit,
  tree_path_bin, tree_path_json, commit_path_bin,
}
use soal.Vault.Objects.Integrity.{load_commit-After, IsBinCommit, IsJsonCommit}
use soal.Vault.Transfer.{
  has_chunk, export_stored_chunk, wire_or_legacy, export_loaded_tree, export_tree_bin,
  export_tree_bytes, export_loaded_commit, export_commit_bin, export_commit_bytes, resolve_blob,
}

module _ (crates : Crates) (hash : ContentHash) (old : Files) where
  open crates use {hex, blake3, keys}

  abbrev pub Has : Bytes → Type 0
  Has bytes = cid_of blake3 bytes ≡ hash

  abbrev pub Any {ℓ} : {A : Type ℓ} → A → Type 0
  Any a = Unit {0}

  pub load_tree-Reads : Reads old (load_tree crates hash) Any
  unfolding load_tree load_tree_bin load_tree_json
  load_tree-Reads =
      if-Reads old (exists (tree_path_bin crates hash)) _ _
        (>>=-Reads old Any (read_file-Reads old (tree_path_bin crates hash)) (λ bytes _.
          >>=-Reads old Any (lift-Reads old _ (λ a e. tt)) (λ u _.
            >>=-Reads old Any (lift-Reads old _ (λ a e. tt)) (λ tree _.
              >>=-Reads old Any (lift-Reads old _ (λ a e. tt)) (λ actual _.
                >>=-Reads old Any (lift-Reads old _ (λ a e. tt))
                  (λ v _. pure-Reads old tree tt))))))
        (if-Reads old (exists (tree_path_json crates hash)) _ _
          (>>=-Reads old Any (read_file-Reads old (tree_path_json crates hash)) (λ bytes _.
            >>=-Reads old Any (lift-Reads old _ (λ a e. tt)) (λ tree _.
              >>=-Reads old Any (lift-Reads old _ (λ a e. tt)) (λ v _. pure-Reads old tree tt))))
          (fail-Reads old _))

  pub load_commit-Reads : Reads old (load_commit crates hash) Any
  load_commit-Reads = record {
    run = λ d h. go d h (load_commit crates hash d) (load_commit-After crates hash d);
  }
    where
      go :
          (d : Disk)
          → d.files ≡ old
          → (r : Result soal.Commit.Commit × Disk)
          → After
              (λ c m.
                (soal.Base.◌⊎◌
                  (IsBinCommit crates hash c d.files)
                  (IsJsonCommit crates hash c d.files))
                × (m ≡ d.files))
              (λ m. m ≡ d.files)
              r
          → After (λ c m. (m ≡ old) × Any c) (λ m. m ≡ old) r
      go d h (ok c, e) p = unfold After in (p.1 ∙ h, tt)
      go d h (soal.Base.err x, e) p = unfold After in p ∙ h
      go d h (soal.Base.panic, e) p = unfold After in p ∙ h

  wire_or_legacy_inv :
      (wire legacy bytes : Bytes) → wire_or_legacy crates hash wire legacy ≡ ok bytes → Has bytes
  unfolding wire_or_legacy
  wire_or_legacy_inv wire legacy bytes e =
      ground
        (arith, bytes_eq_iff (cid_of blake3 wire) hash, bytes_eq_iff (cid_of blake3 legacy) hash)

  export_loaded_tree-Reads : Reads old (export_loaded_tree crates hash) Has
  unfolding export_loaded_tree
  export_loaded_tree-Reads = >>=-Reads old Any load_tree-Reads (λ tree _.
      >>=-Reads old Any (lift-Reads old _ (λ a e. tt))
        (λ wire _. lift-Reads old _ (wire_or_legacy_inv wire _)))

  export_loaded_commit-Reads : Reads old (export_loaded_commit crates hash) Has
  unfolding export_loaded_commit
  export_loaded_commit-Reads = >>=-Reads old Any load_commit-Reads (λ commit _.
      >>=-Reads old Any (lift-Reads old _ (λ a e. tt))
        (λ wire _. lift-Reads old _ (wire_or_legacy_inv wire _)))

  -- `if ContentHash::of(&data) == hash { return Ok(data); }` and what is behind it.
  checked :
      (bytes : Bytes) (behind : Io Bytes)
      → Reads old behind Has
      → Reads old (if bytes_eq (cid_of blake3 bytes) hash then pure bytes else behind) Has
  checked bytes behind h = elim (Bool-cases (bytes_eq (cid_of blake3 bytes) hash)) [
    | inl q ↦ rw q (pure-Reads old bytes ((bytes_eq_iff (cid_of blake3 bytes) hash).0 q))
    | inr q ↦ rw q h
  ]

  pub export_tree_bytes-Reads : Reads old (export_tree_bytes crates hash) Has
  unfolding export_tree_bytes export_tree_bin
  export_tree_bytes-Reads =
      if-Reads old (exists (tree_path_bin crates hash)) _ _
        (>>=-Reads old Any (read_file-Reads old (tree_path_bin crates hash))
          (λ bytes _. checked bytes (export_loaded_tree crates hash) export_loaded_tree-Reads))
        export_loaded_tree-Reads

  pub export_commit_bytes-Reads : Reads old (export_commit_bytes crates hash) Has
  unfolding export_commit_bytes export_commit_bin
  export_commit_bytes-Reads =
      if-Reads old (exists (commit_path_bin crates hash)) _ _
        (>>=-Reads old Any (read_file-Reads old (commit_path_bin crates hash))
          (λ bytes _. checked bytes (export_loaded_commit crates hash) export_loaded_commit-Reads))
        export_loaded_commit-Reads

  pub export_stored_chunk-Reads : Reads old (export_stored_chunk crates hash) Has
  unfolding export_stored_chunk cid_of
  export_stored_chunk-Reads = record {
    run = λ d h.
        After-map
          (λ bytes m.
            (blake3.hash bytes ≡ hash)
            × (soal.Map.lookup (soal.Store.path_for hex blake3 hash) d.files ≡ soal.Base.some bytes)
            × (m ≡ d.files))
          _ _ _ (λ a m p. (p.2 ∙ h, p.0))
          (soal.Disk.Triples.After-weaken _ (λ m. m ≡ d.files) (λ m. m ≡ old) _ (λ m e. e ∙ h)
            (get-After hex blake3 hash d));
  }

  resolve_blob-Reads : Reads old (resolve_blob crates hash) Has
  unfolding resolve_blob
  resolve_blob-Reads = if-Reads old (has_chunk crates hash) _ _ export_stored_chunk-Reads (
      if-Reads old (has_tree_object crates hash) _ _ export_tree_bytes-Reads (
        if-Reads old (has_commit_object crates hash) _ _ export_commit_bytes-Reads
          (fail-Reads old _)))

-- For any sequence of failing calls: bytes that resolve_blob returns have the hash asked for, and
-- no file is changed whether it returns or fails.
pub resolve_blob-After :
    (crates : Crates) (hash : ContentHash) (d : Disk)
    → After
        (λ bytes m. (m ≡ d.files) × (cid_of crates.blake3 bytes ≡ hash))
        (λ m. m ≡ d.files)
        (resolve_blob crates hash d)
resolve_blob-After crates hash d = (resolve_blob-Reads crates hash d.files).run d refl
