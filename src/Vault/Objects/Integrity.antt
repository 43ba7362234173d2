-- ===== src/Vault/Objects/Integrity.antt =====
-- src/vault.rs, what `load_commit` returns against what is stored.
use soal.Base.{
  ◌≡◌, refl, sym, ◌∙◌, ap, ◌⊎◌, inl, inr, false, not, ◌&&◌, Bytes, none, some, Result, ok, reject,
  SoalError, arith, Bool-cases,
}
use soal.Content.{ContentHash, bytes_eq, bytes_eq_iff}
use soal.Map.{lookup}
use soal.Commit.{Commit}
use soal.Codec.Frame.{cid_of}
use soal.Disk.{Disk, exists}
use soal.Disk.Triples.{
  Files, After, After-map, Triple, >>=-Triple, lift-Triple, pure-Triple, read_file-Triple,
}
use soal.Vault.{Crates}
use soal.Vault.Dual.{
  commit_from_wire_or_json, commit_from_bytes, commit_legacy_json_hash, commit_hash,
}
use soal.Vault.Objects.{
  load_commit_bin, load_commit_json, load_commit, commit_path_bin, commit_path_json, check_hash,
}

lookup_of_absent :
    (name bytes : Bytes) (d : Disk) → exists name d ≡ false → lookup name d.files ≡ none
unfolding exists
lookup_of_absent name bytes d e = ground arith

module _ (crates : Crates) (hash : ContentHash) where
  open crates use {blake3}

  -- The commit of the wire in the file of the hash.
  pub record IsBinCommit (c : Commit) (m : Files) : Type 0 where
    pub bytes : Bytes
    pub there : lookup (commit_path_bin crates hash) m ≡ some bytes
    pub content : cid_of blake3 bytes ≡ hash
    pub decoded : commit_from_wire_or_json crates bytes ≡ ok c
    pub identity : commit_hash crates c ≡ ok hash

  -- The commit of the JSON text, where there is no wire.
  pub record IsJsonCommit (c : Commit) (m : Files) : Type 0 where
    pub bytes : Bytes
    pub no_wire : lookup (commit_path_bin crates hash) m ≡ none
    pub there : lookup (commit_path_json crates hash) m ≡ some bytes
    pub decoded : commit_from_bytes crates bytes ≡ ok c
    pub content : (commit_legacy_json_hash crates c ≡ hash) ⊎ (cid_of blake3 bytes ≡ hash)

  pub check_hash_inv :
      (actual : ContentHash) → check_hash crates hash actual ≡ ok tt → actual ≡ hash
  unfolding check_hash
  check_hash_inv actual e = ground (arith, bytes_eq_iff actual hash)

  either_hash :
      (a b : ContentHash) (e : SoalError)
      → reject (not (bytes_eq a hash) && not (bytes_eq b hash)) e ≡ ok tt
      → (a ≡ hash) ⊎ (b ≡ hash)
  either_hash a b e p = elim (Bool-cases (bytes_eq a hash)) [
    | inl q ↦ inl ((bytes_eq_iff a hash).0 q)
    | inr q ↦ inr ((bytes_eq_iff b hash).0 (ground arith))
  ]

  load_commit_bin-Triple :
      (old : Files)
      → Triple
          (λ m. m ≡ old)
          (load_commit_bin crates hash)
          (λ c m. (m ≡ old) × IsBinCommit c old)
          (λ m. m ≡ old)
  unfolding load_commit_bin
  load_commit_bin-Triple old =
      >>=-Triple (λ bytes m. (m ≡ old) × (lookup (commit_path_bin crates hash) m ≡ some bytes))
        (read_file-Triple (commit_path_bin crates hash) (λ m e. e))
        (λ bytes.
          >>=-Triple
            (λ _ m.
              (m ≡ old)
              × (lookup (commit_path_bin crates hash) m ≡ some bytes)
              × (cid_of blake3 bytes ≡ hash))
            (lift-Triple _ (λ m h. h.0) (λ u m e h. (h.0, h.1, check_hash_inv _ (pass u e))))
            (λ _.
              >>=-Triple
                (λ c m.
                  (m ≡ old)
                  × (lookup (commit_path_bin crates hash) m ≡ some bytes)
                  × (cid_of blake3 bytes ≡ hash)
                  × (commit_from_wire_or_json crates bytes ≡ ok c))
                (lift-Triple _ (λ m h. h.0) (λ c m e h. (h.0, h.1, h.2, e)))
                (λ c.
                  >>=-Triple
                    (λ actual m.
                      (m ≡ old)
                      × (lookup (commit_path_bin crates hash) m ≡ some bytes)
                      × (cid_of blake3 bytes ≡ hash)
                      × (commit_from_wire_or_json crates bytes ≡ ok c)
                      × (commit_hash crates c ≡ ok actual))
                    (lift-Triple _ (λ m h. h.0) (λ actual m e h. (h.0, h.1, h.2, h.3, e)))
                    (λ actual.
                      >>=-Triple (λ _ m. (m ≡ old) × IsBinCommit c old)
                        (lift-Triple _ (λ m h. h.0)
                          (λ u m e h. (
                            h.0,
                            record {
                              bytes = bytes;
                              there = ap (lookup (commit_path_bin crates hash)) (sym h.0) ∙ h.1;
                              content = h.2;
                              decoded = h.3;
                              identity = h.4 ∙ ap ok (check_hash_inv actual (pass u e));
                            },
                          )))
                        (λ _. pure-Triple c (λ m h. h))))))
    where
      pass : {r : Result (Unit {0})} (u : Unit {0}) → r ≡ ok u → r ≡ ok tt
      pass u e = e

  load_commit_json-Triple :
      (old : Files)
      → lookup (commit_path_bin crates hash) old ≡ none
      → Triple
          (λ m. m ≡ old)
          (load_commit_json crates hash)
          (λ c m. (m ≡ old) × IsJsonCommit c old)
          (λ m. m ≡ old)
  unfolding load_commit_json
  load_commit_json-Triple old none_there =
      >>=-Triple (λ bytes m. (m ≡ old) × (lookup (commit_path_json crates hash) m ≡ some bytes))
        (read_file-Triple (commit_path_json crates hash) (λ m e. e))
        (λ bytes.
          >>=-Triple
            (λ c m.
              (m ≡ old)
              × (lookup (commit_path_json crates hash) m ≡ some bytes)
              × (commit_from_bytes crates bytes ≡ ok c))
            (lift-Triple _ (λ m h. h.0) (λ c m e h. (h.0, h.1, e)))
            (λ c.
              >>=-Triple (λ _ m. (m ≡ old) × IsJsonCommit c old)
                (lift-Triple _ (λ m h. h.0)
                  (λ u m e h. (
                    h.0,
                    record {
                      bytes = bytes;
                      no_wire = none_there;
                      there = ap (lookup (commit_path_json crates hash)) (sym h.0) ∙ h.1;
                      decoded = h.2;
                      content = either_hash _ _ _ e;
                    },
                  )))
                (λ _. pure-Triple c (λ m h. h))))

  -- For any sequence of failing calls: a commit that load_commit returns is what the wire in the
  -- file of the hash decodes to, where the bytes and the commit have that hash, or, where there is
  -- no such file, what the JSON text in its place parses to, where the text or the commit's JSON
  -- form has that hash; no file is changed whether it returns or fails.
  pub load_commit-After :
      (d : Disk)
      → After
          (λ c m. (IsBinCommit c d.files ⊎ IsJsonCommit c d.files) × (m ≡ d.files))
          (λ m. m ≡ d.files)
          (load_commit crates hash d)
  unfolding load_commit
  load_commit-After d = elim (Bool-cases (exists (commit_path_bin crates hash) d)) [
    | inl q ↦ rw q (
        After-map (λ c m. (m ≡ d.files) × IsBinCommit c d.files) _ _ _ (λ c m h. (inl h.1, h.0))
          ((load_commit_bin-Triple d.files).run d refl))
    | inr q ↦ elim (Bool-cases (exists (commit_path_json crates hash) d)) [
      | inl r ↦
          rw (q, r)
            (After-map (λ c m. (m ≡ d.files) × IsJsonCommit c d.files) _ _ _
              (λ c m h. (inr h.1, h.0))
              ((load_commit_json-Triple d.files
                  (lookup_of_absent (commit_path_bin crates hash) hash d q)).run
                d refl))
      | inr r ↦ rw (q, r) (unfold After in refl)
    ]
  ]
