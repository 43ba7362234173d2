-- ===== src/Vault/Transfer/Received.antt =====
-- src/vault.rs, `import_commit_bytes`: what it leaves on disk.
use soal.Base.{◌≡◌, ◌≢◌, refl, ◌∙◌, ap, ◌⊎◌, inl, inr, true, false, Bytes, ok, Bool-cases}
use soal.Content.{ContentHash}
use soal.Map.{lookup}
use soal.Commit.{Commit}
use soal.Codec.Frame.{domain_commit, cid_of}
use soal.Disk.{Disk}
use soal.Disk.Triples.{Files, After, After-map, After-weaken, Triple, >>=-Triple, lift-Triple}
use soal.Disk.Written.{Written, write_file-Written}
use soal.Identity.{verify_commit_signature}
use soal.Vault.{Crates}
use soal.Vault.Dual.{is_framed, commit_from_wire_or_json, commit_from_bytes, commit_hash}
use soal.Vault.Objects.{commit_path_bin, commit_path_json}
use soal.Vault.Objects.Integrity.{check_hash_inv}
use soal.Vault.Transfer.{import_framed_commit, import_json_commit, import_commit_bytes}

module _ (crates : Crates) (hash : ContentHash) (bytes : Bytes) (old : Files) where
  open crates use {hex, blake3, keys}

  -- A commit in wire form that has been taken: its signature was checked.
  pub record TookWire (m : Files) : Type 0 where
    pub commit : Commit
    pub framed : is_framed domain_commit bytes ≡ true
    pub decoded : commit_from_wire_or_json crates bytes ≡ ok commit
    pub identity : commit_hash crates commit ≡ ok hash
    pub signed : verify_commit_signature keys hex blake3 commit ≡ ok tt
    pub written : Written (commit_path_bin crates hash) bytes old m

  -- A commit in JSON form that has been taken.
  pub record TookJson (m : Files) : Type 0 where
    pub commit : Commit
    pub unframed : is_framed domain_commit bytes ≡ false
    pub decoded : commit_from_bytes crates bytes ≡ ok commit
    pub written : Written (commit_path_json crates hash) bytes old m

  -- Files of other names than the two of the hash are as they were.
  abbrev pub Untouched : Bytes → Bytes → Files → Type 0
  Untouched bin json m =
      (other : Bytes) → other ≢ bin → other ≢ json → lookup other m ≡ lookup other old

  same_files : (bin json : Bytes) (m : Files) → m ≡ old → Untouched bin json m
  same_files bin json m e other _ _ = ap (lookup other) e

  framed_commit-Triple :
      is_framed domain_commit bytes ≡ true
      → Triple
          (λ m. m ≡ old)
          (import_framed_commit crates hash bytes)
          (λ _ m. TookWire m)
          (Untouched (commit_path_bin crates hash) (commit_path_json crates hash))
  unfolding import_framed_commit
  framed_commit-Triple framed =
      >>=-Triple (λ c m. (m ≡ old) × (commit_from_wire_or_json crates bytes ≡ ok c))
        (lift-Triple _ (same_files _ _) (λ c m e h. (h, e)))
        (λ c.
          >>=-Triple
            (λ actual m.
              (m ≡ old)
              × (commit_from_wire_or_json crates bytes ≡ ok c)
              × (commit_hash crates c ≡ ok actual))
            (lift-Triple _ (λ m h. same_files _ _ m h.0) (λ actual m e h. (h.0, h.1, e)))
            (λ actual.
              >>=-Triple
                (λ _ m.
                  (m ≡ old)
                  × (commit_from_wire_or_json crates bytes ≡ ok c)
                  × (commit_hash crates c ≡ ok hash))
                (lift-Triple _ (λ m h. same_files _ _ m h.0)
                  (λ u m e h. (h.0, h.1, h.2 ∙ ap ok (check_hash_inv crates hash actual e))))
                (λ _.
                  >>=-Triple
                    (λ _ m.
                      (m ≡ old)
                      × (commit_from_wire_or_json crates bytes ≡ ok c)
                      × (commit_hash crates c ≡ ok hash)
                      × (verify_commit_signature keys hex blake3 c ≡ ok tt))
                    (lift-Triple _ (λ m h. same_files _ _ m h.0) (λ u m e h. (h.0, h.1, h.2, e)))
                    (λ _. record {
                      run = λ d h.
                          After-map (λ _ m. Written (commit_path_bin crates hash) bytes old m) _ _ _
                            (λ u m w. record {
                              commit = c;
                              framed = framed;
                              decoded = h.1;
                              identity = h.2;
                              signed = h.3;
                              written = w;
                            })
                            (After-weaken (λ _ m. Written (commit_path_bin crates hash) bytes old m)
                              _ _ _ (λ m e other ne _. e other ne)
                              ((write_file-Written (commit_path_bin crates hash) bytes old).run d
                                h.0));
                    }))))

  json_commit-Triple :
      is_framed domain_commit bytes ≡ false
      → Triple
          (λ m. m ≡ old)
          (import_json_commit crates hash bytes)
          (λ _ m. TookJson m)
          (Untouched (commit_path_bin crates hash) (commit_path_json crates hash))
  unfolding import_json_commit
  json_commit-Triple unframed =
      >>=-Triple (λ c m. (m ≡ old) × (commit_from_bytes crates bytes ≡ ok c))
        (lift-Triple _ (same_files _ _) (λ c m e h. (h, e)))
        (λ c.
          >>=-Triple (λ _ m. (m ≡ old) × (commit_from_bytes crates bytes ≡ ok c))
            (lift-Triple _ (λ m h. same_files _ _ m h.0) (λ u m e h. h))
            (λ _. record {
              run = λ d h.
                  After-map (λ _ m. Written (commit_path_json crates hash) bytes old m) _ _ _
                    (λ u m w. record {
                      commit = c;
                      unframed = unframed;
                      decoded = h.1;
                      written = w;
                    })
                    (After-weaken (λ _ m. Written (commit_path_json crates hash) bytes old m) _ _ _
                      (λ m e other _ ne. e other ne)
                      ((write_file-Written (commit_path_json crates hash) bytes old).run d h.0));
            }))

  import_commit-Triple :
      Triple
        (λ m. m ≡ old)
        (import_commit_bytes crates hash bytes)
        (λ _ m. (cid_of blake3 bytes ≡ hash) × (TookWire m ⊎ TookJson m))
        (Untouched (commit_path_bin crates hash) (commit_path_json crates hash))
  unfolding import_commit_bytes
  import_commit-Triple =
      >>=-Triple (λ _ m. (m ≡ old) × (cid_of blake3 bytes ≡ hash))
        (lift-Triple _ (same_files _ _) (λ u m e h. (h, check_hash_inv crates hash _ e)))
        (λ _. elim (Bool-cases (is_framed domain_commit bytes)) [
          | inl q ↦ rw q (record {
            run = λ d h.
                After-map (λ _ m. TookWire m) _ _ _ (λ u m w. (h.1, inl w))
                  ((framed_commit-Triple q).run d h.0);
          })
          | inr q ↦ rw q (record {
            run = λ d h.
                After-map (λ _ m. TookJson m) _ _ _ (λ u m w. (h.1, inr w))
                  ((json_commit-Triple q).run d h.0);
          })
        ])

-- For any sequence of failing calls: where import_commit_bytes returns, the bytes have the hash and
-- are kept whole in the file of the hash, either as a wire that decodes to a commit of that hash
-- whose signature passes verify_commit_signature, or as unframed JSON that parses; all other files
-- are as before. Where it fails, every file but the two of that hash is as before.
pub import_commit_bytes-After :
    (crates : Crates) (hash : ContentHash) (bytes : Bytes) (d : Disk)
    → After
        (λ _ m.
          (cid_of crates.blake3 bytes ≡ hash)
          × (TookWire crates hash bytes d.files m ⊎ TookJson crates hash bytes d.files m))
        (Untouched crates hash bytes d.files
          (commit_path_bin crates hash)
          (commit_path_json crates hash))
        (import_commit_bytes crates hash bytes d)
import_commit_bytes-After crates hash bytes d =
    (import_commit-Triple crates hash bytes d.files).run d refl
