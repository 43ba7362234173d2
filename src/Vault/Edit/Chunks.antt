-- ===== src/Vault/Edit/Chunks.antt =====
-- src/vault.rs, `load_chunk` after `store_chunk`.
use soal.Base.{◌≡◌, refl, sym, Bytes, Option, none, some, ok}
use soal.Chunking.{Chunk}
use soal.Codec.Frame.{cid_of}
use soal.Crypto.Seal.{decrypt_chunk-encrypt_deterministic}
use soal.Disk.{quiet, ◌>>=◌, bind_at, lift, pure}
use soal.Disk.Triples.{Files}
use soal.Map.{lookup}
use soal.Store.{path_for, put}
use soal.Store.Sound.{get-put_verified}
use soal.Vault.{Crates, Vault}
use soal.Vault.Edit.{data_to_store, load_plain, load_chunk, store_chunk}

module _ (crates : Crates) where
  open crates use {hex, blake3, aead}

  load_plain-data_to_store :
      (key : Option Bytes) (plain stored : Bytes)
      → data_to_store crates key plain ≡ ok stored
      → load_plain crates key stored ≡ ok plain
  unfolding data_to_store load_plain
  load_plain-data_to_store none plain stored e = sym e
  load_plain-data_to_store (some k) plain stored e =
      decrypt_chunk-encrypt_deterministic aead blake3 plain k stored e

  -- On a disk with no failing call, where the chunk's stored form, encrypted if the vault has a
  -- key, can be made and the store has no file of its hash, store_chunk returns that hash, and
  -- load_chunk then returns the chunk for it.
  pub load_chunk-store_chunk :
      (vault : Vault) (chunk : Chunk) (stored : Bytes) (m : Files)
      → data_to_store crates vault.key chunk.bytes ≡ ok stored
      → lookup (path_for hex blake3 (cid_of blake3 stored)) m ≡ none
      → (n : Files) × (store_chunk crates vault chunk (quiet m)
          ≡ (ok (cid_of blake3 stored), quiet n))
        × (load_chunk crates vault (cid_of blake3 stored) (quiet n) ≡ (ok chunk.bytes, quiet n))
  unfolding store_chunk load_chunk put ◌>>=◌ bind_at lift pure
  load_chunk-store_chunk vault chunk stored m e gone =
      let (n, p, g) =
        get-put_verified hex blake3 (cid_of blake3 stored) stored m (unfold cid_of in refl) gone in
      (n, rw (e, p) refl, rw (g, load_plain-data_to_store vault.key chunk.bytes stored e) refl)
