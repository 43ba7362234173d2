-- ===== src/Vault/Sweep.antt =====
-- src/vault.rs, `gc_unreachable_chunks`, `gc_unreachable_objects` and `gc_all`: deletion of what
-- no protected commit reaches. The folders `commits` and `trees` exist and hold only files.
pub mod Names
pub mod Safe
pub mod Chunks
use soal.Base.{
  ℕ, suc, ◌+◌, ◌-◌, Bool, true, false, not, Bytes, List, [], ◌∷◌, ltb, ◌==◌, length, take, drop,
  if◌then◌else◌, Option, none, some, Result, ok, err, panic,
}
use soal.Content.{ContentHash, bytes_eq}
use soal.Content.Hex.{from_hex}
use soal.Disk.{Disk, Io, ◌>>=◌, ◌>>◌, pure, exists, call, remove_file, names}
use soal.Paths.{split_ext}
use soal.Set.{Hashes, contains}
use soal.Store.{path_for, list}
use soal.Vault.{Crates}
use soal.Vault.Objects.{commits_dir, trees_dir}
use soal.Vault.Live.{live_chunk_hashes, live_object_hashes}

-- The name below a folder of the path of a file in it.
unfoldable pub strip_prefix : Bytes → Bytes → Option Bytes
strip_prefix dir name =
    if ltb (length name) (length dir)
    then none
    else if bytes_eq (take (length dir) name) dir
    then some (drop (length dir) name)
    else none

-- `path.file_stem()`
unfoldable pub file_stem : Bytes → Bytes
file_stem file = (split_ext file).0

-- `x += 1` behind a call.
abbrev counted : ℕ → Io (Unit {0}) → Io ℕ
counted removed act = do act; pure (suc removed)

module _ (crates : Crates) where
  open crates use {hex, blake3}

  -- One round of the loop over the chunks.
  unfoldable pub sweep_chunk : Hashes → ContentHash → ℕ → Io ℕ
  sweep_chunk live h removed d =
      if contains h live
      then (ok removed, d)
      else if exists (path_for hex blake3 h) d
      then counted removed (remove_file (path_for hex blake3 h)) d
      else (ok removed, d)

  unfoldable pub sweep_chunks : Hashes → List ContentHash → ℕ → Io ℕ
  sweep_chunks live [] removed = pure removed
  sweep_chunks live (h ∷ hs) removed = do
    removed' ← sweep_chunk live h removed
    sweep_chunks live hs removed'

  -- The rest behind `let live = ..?;`; `none` is a walk that the fuel ended.
  unfoldable pub sweep_all_chunks : Option Hashes → Io (Option ℕ)
  sweep_all_chunks none = pure none
  sweep_all_chunks (some live) = do
    hashes ← list hex blake3
    removed ← sweep_chunks live hashes 0
    pure (some removed)

  unfoldable pub gc_unreachable_chunks : ℕ → Io (Option ℕ)
  gc_unreachable_chunks fuel = do live ← live_chunk_hashes crates fuel; sweep_all_chunks live

  -- The hash that a file of the folder is named by, if it is named by one.
  unfoldable pub named_hash : Bytes → Bytes → Option ContentHash
  named_hash dir name = elim (strip_prefix dir name) [
    | none ↦ none
    | some file ↦
        if not (length (file_stem file) == 64)
        then none
        else elim (from_hex hex (file_stem file)) [ ok h ↦ some h | _ ↦ none ]
  ]

  -- What a round does with the hash of a file.
  unfoldable pub sweep_named : Hashes → Bytes → ℕ → Option ContentHash → Io ℕ
  sweep_named live name removed none = pure removed
  sweep_named live name removed (some h) =
      if contains h live then pure removed else counted removed (remove_file name)

  unfoldable pub sweep_objects : Bytes → Hashes → List Bytes → ℕ → Io ℕ
  sweep_objects dir live [] removed = pure removed
  sweep_objects dir live (name ∷ rest) removed = do
    removed' ← sweep_named live name removed (named_hash dir name)
    sweep_objects dir live rest removed'

  unfoldable pub sweep_dir : Bytes → Hashes → Io ℕ
  sweep_dir dir live d = (do call; sweep_objects dir live (names d.files) 0) d

  unfoldable pub sweep_all_objects : Option Hashes → Io (Option (ℕ × ℕ))
  sweep_all_objects none = pure none
  sweep_all_objects (some live) = do
    commits_removed ← sweep_dir commits_dir live
    trees_removed ← sweep_dir trees_dir live
    pure (some (commits_removed, trees_removed))

  unfoldable pub gc_unreachable_objects : ℕ → Io (Option (ℕ × ℕ))
  gc_unreachable_objects fuel = do live ← live_object_hashes crates fuel; sweep_all_objects live

  unfoldable pub total : Option ℕ → Option (ℕ × ℕ) → Option ℕ
  total (some chunks) (some (c, t)) = some (chunks + c + t)
  total _ _ = none

  unfoldable pub gc_all : ℕ → Io (Option ℕ)
  gc_all fuel = do
    chunks ← gc_unreachable_chunks fuel
    objects ← gc_unreachable_objects fuel
    pure (total chunks objects)
