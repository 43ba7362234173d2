-- ===== src/Chunking.antt =====
-- src/chunking.rs, `Chunk` and `chunk_bytes`: cutting a file into chunks. Where to cut is decided
-- by the crate fastcdc, `cuts`, as offsets and lengths.
use soal.Base.{ℕ, ◌+◌, Bytes, List, [], ◌∷◌, leb, length, take, drop, if◌then◌else◌}
use soal.Content.{ContentHash, Blake3}
use soal.Paths.{is_empty}

pub record Chunk : Type 0 where
  pub hash : ContentHash
  pub bytes : Bytes

-- `FastCDC::new(data, ..)` as an iterator.
abbrev pub FastCdc : Type 0
FastCdc = Bytes → List (ℕ × ℕ)

module _ (blake3 : Blake3) (cuts : FastCdc) where
  unfoldable pub from_data : Bytes → Chunk
  from_data bytes = record { hash = blake3.hash bytes; bytes = bytes }

  -- The loop over the entries; `data[start..end]` is in range behind the test.
  unfoldable pub cut_chunks : Bytes → List (ℕ × ℕ) → List Chunk
  cut_chunks bytes [] = []
  cut_chunks bytes ((offset, size) ∷ entries) =
      let rest = cut_chunks bytes entries in
      if leb (offset + size) (length bytes)
      then from_data (take size (drop offset bytes)) ∷ rest
      else rest

  -- `if chunks.is_empty() { chunks.push(..) }`
  unfoldable pub or_whole : Bytes → List Chunk → List Chunk
  or_whole bytes [] = from_data bytes ∷ []
  or_whole bytes (c ∷ chunks) = c ∷ chunks

  unfoldable pub chunk_bytes : Bytes → List Chunk
  chunk_bytes bytes = if is_empty bytes then [] else or_whole bytes (cut_chunks bytes (cuts bytes))
