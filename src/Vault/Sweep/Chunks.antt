-- ===== src/Vault/Sweep/Chunks.antt =====
-- src/vault.rs, `gc_unreachable_chunks` beside the chunks that the protected commits reach.
use mathlib.Core.List.{Memᴰ}
use mathlib.Core.List.Memᴰ
use soal.Base.{
  ℕ, suc, ◌≡◌, refl, sym, subst, ap, inl, inr, true, Bytes, List, [], ◌∷◌, ◌++◌, Option, none, some,
  Result, ok, err, panic, Bool-cases,
}
use soal.Content.{ContentHash, IsArray}
use soal.Content.Hex.{from_hex, from_hex-IsArray}
use soal.Map.{Map, lookup}
use soal.Disk.{Disk, bind_at, ◌>>=◌, pure, quiet, exists, remove_file}
use soal.Disk.Triples.{Files, After, After-files, >>=-Triple, pure-Triple, call-Triple}
use soal.Set.{Hashes, contains}
use soal.Store.{path_for, list, list_entries, list_entry, strip_suffix, chunk_suffix}
use soal.Store.Sound.{path_for_injective}
use soal.Vault.{Crates}
use soal.Vault.Live.{live_chunk_hashes}
use soal.Vault.Heads.{protected_commit_roots}
use soal.Vault.Heads.Protected.{IsProtected}
use soal.Vault.Live.Roots.{protected}
use soal.Vault.Live.Reach.{IsLive, IsLive-map}
use soal.Vault.Live.Marks.{IsChunk, live_chunk_hashes_iff}
use soal.Vault.Live.Ends.{live_chunk_hashes-IsReading}
use soal.Vault.Sweep.{sweep_chunk, sweep_chunks, sweep_all_chunks, gc_unreachable_chunks}
use soal.Vault.Sweep.Safe.{Keeps, remove_file-Keeps, counted-Keeps}

abbrev AllArrays : List ContentHash → Type 0
AllArrays hs = (h : ContentHash) → Memᴰ h hs → IsArray 32 h

module _ (crates : Crates) where
  open crates use {hex, blake3}

  list_entry-AllArrays :
      (name : Bytes) (hashes : List ContentHash)
      → AllArrays hashes
      → AllArrays (list_entry hex blake3 name hashes)
  unfolding list_entry
  list_entry-AllArrays name hashes all = stem (strip_suffix chunk_suffix name)
    where
      found :
          (s : Bytes) (r : Result ContentHash)
          → from_hex hex s ≡ r
          → AllArrays (elim r [ ok h ↦ hashes ++ h ∷ [] | _ ↦ hashes ])
      found s (ok h) e = λ x k. elim (Memᴰ.append_cases hashes k) [
        | inl old ↦ all x old
        | inr new ↦ subst (IsArray 32) (sym (Memᴰ.eq_of_singleton new)) (from_hex-IsArray hex s h e)
      ]
      found s (err x) e = all
      found s panic e = all

      stem :
          (o : Option Bytes)
          → AllArrays (elim o [
            | none ↦ hashes
            | some hexpart ↦ elim (from_hex hex hexpart) [ ok h ↦ hashes ++ h ∷ [] | _ ↦ hashes ]
          ])
      stem none = all
      stem (some s) = found s (from_hex hex s) refl

  list_entries-AllArrays :
      (m : Map Bytes) (hashes : List ContentHash)
      → AllArrays hashes
      → AllArrays (list_entries hex blake3 m hashes)
  unfolding list_entries
  list_entries-AllArrays [] hashes all = all
  list_entries-AllArrays ((name, bytes) ∷ m) hashes all =
      list_entries-AllArrays m _ (list_entry-AllArrays name hashes all)

  module _ (live : Hashes) (x : ContentHash) (a : IsArray 32 x) (there : contains x live ≡ true)
      (o : Option Bytes) where
    sweep_chunk-Keeps :
        (h : ContentHash) (removed : ℕ)
        → IsArray 32 h
        → Keeps (path_for hex blake3 x) o (sweep_chunk crates live h removed)
    unfolding sweep_chunk
    sweep_chunk-Keeps h removed b = record {
      run = λ d p. elim (Bool-cases (contains h live)) [
        | inl old ↦ rw (old, sweep_chunk) (unfold After in p)
        | inr gone ↦ elim (Bool-cases (exists (path_for hex blake3 h) d)) [
          | inl q ↦
              rw (gone, q, sweep_chunk)
                ((counted-Keeps (path_for hex blake3 x) o (suc removed)
                    (remove_file (path_for hex blake3 h))
                    (remove_file-Keeps _ o _
                      (λ same. cc (gone, there, path_for_injective hex blake3 h x b a same)))).run
                  d p)
          | inr q ↦ rw (gone, q, sweep_chunk) (unfold After in p)
        ]
      ];
    }

    sweep_chunks-Keeps :
        (hs : List ContentHash) (removed : ℕ)
        → AllArrays hs
        → Keeps (path_for hex blake3 x) o (sweep_chunks crates live hs removed)
    unfolding sweep_chunks
    sweep_chunks-Keeps [] removed all = pure-Triple removed (λ f p. p)
    sweep_chunks-Keeps (h ∷ hs) removed all =
        >>=-Triple (λ _ f. lookup (path_for hex blake3 x) f ≡ o)
          (sweep_chunk-Keeps h removed (all h (Memᴰ.head refl)))
          (λ removed'. sweep_chunks-Keeps hs removed' (λ k m. all k (Memᴰ.tail m)))

    sweep_all_chunks-Keeps : Keeps (path_for hex blake3 x) o (sweep_all_chunks crates (some live))
    unfolding sweep_all_chunks list
    sweep_all_chunks-Keeps =
        >>=-Triple (λ hs f. AllArrays hs × (lookup (path_for hex blake3 x) f ≡ o))
          (record {
            run = λ d p.
                (>>=-Triple (λ _ f. lookup (path_for hex blake3 x) f ≡ o) (call-Triple (λ f q. q))
                    (λ _. pure-Triple _ (λ f q.
                      (list_entries-AllArrays d.files [] (λ h k. absurd (Memᴰ.not-nil k)), q)))).run
                  d p;
          })
          (λ hs. record {
            run = λ d (all, p).
                (>>=-Triple (λ _ f. lookup (path_for hex blake3 x) f ≡ o)
                    (sweep_chunks-Keeps hs 0 all) (λ removed. pure-Triple _ (λ f q. q))).run
                  d p;
          })

module _ (crates : Crates) (m : Files) (fuel : ℕ) (roots : List ContentHash)
    (start : protected_commit_roots crates (quiet m) ≡ (ok roots, quiet m)) where
  -- On a disk with no failing call, where protected_commit_roots returns: gc_unreachable_chunks,
  -- whatever it returns, does not change the file of a chunk, with a hash of 32 bytes, in the tree,
  -- as far as the vault has it and loads it, of a commit that the vault has and loads, and that
  -- HEAD, HEADS or a registered snapshot leads to along the parents of such commits.
  pub gc_unreachable_chunks-keeps :
      (x : ContentHash)
      → IsArray 32 x
      → IsLive crates m (IsChunk crates m) (IsProtected crates m) x
      → lookup
          (path_for crates.hex crates.blake3 x)
          (gc_unreachable_chunks crates fuel (quiet m)).1.files
        ≡ lookup (path_for crates.hex crates.blake3 x) m
  unfolding gc_unreachable_chunks ◌>>=◌
  gc_unreachable_chunks-keeps x a live =
      go (live_chunk_hashes crates fuel (quiet m)) refl
        ((live_chunk_hashes-IsReading crates m fuel).left m)
    where
      swept :
          (out : Hashes) (d : Disk)
          → live_chunk_hashes crates fuel (quiet m) ≡ (ok (some out), d)
          → d ≡ quiet m
          → lookup
              (path_for crates.hex crates.blake3 x)
              (sweep_all_chunks crates (some out) d).1.files
            ≡ lookup (path_for crates.hex crates.blake3 x) m
      swept out d e here =
          let (_, iff) = live_chunk_hashes_iff crates m fuel out d e in
          let there : contains x out ≡ true =
            (iff x).1 (IsLive-map crates m (λ h k. protected roots start k) live) in
          After-files
            (λ f.
              lookup (path_for crates.hex crates.blake3 x) f
              ≡ lookup (path_for crates.hex crates.blake3 x) m)
            (sweep_all_chunks crates (some out) d)
            ((sweep_all_chunks-Keeps crates out x a there
                (lookup (path_for crates.hex crates.blake3 x) m)).run
              d (ap (λ b. lookup (path_for crates.hex crates.blake3 x) b.files) here))

      go :
          (r : Result (Option Hashes) × Disk)
          → live_chunk_hashes crates fuel (quiet m) ≡ r
          → r.1 ≡ quiet m
          → lookup
              (path_for crates.hex crates.blake3 x)
              (bind_at r (sweep_all_chunks crates)).1.files
            ≡ lookup (path_for crates.hex crates.blake3 x) m
      go (ok none, d) e here =
          unfold bind_at sweep_all_chunks pure in
          ap (λ b. lookup (path_for crates.hex crates.blake3 x) b.files) here
      go (ok (some out), d) e here = unfold bind_at in swept out d e here
      go (err f, d) e here =
          unfold bind_at in ap (λ b. lookup (path_for crates.hex crates.blake3 x) b.files) here
      go (panic, d) e here =
          unfold bind_at in ap (λ b. lookup (path_for crates.hex crates.blake3 x) b.files) here
