-- ===== src/Vault/Stored.antt =====
-- The names under which src/vault.rs stores commits, trees and chunks, apart from its other files.
use soal.Base.{ℕ, ◌≡◌, ◌≢◌, refl, ◌∙◌, ap, Bytes, [], ◌∷◌, ◌++◌, arith}
use soal.Content.{ContentHash, codes}
use soal.Content.Hex.{to_hex}
use soal.Store.{path_for}
use soal.Vault.{Crates}
use soal.Vault.Objects.{commits_dir, trees_dir}
use soal.Vault.Heads.{head_file, heads_file}

module _ (crates : Crates) where
  open crates use {hex, blake3}

  pub data IsStored : Bytes → Type 0 where
    commit : (rest : Bytes) → IsStored (commits_dir ++ rest)
    tree : (rest : Bytes) → IsStored (trees_dir ++ rest)
    chunk : (h : ContentHash) → IsStored (path_for hex blake3 h)

  -- No such name, told by its first or last byte.
  abbrev pub IsApart : Bytes → Type 0
  IsApart name = (n : Bytes) → IsStored n → name ≢ n

first : Bytes → ℕ
first [] = 0
first (b ∷ s) = b

final : Bytes → ℕ
final [] = 0
final (b ∷ []) = b
final (b ∷ c ∷ s) = final (c ∷ s)

final-append : (s : Bytes) (b : ℕ) (t : Bytes) → final (s ++ b ∷ t) ≡ final (b ∷ t)
unfolding final
final-append [] b t = refl
final-append (a ∷ []) b t = refl
final-append (a ∷ c ∷ s) b t = final-append (c ∷ s) b t

module _ (crates : Crates) where
  open crates use {hex, blake3}

  ends-IsApart :
      (name : Bytes)
      → first name ≢ b'c'
      → first name ≢ b't'
      → final name ≢ b'k'
      → IsApart crates name
  unfolding first to_hex
  ends-IsApart name c t k n (IsStored.commit rest) e = c (ap first e)
  ends-IsApart name c t k n (IsStored.tree rest) e = t (ap first e)
  ends-IsApart name c t k n (IsStored.chunk h) e =
      k (ap final e ∙ (unfold path_for final in final-append (hex.encode h) b'.' (codes "chunk")))

  pub head_file-IsApart : IsApart crates head_file
  unfolding first final
  head_file-IsApart =
      ends-IsApart head_file (λ e. omega (arith, e)) (λ e. omega (arith, e)) (λ e. omega (arith, e))

  pub heads_file-IsApart : IsApart crates heads_file
  unfolding first final
  heads_file-IsApart =
      ends-IsApart heads_file (λ e. omega (arith, e)) (λ e. omega (arith, e))
        (λ e. omega (arith, e))

  pub json-IsApart : (s : Bytes) → IsApart crates (codes "sync/jobs/" ++ (s ++ codes ".json"))
  unfolding first final
  json-IsApart s =
      ends-IsApart _ (λ e. omega (arith, e)) (λ e. omega (arith, e))
        (λ e. omega (arith, e, final-append (codes "sync/jobs/" ++ s) b'.' (codes "json")))

  pub tmp-IsApart :
      (s : Bytes) → IsApart crates ((codes "sync/jobs/" ++ (s ++ codes ".json")) ++ codes ".tmp")
  unfolding first final
  tmp-IsApart s =
      ends-IsApart _ (λ e. omega (arith, e)) (λ e. omega (arith, e))
        (λ e.
          omega (
            arith,
            e,
            final-append (codes "sync/jobs/" ++ (s ++ codes ".json")) b'.' (codes "tmp"),
          ))

  pub have_file-IsApart : IsApart crates (codes "replication/peer_have.json")
  unfolding first final
  have_file-IsApart =
      ends-IsApart (codes "replication/peer_have.json") (λ e. omega (arith, e))
        (λ e. omega (arith, e)) (λ e. omega (arith, e))

  pub have_tmp-IsApart : IsApart crates (codes "replication/peer_have.json" ++ codes ".tmp")
  unfolding first final
  have_tmp-IsApart =
      ends-IsApart (codes "replication/peer_have.json" ++ codes ".tmp") (λ e. omega (arith, e))
        (λ e. omega (arith, e)) (λ e. omega (arith, e))
