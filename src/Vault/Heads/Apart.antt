-- ===== src/Vault/Heads/Apart.antt =====
-- src/vault.rs, `set_head_public` beside the files of commits, trees and chunks.
use soal.Base.{◌≢◌, [], Bytes, Option, none, some, Bool, ok}
use soal.Content.{ContentHash}
use soal.Disk.{exists}
use soal.Disk.Triples.{Files}
use soal.Disk.Apart.{
  Spares, >>=-Spares, lift-Spares, pure-Spares, if-Spares, read_file-Spares, write_file-Spares,
  Reads-Spares,
}
use soal.Vault.{Crates}
use soal.Vault.Objects.{load_commit}
use soal.Vault.Stored.{IsStored, head_file-IsApart, heads_file-IsApart}
use soal.Vault.Transfer.Served.{load_commit-Reads}
use soal.Vault.Heads.{
  head_file, heads_file, read_to_string, set_head, read_head, head, read_heads,
  list_heads_file_only, list_heads, write_heads, record_head, set_head_public,
}

module _ (crates : Crates) (P : Bytes → Type 0) (old : Files) where
  read_to_string-Spares : (name : Bytes) → Spares P old (read_to_string name)
  unfolding read_to_string
  read_to_string-Spares name =
      >>=-Spares P old (read_file-Spares P old name)
        (λ text. >>=-Spares P old (lift-Spares P old _) (λ u. pure-Spares P old text))

  head-Spares : Spares P old (head crates)
  unfolding head read_head soal.Disk.pure
  head-Spares =
      if-Spares P old (λ d. soal.Base.not (exists head_file d)) _ _ (pure-Spares P old none)
        (>>=-Spares P old (read_to_string-Spares head_file)
          (λ s. >>=-Spares P old (lift-Spares P old _) (λ h. pure-Spares P old (some h))))

  list_heads-Spares : Spares P old (list_heads crates)
  unfolding list_heads list_heads_file_only read_heads soal.Disk.pure
  list_heads-Spares =
      >>=-Spares P old
        (if-Spares P old (exists heads_file) _ _
          (>>=-Spares P old (read_to_string-Spares heads_file) (λ s. pure-Spares P old _))
          (pure-Spares P old []))
        (λ heads. >>=-Spares P old head-Spares (λ h. pure-Spares P old _))

  pub record_head-Spares :
      ((n : Bytes) → P n → heads_file ≢ n) → (h : ContentHash) → Spares P old (record_head crates h)
  unfolding record_head write_heads
  record_head-Spares apart h =
      >>=-Spares P old list_heads-Spares (λ heads. write_file-Spares P old heads_file apart _)

module _ (crates : Crates) (old : Files) where
  set_head-Spares : (h : ContentHash) → Spares (IsStored crates) old (set_head crates h)
  unfolding set_head
  set_head-Spares h = write_file-Spares (IsStored crates) old head_file (head_file-IsApart crates) _

  pub set_head_public-Spares :
      (h : ContentHash) → Spares (IsStored crates) old (set_head_public crates h)
  unfolding set_head_public
  set_head_public-Spares h =
      >>=-Spares (IsStored crates) old
        (Reads-Spares (IsStored crates) old (load_commit crates h)
          (λ m. load_commit-Reads crates h m))
        (λ c.
          >>=-Spares (IsStored crates) old (set_head-Spares h)
            (λ u. record_head-Spares crates (IsStored crates) old (heads_file-IsApart crates) h))
