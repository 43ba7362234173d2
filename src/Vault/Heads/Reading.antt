-- ===== src/Vault/Heads/Reading.antt =====
-- src/vault.rs and src/policy.rs: reading the heads and the protected commits of a vault.
use soal.Base.{
  Bool, true, false, not, Bytes, List, Option, Result, refl, ok, err, panic, if◌then◌else◌, ◌≡◌,
}
use soal.Content.{ContentHash}
use soal.Disk.{Disk, pure, exists, quiet}
use soal.Disk.Triples.{Files}
use soal.Disk.Quiet.{
  IsReading, >>=-IsReading, pure-IsReading, lift-IsReading, if-IsReading, read_file-IsReading,
  call-IsReading, contents-IsReading,
}
use soal.Policy.Registry.{load_snapshots, load_or, parse_file, snapshots_file}
use soal.Vault.{Crates}
use soal.Vault.Heads.{
  read_to_string, head_file, heads_file, read_head, head, read_heads, list_heads_file_only,
  list_heads, protected_commit_roots,
}
use soal.Vault.Live.{head_or_none, or_head, live_roots}

read_to_string-IsReading : (name : Bytes) → IsReading (read_to_string name)
unfolding read_to_string
read_to_string-IsReading name =
    >>=-IsReading _ _ (read_file-IsReading name)
      (λ text. >>=-IsReading _ _ (lift-IsReading _) (λ u. pure-IsReading text))

module _ (crates : Crates) where
  read_head-IsReading : IsReading (read_head crates)
  unfolding read_head
  read_head-IsReading =
      >>=-IsReading _ _ (read_to_string-IsReading head_file)
        (λ hexstr. >>=-IsReading _ _ (lift-IsReading _) (λ h. pure-IsReading _))

  pub head-IsReading : IsReading (head crates)
  unfolding head
  head-IsReading =
      if-IsReading (λ d. not (exists head_file d)) _ _ (record { left = λ f. refl })
        read_head-IsReading

  read_heads-IsReading : IsReading (read_heads crates)
  unfolding read_heads
  read_heads-IsReading =
      >>=-IsReading _ _ (read_to_string-IsReading heads_file) (λ text. pure-IsReading _)

  list_heads_file_only-IsReading : IsReading (list_heads_file_only crates)
  unfolding list_heads_file_only
  list_heads_file_only-IsReading =
      if-IsReading (exists heads_file) _ _ read_heads-IsReading (record { left = λ f. refl })

  pub list_heads-IsReading : IsReading (list_heads crates)
  unfolding list_heads
  list_heads-IsReading =
      >>=-IsReading _ _ list_heads_file_only-IsReading
        (λ heads. >>=-IsReading _ _ head-IsReading (λ h. pure-IsReading _))

  pub load_snapshots-IsReading : IsReading (load_snapshots crates.snapshots_json)
  unfolding load_snapshots parse_file
  load_snapshots-IsReading = record { left = λ f. go f (exists snapshots_file (quiet f)) }
    where
      parse : IsReading (parse_file crates.snapshots_json snapshots_file)
      parse =
          >>=-IsReading _ _ call-IsReading
            (λ u. >>=-IsReading _ _ (contents-IsReading snapshots_file) (λ text. lift-IsReading _))

      go :
          (f : Files) (b : Bool)
          → (load_or b
              (record { entries = soal.Base.[] })
              (parse_file crates.snapshots_json snapshots_file)
              (quiet f)).1
            ≡ quiet f
      go f true = unfold load_or in parse.left f
      go f false = unfold load_or pure in refl

  pub protected_commit_roots-IsReading : IsReading (protected_commit_roots crates)
  unfolding protected_commit_roots
  protected_commit_roots-IsReading = >>=-IsReading _ _ head-IsReading (λ h.
      >>=-IsReading _ _ list_heads-IsReading
        (λ heads. >>=-IsReading _ _ load_snapshots-IsReading (λ log. pure-IsReading _)))

  pub live_roots-IsReading : IsReading (live_roots crates)
  unfolding live_roots or_head head_or_none
  live_roots-IsReading = record {
    left = λ f.
        go f (protected_commit_roots crates (quiet f)) (protected_commit_roots-IsReading.left f);
  }
    where
      none_left :
          (f : Files) (r : Result (Option ContentHash) × Disk)
          → r.1 ≡ quiet f
          → (head_or_none r).1 ≡ quiet f
      none_left f (ok h, d) e = e
      none_left f (err x, d) e = e
      none_left f (panic, d) e = e

      go :
          (f : Files) (r : Result (List ContentHash) × Disk)
          → r.1 ≡ quiet f
          → (or_head crates r).1 ≡ quiet f
      go f (ok roots, d) e = e
      go f (err x, d) e =
          soal.Base.subst (λ a. (head_or_none (head crates a)).1 ≡ quiet f) (soal.Base.sym e)
            (none_left f (head crates (quiet f)) (head-IsReading.left f))
      go f (panic, d) e = e
