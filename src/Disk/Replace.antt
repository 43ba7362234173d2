-- ===== src/Disk/Replace.antt =====
-- Writing a file beside its place and moving it there, as src/policy.rs and src/network.rs do.
use soal.Base.{◌≡◌, ◌≢◌, refl, sym, ◌∙◌, Bytes, [], take, Option, some, ok, arith}
use soal.Content.{bytes_eq_iff, bytes_eq_refl}
use soal.Map.{lookup, insert, remove, lookup-insert, lookup-remove}
use soal.Disk.{
  ◌>>=◌, bind_at, attempt, contents, create, write_all, rename, move_to, write_file, replace, quiet,
}
use soal.Disk.Triples.{Files, Triple, >>=-Triple, create-Triple, write_all-Triple, rename-Triple}

pub lookup-insert_same :
    (name bytes : Bytes) (m : Files) → lookup name (insert name bytes m) ≡ some bytes
lookup-insert_same name bytes m = rw (lookup-insert name name bytes m, bytes_eq_refl name)

pub lookup-insert_other :
    (name other bytes : Bytes) (m : Files)
    → name ≢ other
    → lookup other (insert name bytes m) ≡ lookup other m
lookup-insert_other name other bytes m ne =
    grind (arith, lookup-insert name other bytes m, bytes_eq_iff name other)

pub lookup-remove_other :
    (name other : Bytes) (m : Files) → name ≢ other → lookup other (remove name m) ≡ lookup other m
lookup-remove_other name other m ne =
    grind (arith, lookup-remove name other m, bytes_eq_iff name other)

module _ (tmp path bytes : Bytes) (ne : tmp ≢ path) (old : Option Bytes) where
  write_file-Triple :
      Triple
        (λ m. lookup path m ≡ old)
        (write_file tmp bytes)
        (λ _ m. (lookup path m ≡ old) × (lookup tmp m ≡ some bytes))
        (λ m. lookup path m ≡ old)
  unfolding write_file
  write_file-Triple =
      >>=-Triple (λ _ m. lookup path m ≡ old)
        (create-Triple tmp (λ m h. lookup-insert_other tmp path [] m ne ∙ h) (λ m h. h))
        (λ _.
          write_all-Triple tmp bytes
            (λ m h. (lookup-insert_other tmp path bytes m ne ∙ h, lookup-insert_same tmp bytes m))
            (λ m n h. lookup-insert_other tmp path (take n bytes) m ne ∙ h))

  pub replace-Triple :
      Triple
        (λ m. lookup path m ≡ old)
        (replace tmp path bytes)
        (λ _ m. lookup path m ≡ some bytes)
        (λ m. lookup path m ≡ old)
  unfolding replace
  replace-Triple =
      >>=-Triple (λ _ m. (lookup path m ≡ old) × (lookup tmp m ≡ some bytes)) write_file-Triple
        (λ _.
          rename-Triple tmp path
            (λ m found (_, e) f. lookup-insert_same path found (remove tmp m) ∙ sym f ∙ e)
            (λ m (h, _). h))

-- The files after a replacement in which every call succeeds.
abbrev pub replaced : Bytes → Bytes → Bytes → Files → Files
replaced tmp path bytes m = insert path bytes (remove tmp (insert tmp bytes (insert tmp [] m)))

pub replace-quiet :
    (tmp path bytes : Bytes) (m : Files)
    → replace tmp path bytes (quiet m) ≡ (ok tt, quiet (replaced tmp path bytes m))
unfolding replace write_file ◌>>=◌ bind_at create write_all rename move_to contents attempt lookup
    insert
replace-quiet tmp path bytes m = simp (lookup-insert_same tmp bytes (insert tmp [] m)) refl
