-- ===== src/Disk/Written.antt =====
-- `fs::write`: what it leaves, whichever calls fail. A write that fails may leave a part.
use soal.Base.{◌≡◌, ◌≢◌, refl, sym, ◌∙◌, Bytes, [], take, some, arith}
use soal.Content.{bytes_eq_iff}
use soal.Map.{lookup, insert, lookup-insert}
use soal.Disk.{write_file}
use soal.Disk.Triples.{Files, Triple, >>=-Triple, create-Triple, write_all-Triple}
use soal.Disk.Replace.{lookup-insert_same}

-- Files other than `name` are as they were.
abbrev pub Elsewhere : Bytes → Files → Files → Type 0
Elsewhere name old new = (other : Bytes) → other ≢ name → lookup other new ≡ lookup other old

Elsewhere-insert :
    (name bytes : Bytes) (old m : Files)
    → Elsewhere name old m
    → Elsewhere name old (insert name bytes m)
Elsewhere-insert name bytes old m h other ne =
    grind (arith, lookup-insert name other bytes m, bytes_eq_iff name other, h other ne)

module _ (name bytes : Bytes) (old : Files) where
  pub record Written (m : Files) : Type 0 where
    pub there : lookup name m ≡ some bytes
    pub others : Elsewhere name old m

  pub write_file-Written :
      Triple (λ m. m ≡ old) (write_file name bytes) (λ _ m. Written m) (Elsewhere name old)
  unfolding write_file
  write_file-Written =
      >>=-Triple (λ _ m. Elsewhere name old m)
        (create-Triple name (λ m h. Elsewhere-insert name [] old m (λ other ne. same m h other))
          (λ m h other ne. same m h other))
        (λ _.
          write_all-Triple name bytes
            (λ m h. record {
              there = lookup-insert_same name bytes m;
              others = Elsewhere-insert name bytes old m h;
            })
            (λ m n h. Elsewhere-insert name (take n bytes) old m h))
    where
      same : (m : Files) → m ≡ old → (other : Bytes) → lookup other m ≡ lookup other old
      same m h other = soal.Base.ap (lookup other) h
