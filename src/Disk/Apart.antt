-- ===== src/Disk/Apart.antt =====
-- Code that leaves certain files as they are, whichever calls fail.
use soal.Base.{
  ◌≡◌, ◌≢◌, refl, sym, ◌∙◌, ap, Bool, true, false, Bytes, [], take, Result, ok, SoalError, err,
  if◌then◌else◌,
}
use soal.Map.{lookup, insert, remove}
use soal.Disk.{Disk, Io, ◌>>=◌, lift, pure, call, read_file, write_file, replace}
use soal.Disk.Triples.{
  Files, After, After-map, After-weaken, Triple, >>=-Triple, lift-Triple, pure-Triple, call-Triple,
  read_file-Triple, create-Triple, write_all-Triple, rename-Triple,
}
use soal.Disk.Local.{Agrees}
use soal.Disk.Replace.{lookup-insert_other, lookup-remove_other}
use soal.Disk.Unchanged.{Reads}

-- The files that `P` allows stay as they are in `old`.
abbrev pub Spares {ℓ} : {A : Type ℓ} → (Bytes → Type 0) → Files → Io A → Type ℓ
Spares P old io = Triple (Agrees P old) io (λ _ m. Agrees P old m) (Agrees P old)

module _ (P : Bytes → Type 0) (old : Files) where
  pub >>=-Spares {ℓ κ} :
      {A : Type ℓ} {B : Type κ} {m : Io A} {f : A → Io B}
      → Spares P old m
      → ((a : A) → Spares P old (f a))
      → Spares P old (m >>= f)
  >>=-Spares hm hf = >>=-Triple (λ _ m. Agrees P old m) hm hf

  pub lift-Spares {ℓ} : {A : Type ℓ} (r : Result A) → Spares P old (lift r)
  lift-Spares r = lift-Triple r (λ m h. h) (λ a m e h. h)

  pub pure-Spares {ℓ} : {A : Type ℓ} (a : A) → Spares P old (pure a)
  pure-Spares a = pure-Triple a (λ m h. h)

  pub call-Spares : Spares P old call
  call-Spares = call-Triple (λ m h. h)

  pub if-Spares {ℓ} :
      {A : Type ℓ} (test : Disk → Bool) (m n : Io A)
      → Spares P old m
      → Spares P old n
      → Spares P old (λ d. if test d then m d else n d)
  if-Spares test m n hm hn = record { run = λ d h. go d h (test d) }
    where
      go :
          (d : Disk)
          → Agrees P old d.files
          → (b : Bool) → After (λ _ f. Agrees P old f) (Agrees P old) (if b then m d else n d)
      go d h true = hm.run d h
      go d h false = hn.run d h

  -- Code that only reads spares every file.
  pub Reads-Spares {ℓ} :
      {A : Type ℓ} {Q : A → Type 0} (io : Io A) → ((m : Files) → Reads m io Q) → Spares P old io
  Reads-Spares {Q = Q} io reads = record {
    run = λ d h.
        After-weaken (λ _ m. Agrees P old m) (λ m. m ≡ d.files) (Agrees P old) (io d)
          (λ m e. same d h m e)
          (After-map (λ a m. (m ≡ d.files) × Q a) _ _ (io d) (λ a m p. same d h m p.0)
            ((reads d.files).run d refl));
  }
    where
      same : (d : Disk) → Agrees P old d.files → (m : Files) → m ≡ d.files → Agrees P old m
      same d h m e name p = h name p ∙ ap (lookup name) (sym e)

  pub read_file-Spares : (name : Bytes) → Spares P old (read_file name)
  read_file-Spares name = record {
    run = λ d h.
        After-map (λ bytes m. Agrees P old m × (lookup name m ≡ soal.Base.some bytes)) _ _ _
          (λ a m p. p.0) ((read_file-Triple name (λ m e. e)).run d h);
  }

  module _ (name : Bytes) (apart : (n : Bytes) → P n → name ≢ n) where
    insert-Agrees :
        (bytes : Bytes) (m : Files) → Agrees P old m → Agrees P old (insert name bytes m)
    insert-Agrees bytes m h n p = h n p ∙ sym (lookup-insert_other name n bytes m (apart n p))

    remove-Agrees : (m : Files) → Agrees P old m → Agrees P old (remove name m)
    remove-Agrees m h n p = h n p ∙ sym (lookup-remove_other name n m (apart n p))

    pub write_file-Spares : (bytes : Bytes) → Spares P old (write_file name bytes)
    unfolding write_file
    write_file-Spares bytes =
        >>=-Triple (λ _ m. Agrees P old m)
          (create-Triple name (λ m h. insert-Agrees [] m h) (λ m h. h))
          (λ _.
            write_all-Triple name bytes (λ m h. insert-Agrees bytes m h)
              (λ m n h. insert-Agrees (take n bytes) m h))

  pub replace-Spares :
      (tmp path bytes : Bytes)
      → ((n : Bytes) → P n → tmp ≢ n)
      → ((n : Bytes) → P n → path ≢ n)
      → Spares P old (replace tmp path bytes)
  unfolding replace
  replace-Spares tmp path bytes a b = >>=-Spares (write_file-Spares tmp a bytes) (λ _.
      rename-Triple tmp path
        (λ m found h e. insert-Agrees path b found (remove tmp m) (remove-Agrees tmp a m h))
        (λ m h. h))
