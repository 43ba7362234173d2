-- ===== src/Disk/Triples.antt =====
-- What holds of the files after code that calls the file system, whichever calls fail.
use soal.Base.{ℕ, ◌≡◌, refl, Bytes, List, [], ◌∷◌, take, Option, none, some, Result, ok, err, panic}
use soal.Map.{Map, lookup, insert, remove}
use soal.Disk.{
  Disk, Io, io_error, bind_at, ◌>>=◌, lift, pure, attempt, call, contents, read_file, create,
  write_all, sync_all, move_to, rename,
}

abbrev pub Files : Type 0
Files = Map Bytes

-- `Q` of the value and the files where the code returns a value, `E` of the files where it fails.
unfoldable pub After {ℓ} :
    {A : Type ℓ} → (A → Files → Type 0) → (Files → Type 0) → Result A × Disk → Type 0
After Q E (ok a, d) = Q a d.files
After Q E (err e, d) = E d.files
After Q E (panic, d) = E d.files

pub After-map {ℓ} :
    {A : Type ℓ} (Q R : A → Files → Type 0) (E : Files → Type 0) (r : Result A × Disk)
    → ((a : A) (m : Files) → Q a m → R a m)
    → After Q E r
    → After R E r
unfolding After
After-map Q R E (ok a, d) f h = f a d.files h
After-map Q R E (err e, d) f h = h
After-map Q R E (panic, d) f h = h

pub After-weaken {ℓ} :
    {A : Type ℓ} (Q : A → Files → Type 0) (E F : Files → Type 0) (r : Result A × Disk)
    → ((m : Files) → E m → F m)
    → After Q E r
    → After Q F r
unfolding After
After-weaken Q E F (ok a, d) f h = h
After-weaken Q E F (err e, d) f h = f d.files h
After-weaken Q E F (panic, d) f h = f d.files h

-- What holds of the files on every outcome.
pub After-files {ℓ} :
    {A : Type ℓ} (E : Files → Type 0) (r : Result A × Disk) → After (λ _. E) E r → E r.1.files
unfolding After
After-files E (ok a, d) h = h
After-files E (err e, d) h = h
After-files E (panic, d) h = h

pub record Triple {ℓ} {A : Type ℓ} (P : Files → Type 0) (m : Io A) (Q : A → Files → Type 0)
    (E : Files → Type 0) : Type ℓ where
  pub run : (d : Disk) → P d.files → After Q E (m d)

module _ {ℓ κ} {A : Type ℓ} {B : Type κ} where
  pub >>=-Triple :
      {P : Files → Type 0} {m : Io A} (R : A → Files → Type 0) {f : A → Io B}
      {Q : B → Files → Type 0} {E : Files → Type 0}
      → Triple P m R E
      → ((a : A) → Triple (R a) (f a) Q E)
      → Triple P (m >>= f) Q E
  unfolding ◌>>=◌ After bind_at
  >>=-Triple {m = m} R {f} {Q} {E} hm hf = record { run = λ d p. go (m d) (hm.run d p) }
    where
      go : (r : Result A × Disk) → After R E r → After Q E (bind_at r f)
      go (ok a, d) h = (hf a).run d h
      go (err e, d) h = h
      go (panic, d) h = h

module _ {ℓ} {A : Type ℓ} {P : Files → Type 0} {Q : A → Files → Type 0} {E : Files → Type 0} where
  pub lift-Triple :
      (r : Result A)
      → ((m : Files) → P m → E m)
      → ((a : A) (m : Files) → r ≡ ok a → P m → Q a m)
      → Triple P (lift r) Q E
  unfolding lift After
  lift-Triple (ok a) bad good = record { run = λ d p. good a d.files refl p }
  lift-Triple (err e) bad good = record { run = λ d p. bad d.files p }
  lift-Triple panic bad good = record { run = λ d p. bad d.files p }

  pub pure-Triple : (a : A) → ((m : Files) → P m → Q a m) → Triple P (pure a) Q E
  unfolding pure After
  pure-Triple a good = record { run = λ d p. good d.files p }

attempt-After :
    (Q : Unit {0} → Files → Type 0) (E : Files → Type 0) (done : Files) (part : ℕ → Files)
    (faults : List (Option ℕ))
    → Q tt done
    → ((n : ℕ) → E (part n))
    → After Q E (attempt done part faults)
unfolding attempt After
attempt-After Q E done part [] good bad = good
attempt-After Q E done part (none ∷ fs) good bad = good
attempt-After Q E done part (some n ∷ fs) good bad = bad n

module _ {Q : Unit {0} → Files → Type 0} {E : Files → Type 0} where
  pub create-Triple :
      {P : Files → Type 0} (name : Bytes)
      → ((m : Files) → P m → Q tt (insert name [] m))
      → ((m : Files) → P m → E m)
      → Triple P (create name) Q E
  unfolding create
  create-Triple name good bad = record {
    run = λ d p.
        attempt-After Q E (insert name [] d.files) (λ n. d.files) d.faults (good d.files p)
          (λ n. bad d.files p);
  }

  pub write_all-Triple :
      {P : Files → Type 0} (name bytes : Bytes)
      → ((m : Files) → P m → Q tt (insert name bytes m))
      → ((m : Files) (n : ℕ) → P m → E (insert name (take n bytes) m))
      → Triple P (write_all name bytes) Q E
  unfolding write_all
  write_all-Triple name bytes good bad = record {
    run = λ d p.
        attempt-After Q E (insert name bytes d.files) (λ n. insert name (take n bytes) d.files)
          d.faults (good d.files p) (λ n. bad d.files n p);
  }

  move_to-Triple :
      {P : Files → Type 0} (from to bytes : Bytes)
      → ((m : Files) → P m → Q tt (insert to bytes (remove from m)))
      → ((m : Files) → P m → E m)
      → Triple P (move_to from to bytes) Q E
  unfolding move_to
  move_to-Triple from to bytes good bad = record {
    run = λ d p.
        attempt-After Q E (insert to bytes (remove from d.files)) (λ n. d.files) d.faults
          (good d.files p) (λ n. bad d.files p);
  }

-- A call that changes no file keeps what holds.
pub call-Triple :
    {P : Files → Type 0} {E : Files → Type 0} → ((m : Files) → P m → E m) → Triple P call (λ _. P) E
unfolding call
call-Triple {P} {E} bad = record {
  run = λ d p. attempt-After (λ _. P) E d.files (λ n. d.files) d.faults p (λ n. bad d.files p);
}

contents-Triple :
    {P : Files → Type 0} {E : Files → Type 0} (name : Bytes)
    → ((m : Files) → P m → E m)
    → Triple P (contents name) (λ bytes m. P m × (lookup name m ≡ some bytes)) E
unfolding contents After
contents-Triple {P} {E} name bad = record { run = λ d p. go d (lookup name d.files) refl p }
  where
    go :
        (d : Disk) (o : Option Bytes)
        → lookup name d.files ≡ o
        → P d.files
        → After
            (λ bytes m. P m × (lookup name m ≡ some bytes))
            E
            (elim o [ none ↦ (err io_error, d) | some bytes ↦ (ok bytes, d) ])
    go d none e p = bad d.files p
    go d (some bytes) e p = (p, e)

pub read_file-Triple :
    {P : Files → Type 0} {E : Files → Type 0} (name : Bytes)
    → ((m : Files) → P m → E m)
    → Triple P (read_file name) (λ bytes m. P m × (lookup name m ≡ some bytes)) E
unfolding read_file
read_file-Triple {P} name bad =
    >>=-Triple (λ _. P) (call-Triple bad)
      (λ _. >>=-Triple (λ _. P) (call-Triple bad) (λ _. contents-Triple name bad))

pub sync_all-Triple :
    {P : Files → Type 0} {E : Files → Type 0}
    → ((m : Files) → P m → E m)
    → Triple P sync_all (λ _. P) E
unfolding sync_all
sync_all-Triple = call-Triple

pub rename-Triple :
    {P : Files → Type 0} {Q : Unit {0} → Files → Type 0} {E : Files → Type 0} (from to : Bytes)
    → ((m : Files) (bytes : Bytes)
        → P m
        → lookup from m ≡ some bytes
        → Q tt (insert to bytes (remove from m)))
    → ((m : Files) → P m → E m)
    → Triple P (rename from to) Q E
unfolding rename
rename-Triple {P} from to good bad =
    >>=-Triple (λ bytes m. P m × (lookup from m ≡ some bytes)) (contents-Triple from bad)
      (λ bytes. move_to-Triple from to bytes (λ m (p, e). good m bytes p e) (λ m (p, _). bad m p))
