-- ===== src/Disk/Unchanged.antt =====
-- Code that changes no file, whichever calls fail.
use soal.Base.{◌≡◌, refl, Bool, true, false, Bytes, Result, ok, err, SoalError, if◌then◌else◌}
use soal.Disk.{Disk, Io, ◌>>=◌, lift, pure, read_file}
use soal.Disk.Triples.{
  Files, After, After-map, Triple, >>=-Triple, lift-Triple, pure-Triple, read_file-Triple,
}

-- From the files `old`, the code leaves them, and returns a value of which `Q` holds.
abbrev pub Reads {ℓ} : {A : Type ℓ} → Files → Io A → (A → Type 0) → Type ℓ
Reads old io Q = Triple (λ m. m ≡ old) io (λ a m. (m ≡ old) × Q a) (λ m. m ≡ old)

module _ (old : Files) where
  pub >>=-Reads {ℓ κ} :
      {A : Type ℓ} {B : Type κ} {m : Io A} (R : A → Type 0) {f : A → Io B} {Q : B → Type 0}
      → Reads old m R
      → ((a : A) → R a → Reads old (f a) Q)
      → Reads old (m >>= f) Q
  >>=-Reads R hm hf =
      >>=-Triple (λ a m. (m ≡ old) × R a) hm (λ a. record { run = λ d h. (hf a h.1).run d h.0 })

  pub lift-Reads {ℓ} :
      {A : Type ℓ} {Q : A → Type 0} (r : Result A)
      → ((a : A) → r ≡ ok a → Q a)
      → Reads old (lift r) Q
  lift-Reads r good = lift-Triple r (λ m h. h) (λ a m e h. (h, good a e))

  pub pure-Reads {ℓ} : {A : Type ℓ} {Q : A → Type 0} (a : A) → Q a → Reads old (pure a) Q
  pure-Reads a q = pure-Triple a (λ m h. (h, q))

  pub fail-Reads {ℓ} :
      {A : Type ℓ} {Q : A → Type 0} (e : SoalError) → Reads {A = A} old (λ d. (err e, d)) Q
  unfolding After
  fail-Reads e = record { run = λ d h. h }

  pub read_file-Reads : (name : Bytes) → Reads old (read_file name) (λ bytes. Unit {0})
  read_file-Reads name = record {
    run = λ d h.
        After-map (λ bytes m. (m ≡ old) × (soal.Map.lookup name m ≡ soal.Base.some bytes)) _ _ _
          (λ a m p. (p.0, tt)) ((read_file-Triple name (λ m e. e)).run d h);
  }

  pub if-Reads {ℓ} :
      {A : Type ℓ} {Q : A → Type 0} (test : Disk → Bool) (m n : Io A)
      → Reads old m Q
      → Reads old n Q
      → Reads old (λ d. if test d then m d else n d) Q
  if-Reads {Q = Q} test m n hm hn = record { run = λ d h. go d h (test d) }
    where
      go :
          (d : Disk)
          → d.files ≡ old
          → (b : Bool) → After (λ a f. (f ≡ old) × Q a) (λ f. f ≡ old) (if b then m d else n d)
      go d h true = hm.run d h
      go d h false = hn.run d h
