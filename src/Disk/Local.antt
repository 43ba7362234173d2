-- ===== src/Disk/Local.antt =====
-- Code that reads only certain files, and changes none.
use soal.Base.{
  ◌≡◌, refl, sym, ap, ◌∙◌, subst, Bool, true, false, Bytes, List, [], ◌∷◌, Option, none, some,
  Result, ok, err, panic, SoalError, if◌then◌else◌, ℕ, Bool-cases, inl, inr,
}
use soal.Map.{lookup}
use soal.Disk.{
  Disk, Io, bind_at, ◌>>=◌, lift, pure, attempt, call, contents, exists, read_file, quiet, io_error,
}
use soal.Disk.Triples.{Files}
use soal.Disk.Quiet.{IsReading, >>=-eq-ok}

-- The same at the names that `P` allows.
abbrev pub Agrees : (Bytes → Type 0) → Files → Files → Type 0
Agrees P m n = (name : Bytes) → P name → lookup name m ≡ lookup name n

-- What the code returns depends on the files that `P` allows, and a value that it returns it returns
-- with no failing call too.
pub record IsLocal {ℓ} {A : Type ℓ} (P : Bytes → Type 0) (io : Io A) : Type ℓ where
  pub reads : IsReading io
  pub same : (m n : Files) → Agrees P m n → (io (quiet m)).0 ≡ (io (quiet n)).0
  pub lucky :
      (d d' : Disk) (a : A)
      → io d ≡ (ok a, d')
      → (io (quiet d.files) ≡ (ok a, quiet d.files)) × (d'.files ≡ d.files)

-- What was returned on files that agree, it returns.
pub transfer {ℓ} :
    {A : Type ℓ} {P : Bytes → Type 0} (io : Io A)
    → IsLocal P io
    → (d d' : Disk) (n : Files) (a : A) → Agrees P d.files n
    → io d ≡ (ok a, d')
    → io (quiet n) ≡ (ok a, quiet n)
transfer io l d d' n a agrees e =
    let (q, _) = l.lucky d d' a e in
    let r : (io (quiet n)).0 ≡ ok a = sym (l.same d.files n agrees) ∙ ap (λ p. p.0) q in
    λ i. (r i, l.reads.left n i)

module _ (P : Bytes → Type 0) where
  pub pure-IsLocal {ℓ} : {A : Type ℓ} (a : A) → IsLocal P (pure a)
  unfolding pure
  pure-IsLocal a = record {
    reads = record { left = λ f. refl };
    same = λ m n h. refl;
    lucky = λ d d' b e. (cc, cc);
  }

  pub lift-IsLocal {ℓ} : {A : Type ℓ} (r : Result A) → IsLocal P (lift r)
  unfolding lift
  lift-IsLocal r = record {
    reads = record { left = λ f. refl };
    same = λ m n h. refl;
    lucky = λ d d' b e. (cc, cc);
  }

  pub >>=-IsLocal {ℓ κ} :
      {A : Type ℓ} {B : Type κ} (m : Io A) (f : A → Io B)
      → IsLocal P m
      → ((a : A) → IsLocal P (f a))
      → IsLocal P (m >>= f)
  unfolding ◌>>=◌ bind_at
  >>=-IsLocal {A = A} {B} m f hm hf = record {
    reads = soal.Disk.Quiet.>>=-IsReading m f hm.reads (λ a. (hf a).reads);
    same = λ g h e.
        go g h e (m (quiet g)) (m (quiet h)) (hm.reads.left g) (hm.reads.left h) (hm.same g h e);
    lucky = λ d d' b e.
        let (a, d1, p, q) = >>=-eq-ok m f e in
        let (u, v) = hm.lucky d d1 a p in
        let (s, t) = (hf a).lucky d1 d' b q in
        (
          subst (λ r. bind_at r f ≡ (ok b, quiet d.files)) (sym u)
              (subst (λ (x : Files). f a (quiet x) ≡ (ok b, quiet x)) v s),
          t ∙ v,
        );
  }
    where
      go :
          (g h : Files)
          → Agrees P g h
          → (r s : Result A × Disk) → r.1 ≡ quiet g
          → s.1 ≡ quiet h
          → r.0 ≡ s.0
          → (bind_at r f).0 ≡ (bind_at s f).0
      go g h e (ok a, d) (ok b, d') p q k =
          let same : a ≡ b = soal.Base.ok_injective k in
          subst (λ x. (f a x).0 ≡ (f b d').0) (sym p)
            (subst (λ x. (f a (quiet g)).0 ≡ (f b x).0) (sym q)
              (subst (λ y. (f a (quiet g)).0 ≡ (f y (quiet h)).0) same ((hf a).same g h e)))
      go g h e (ok a, d) (err y, d') p q k = cc
      go g h e (ok a, d) (panic, d') p q k = cc
      go g h e (err x, d) (ok b, d') p q k = cc
      go g h e (err x, d) (err y, d') p q k = cc
      go g h e (err x, d) (panic, d') p q k = cc
      go g h e (panic, d) (ok b, d') p q k = cc
      go g h e (panic, d) (err y, d') p q k = cc
      go g h e (panic, d) (panic, d') p q k = refl

  call-IsLocal : IsLocal P call
  unfolding call attempt
  call-IsLocal = record {
    reads = soal.Disk.Quiet.call-IsReading;
    same = λ m n h. refl;
    lucky = λ d d' a e. go d.files d.faults d' a e;
  }
    where
      go :
          (f : Files) (faults : List (Option ℕ)) (d' : Disk) (a : Unit {0})
          → attempt f (λ n. f) faults ≡ (ok a, d')
          → (attempt f (λ n. f) [] ≡ (ok a, quiet f)) × (d'.files ≡ f)
      go f [] d' a e = (cc, cc)
      go f (none ∷ fs) d' a e = (cc, ap (λ x. x.1.files) (sym e))
      go f (some n ∷ fs) d' a e = cc

  contents-IsLocal : (name : Bytes) → P name → IsLocal P (contents name)
  unfolding contents
  contents-IsLocal name ok_name = record {
    reads = soal.Disk.Quiet.contents-IsReading name;
    same = λ m n h. go m n (lookup name m) (lookup name n) (h name ok_name);
    lucky = λ d d' a e. lucky d d' a (lookup name d.files) e;
  }
    where
      take_it : (d : Disk) → Option Bytes → Result Bytes × Disk
      take_it d o = elim o [ none ↦ (err io_error, d) | some bytes ↦ (ok bytes, d) ]

      go :
          (m n : Files) (o p : Option Bytes)
          → o ≡ p
          → (take_it (quiet m) o).0 ≡ (take_it (quiet n) p).0
      go m n none none e = refl
      go m n none (some b) e = cc
      go m n (some a) none e = cc
      go m n (some a) (some b) e = cc

      lucky :
          (d d' : Disk) (a : Bytes) (o : Option Bytes)
          → take_it d o ≡ (ok a, d')
          → (take_it (quiet d.files) o ≡ (ok a, quiet d.files)) × (d'.files ≡ d.files)
      lucky d d' a none e = cc
      lucky d d' a (some b) e = (cc, ap (λ x. x.1.files) (sym e))

  pub read_file-IsLocal : (name : Bytes) → P name → IsLocal P (read_file name)
  unfolding read_file
  read_file-IsLocal name ok_name =
      >>=-IsLocal call _ call-IsLocal
        (λ u. >>=-IsLocal call _ call-IsLocal (λ v. contents-IsLocal name ok_name))

  -- A test that agreeing files answer alike.
  pub if-IsLocal {ℓ} :
      {A : Type ℓ} (test : Files → Bool) (m n : Io A)
      → ((f g : Files) → Agrees P f g → test f ≡ test g)
      → IsLocal P m
      → IsLocal P n
      → IsLocal P (λ d. if test d.files then m d else n d)
  if-IsLocal {A = A} test m n ht hm hn = record {
    reads = soal.Disk.Quiet.if-IsReading (λ d. test d.files) m n hm.reads hn.reads;
    same = λ f g e. go f g e (test f) (test g) (ht f g e);
    lucky = λ d d' a e. lucky d d' a (test d.files) e;
  }
    where
      go :
          (f g : Files)
          → Agrees P f g
          → (b c : Bool) → b ≡ c
          → (if b then m (quiet f) else n (quiet f)).0 ≡ (if c then m (quiet g) else n (quiet g)).0
      go f g e true true q = hm.same f g e
      go f g e true false q = cc
      go f g e false true q = cc
      go f g e false false q = hn.same f g e

      lucky :
          (d d' : Disk) (a : A) (b : Bool)
          → (if b then m d else n d) ≡ (ok a, d')
          → ((if b then m (quiet d.files) else n (quiet d.files)) ≡ (ok a, quiet d.files))
            × (d'.files ≡ d.files)
      lucky d d' a true e = hm.lucky d d' a e
      lucky d d' a false e = hn.lucky d d' a e

  pub exists-Agrees :
      (name : Bytes)
      → P name
      → (f g : Files) → Agrees P f g
      → exists name (quiet f) ≡ exists name (quiet g)
  unfolding exists
  exists-Agrees name ok_name f g e = go (lookup name f) (lookup name g) (e name ok_name)
    where
      go :
          (o p : Option Bytes)
          → o ≡ p
          → ◌≡◌ {A = Bool}
              (elim o [ none ↦ false | some b ↦ true ])
              (elim p [ none ↦ false | some b ↦ true ])
      go none none e = refl
      go none (some b) e = cc
      go (some a) none e = cc
      go (some a) (some b) e = refl
