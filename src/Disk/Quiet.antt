-- ===== src/Disk/Quiet.antt =====
-- Code that only reads: on a disk with no fault ahead it leaves the disk as it is.
use soal.Base.{
  ◌≡◌, refl, sym, subst, ap, ◌∙◌, Bool, true, false, Bytes, Option, none, some, Result, ok, err,
  panic, if◌then◌else◌,
}
use soal.Map.{lookup}
use soal.Disk.{Disk, Io, bind_at, ◌>>=◌, lift, pure, attempt, call, contents, read_file, quiet}
use soal.Disk.Triples.{Files}

pub record IsReading {ℓ} {A : Type ℓ} (m : Io A) : Type ℓ where
  pub left : (f : Files) → (m (quiet f)).1 ≡ quiet f

-- A chain that returns a value has returned one at its first step.
pub >>=-eq-ok {ℓ κ} :
    {A : Type ℓ} {B : Type κ} (m : Io A) (f : A → Io B) {b : B} {d e : Disk}
    → (m >>= f) d ≡ (ok b, e)
    → (a : A) × (d' : Disk) × (m d ≡ (ok a, d')) × (f a d' ≡ (ok b, e))
unfolding ◌>>=◌ bind_at
>>=-eq-ok {A = A} m f {b} {d} {e} h = go (m d) refl h
  where
    go :
        (r : Result A × Disk)
        → m d ≡ r
        → bind_at r f ≡ (ok b, e)
        → (a : A) × (d' : Disk) × (m d ≡ (ok a, d')) × (f a d' ≡ (ok b, e))
    go (ok a, d') p q = (a, d', p, q)
    go (err x, d') p q = cc
    go (panic, d') p q = cc

module _ {ℓ} {A : Type ℓ} where
  pub quiet-eq :
      (m : Io A)
      → IsReading m
      → {f : Files} {a : Result A} {d : Disk} → m (quiet f) ≡ (a, d)
      → d ≡ quiet f
  quiet-eq m r {f} e = sym (ap (λ p. p.1) e) ∙ r.left f

  -- `pure a` returns `a` and leaves the disk.
  pub pure-eq : {a b : A} {d e : Disk} → pure a d ≡ (ok b, e) → (a ≡ b) × (d ≡ e)
  unfolding pure
  pure-eq e = (cc, cc)

  pub pure-IsReading : (a : A) → IsReading (pure a)
  unfolding pure
  pure-IsReading a = record { left = λ f. refl }

  pub lift-IsReading : (r : Result A) → IsReading (lift r)
  unfolding lift
  lift-IsReading r = record { left = λ f. refl }

  pub if-IsReading :
      (test : Disk → Bool) (m n : Io A)
      → IsReading m
      → IsReading n
      → IsReading (λ d. if test d then m d else n d)
  if-IsReading test m n hm hn = record { left = λ f. go f (test (quiet f)) }
    where
      go : (f : Files) (b : Bool) → (if b then m (quiet f) else n (quiet f)).1 ≡ quiet f
      go f true = hm.left f
      go f false = hn.left f

-- A chain whose first step only reads.
pub >>=-quiet {ℓ κ} :
    {A : Type ℓ} {B : Type κ} (m : Io A) (f : A → Io B) {g : Files} {b : B} {e : Disk}
    → IsReading m
    → (m >>= f) (quiet g) ≡ (ok b, e)
    → (a : A) × (m (quiet g) ≡ (ok a, quiet g)) × (f a (quiet g) ≡ (ok b, e))
>>=-quiet m f {g} {b} {e} r h =
    let (a, d, p, q) = >>=-eq-ok m f h in
    let here : d ≡ quiet g = quiet-eq m r p in
    (a, p ∙ ap (λ x. (ok a, x)) here, subst (λ x. f a x ≡ (ok b, e)) here q)

pub >>=-IsReading {ℓ κ} :
    {A : Type ℓ} {B : Type κ} (m : Io A) (f : A → Io B)
    → IsReading m
    → ((a : A) → IsReading (f a))
    → IsReading (m >>= f)
unfolding ◌>>=◌ bind_at
>>=-IsReading {A = A} m f hm hf = record { left = λ g. go g (m (quiet g)) (hm.left g) }
  where
    go : (g : Files) (r : Result A × Disk) → r.1 ≡ quiet g → (bind_at r f).1 ≡ quiet g
    go g (ok a, d) e = rw e ((hf a).left g)
    go g (err x, d) e = e
    go g (panic, d) e = e

pub call-IsReading : IsReading call
unfolding call attempt
call-IsReading = record { left = λ f. refl }

pub contents-IsReading : (name : Bytes) → IsReading (contents name)
unfolding contents lookup
contents-IsReading name = record { left = λ f. go f (lookup name f) refl }
  where
    go : (f : Files) (o : Option Bytes) → lookup name f ≡ o → (contents name (quiet f)).1 ≡ quiet f
    go f none e = rw e
    go f (some bytes) e = rw e

pub read_file-IsReading : (name : Bytes) → IsReading (read_file name)
unfolding read_file
read_file-IsReading name =
    >>=-IsReading call _ call-IsReading
      (λ u. >>=-IsReading call _ call-IsReading (λ v. contents-IsReading name))
