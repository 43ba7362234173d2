-- ===== src/Disk/Returns.antt =====
-- What holds of a value that code returns, whatever the disk.
use soal.Base.{◌≡◌, subst, ok, ok_injective, ap}
use soal.Disk.{Disk, Io, ◌>>=◌, pure}
use soal.Disk.Quiet.{>>=-eq-ok}

pub record Returns {ℓ} {A : Type ℓ} (Q : A → Type 0) (m : Io A) : Type ℓ where
  pub holds : (d d' : Disk) (a : A) → m d ≡ (ok a, d') → Q a

module _ {ℓ κ} {A : Type ℓ} {B : Type κ} where
  pub >>=-Returns :
      {Q : B → Type 0} (m : Io A) (f : A → Io B) → ((a : A) → Returns Q (f a)) → Returns Q (m >>= f)
  >>=-Returns m f h = record {
    holds = λ d d' b e. let (a, d1, _, q) = >>=-eq-ok m f e in (h a).holds d1 d' b q;
  }

  -- With what holds of the first value.
  pub >>=-Returns_with :
      {Q : B → Type 0} (R : A → Type 0) (m : Io A) (f : A → Io B)
      → Returns R m
      → ((a : A) → R a → Returns Q (f a))
      → Returns Q (m >>= f)
  >>=-Returns_with R m f r h = record {
    holds =
        λ d d' b e. let (a, d1, p, q) = >>=-eq-ok m f e in (h a (r.holds d d1 a p)).holds d1 d' b q;
  }

pub pure-Returns {ℓ} : {A : Type ℓ} {Q : A → Type 0} (a : A) → Q a → Returns Q (pure a)
unfolding pure
pure-Returns {Q = Q} a q = record { holds = λ d d' b e. subst Q (ok_injective (ap (λ p. p.0) e)) q }
