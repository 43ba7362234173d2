-- ===== src/Disk/Steady.antt =====
-- Code that calls the file system and never aborts, whichever calls fail.
use soal.Base.{
  ℕ, Bool, true, false, Bytes, List, [], ◌∷◌, Option, none, some, Result, ok, err, panic,
  if◌then◌else◌,
}
use soal.Map.{lookup}
use soal.Disk.{Disk, Io, bind_at, ◌>>=◌, lift, pure, attempt, call, contents, read_file, io_error}
use soal.Disk.Triples.{Files}

abbrev pub IsAnswer {ℓ} : {A : Type ℓ} → Result A → Type 0
IsAnswer (ok a) = Unit {0}
IsAnswer (err e) = Unit {0}
IsAnswer panic = ⊥

pub record IsSteady {ℓ} {A : Type ℓ} (m : Io A) : Type ℓ where
  pub answers : (d : Disk) → IsAnswer (m d).0

module _ {ℓ} {A : Type ℓ} where
  pub pure-IsSteady : (a : A) → IsSteady (pure a)
  unfolding pure
  pure-IsSteady a = record { answers = λ d. tt }

  pub lift-IsSteady : (r : Result A) → IsAnswer r → IsSteady (lift r)
  unfolding lift
  lift-IsSteady r h = record { answers = λ d. h }

  pub if-IsSteady :
      (test : Disk → Bool) (m n : Io A)
      → IsSteady m
      → IsSteady n
      → IsSteady (λ d. if test d then m d else n d)
  if-IsSteady test m n hm hn = record { answers = λ d. go d (test d) }
    where
      go : (d : Disk) (b : Bool) → IsAnswer (if b then m d else n d).0
      go d true = hm.answers d
      go d false = hn.answers d

pub >>=-IsSteady {ℓ κ} :
    {A : Type ℓ} {B : Type κ} (m : Io A) (f : A → Io B)
    → IsSteady m
    → ((a : A) → IsSteady (f a))
    → IsSteady (m >>= f)
unfolding ◌>>=◌ bind_at
>>=-IsSteady {A = A} m f hm hf = record { answers = λ d. go (m d) (hm.answers d) }
  where
    go : (r : Result A × Disk) → IsAnswer r.0 → IsAnswer (bind_at r f).0
    go (ok a, d) h = (hf a).answers d
    go (err e, d) h = tt
    go (panic, d) h = h

pub call-IsSteady : IsSteady call
unfolding call attempt
call-IsSteady = record { answers = λ d. go d.files d.faults }
  where
    go : (m : Files) (faults : List (Option ℕ)) → IsAnswer (attempt m (λ n. m) faults).0
    go m [] = tt
    go m (none ∷ faults) = tt
    go m (some n ∷ faults) = tt

pub contents-IsSteady : (name : Bytes) → IsSteady (contents name)
unfolding contents
contents-IsSteady name = record { answers = λ d. go d (lookup name d.files) }
  where
    taken : Disk → Option Bytes → Result Bytes × Disk
    taken d o = elim o [ none ↦ (err io_error, d) | some bytes ↦ (ok bytes, d) ]

    go : (d : Disk) (o : Option Bytes) → IsAnswer (taken d o).0
    go d none = tt
    go d (some bytes) = tt

pub read_file-IsSteady : (name : Bytes) → IsSteady (read_file name)
unfolding read_file
read_file-IsSteady name =
    >>=-IsSteady call _ call-IsSteady
      (λ u. >>=-IsSteady call _ call-IsSteady (λ v. contents-IsSteady name))
