-- ===== src/Disk/Fuel.antt =====
-- Code that recurs on fuel behind code that does not: `none` is a run that the fuel ended.
use soal.Base.{ℕ, ◌≡◌, ◌≢◌, refl, Option, none, Result, ok, err, panic}
use soal.Disk.{Disk, Io, ◌>>=◌, bind_at}

-- Where enough fuel can be found for each value that `io` returns, it can be found for the chain.
pub prefix-ends {ℓ κ} :
    {A : Type ℓ} {B : Type κ} (io : Io A) (f : ℕ → A → Io (Option B)) (d : Disk)
    → ((a : A) (d1 : Disk)
        → io d ≡ (ok a, d1)
        → (fuel : ℕ) × ((d' : Disk) → f fuel a d1 ≢ (ok none, d')))
    → (fuel : ℕ) × ((d' : Disk) → (io >>= f fuel) d ≢ (ok none, d'))
unfolding ◌>>=◌ bind_at
prefix-ends {A = A} io f d rest = go (io d) refl
  where
    go :
        (r : Result A × Disk)
        → io d ≡ r
        → (fuel : ℕ) × ((d' : Disk) → bind_at r (f fuel) ≢ (ok none, d'))
    go (ok a, d1) e = rest a d1 e
    go (err x, d1) e = (0, λ d' q. cc q)
    go (panic, d1) e = (0, λ d' q. cc q)
