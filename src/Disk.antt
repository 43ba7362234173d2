-- ===== src/Disk.antt =====
-- The calls of `std::fs` that src/store.rs, src/policy.rs and src/network.rs make, on named files.
-- `faults` says how the next calls go: `none` for a call that succeeds, `some n` for one that fails,
-- having written `n` bytes if it writes. Behind its end every call succeeds.
pub mod Triples
pub mod Replace
pub mod Quiet
pub mod Written
pub mod Unchanged
pub mod Local
pub mod Apart
pub mod Fuel
pub mod Steady
pub mod Returns
use soal.Base.{
  ℕ, ◌≡◌, refl, Bool, true, false, not, Bytes, List, [], ◌∷◌, take, Option, none, some, Result, ok,
  err, panic, SoalError, Message, if◌then◌else◌,
}
use soal.Content.{bytes_eq, bytes_eq_iff}
use soal.Map
use soal.Map.{Map}
use soal.Base.{arith}

pub record Disk : Type 0 where
  pub files : Map Bytes
  pub faults : List (Option ℕ)

-- Code that calls the file system; what it has done stays done when it fails.
abbrev pub Io {ℓ} : Type ℓ → Type ℓ
Io A = Disk → Result A × Disk

infixl 5 ◌>>=◌ ◌>>◌
unfoldable pub bind_at {ℓ κ} :
    {A : Type ℓ} {B : Type κ} → Result A × Disk → (A → Io B) → Result B × Disk
bind_at (ok a, d) f = f a d
bind_at (err e, d) f = (err e, d)
bind_at (panic, d) f = (panic, d)

unfoldable pub ◌>>=◌ {ℓ κ} : {A : Type ℓ} {B : Type κ} → Io A → (A → Io B) → Io B
◌>>=◌ m f d = bind_at (m d) f

abbrev pub ◌>>◌ {ℓ} : {B : Type ℓ} → Io (Unit {0}) → Io B → Io B
m >> k = m >>= λ _. k

unfoldable pub pure {ℓ} : {A : Type ℓ} → A → Io A
pure a d = (ok a, d)

unfoldable pub lift {ℓ} : {A : Type ℓ} → Result A → Io A
lift r d = (r, d)

abbrev pub io_error : SoalError
io_error = SoalError.io (Message.text "io")

-- The files become `done` if the call succeeds, and `part n` if it fails with `n` bytes written.
unfoldable pub attempt : Map Bytes → (ℕ → Map Bytes) → List (Option ℕ) → Result (Unit {0}) × Disk
attempt done part [] = (ok tt, record { files = done; faults = [] })
attempt done part (none ∷ faults) = (ok tt, record { files = done; faults = faults })
attempt done part (some n ∷ faults) = (err io_error, record { files = part n; faults = faults })

-- A call that changes no file.
unfoldable pub call : Io (Unit {0})
call d = attempt d.files (λ n. d.files) d.faults

unfoldable pub exists : Bytes → Disk → Bool
exists name d = elim (Map.lookup name d.files) [ none ↦ false | some bytes ↦ true ]

unfoldable pub contents : Bytes → Io Bytes
contents name d = elim (Map.lookup name d.files) [
  | none ↦ (err io_error, d)
  | some bytes ↦ (ok bytes, d)
]

-- `File::open(path)?.read_to_end(&mut buf)?`
unfoldable pub read_file : Bytes → Io Bytes
read_file name = do call; call; contents name

unfoldable pub create : Bytes → Io (Unit {0})
create name d = attempt (Map.insert name [] d.files) (λ n. d.files) d.faults

unfoldable pub write_all : Bytes → Bytes → Io (Unit {0})
write_all name bytes d =
    attempt (Map.insert name bytes d.files) (λ n. Map.insert name (take n bytes) d.files) d.faults

unfoldable pub sync_all : Io (Unit {0})
sync_all = call

unfoldable pub move_to : Bytes → Bytes → Bytes → Io (Unit {0})
move_to from to bytes d =
    attempt (Map.insert to bytes (Map.remove from d.files)) (λ n. d.files) d.faults

unfoldable pub rename : Bytes → Bytes → Io (Unit {0})
rename from to = do bytes ← contents from; move_to from to bytes

-- `fs::write(name, bytes)?`
unfoldable pub write_file : Bytes → Bytes → Io (Unit {0})
write_file name bytes = do create name; write_all name bytes

-- `fs::write(&tmp, bytes)?; fs::rename(tmp, path)?;`
unfoldable pub replace : Bytes → Bytes → Bytes → Io (Unit {0})
replace tmp path bytes = do write_file tmp bytes; rename tmp path

-- The disk with the files `m` and no fault ahead.
abbrev pub quiet : Map Bytes → Disk
quiet m = record { files = m; faults = [] }

-- `fs::remove_file(name)?`
unfoldable pub remove_file : Bytes → Io (Unit {0})
remove_file name d =
    if exists name d
    then attempt (Map.remove name d.files) (λ n. d.files) d.faults
    else (err io_error, d)

-- The names of all files.
unfoldable pub names : Map Bytes → List Bytes
names [] = []
names ((name, bytes) ∷ m) = name ∷ names m
