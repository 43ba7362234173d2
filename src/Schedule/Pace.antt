-- ===== src/Schedule/Pace.antt =====
-- src/policy.rs, `maybe_auto_snapshot` after one that took a snapshot.
use soal.Base.{
  ℕ, ◌+◌, ◌<◌, ◌≤◌, ◌≡◌, ◌≢◌, refl, ap, ◌∙◌, subst, true, false, Bytes, Option, none, some, Result,
  ok, err, panic, arith, Bool-cases, inl, inr, ◌⊎◌,
}
use soal.Content.{ContentHash}
use soal.Content.Hex.{to_hex}
use soal.Disk.{Disk, Io, ◌>>=◌, bind_at, pure, quiet}
use soal.Disk.Triples.{Files, After}
use soal.Disk.Quiet.{>>=-eq-ok}
use soal.Disk.Replace.{replace-Triple}
use soal.Map.{lookup}
use soal.Policy.{VaultPolicy, PolicyState, snapshot_due}
use soal.Policy.Registry.{
  Json, load_state, save_state, load_or, from_json, state_file, tmp_of, register_snapshot,
  apply_retention,
}
use soal.Policy.Registry.Parsed.{parse_file-some, exists-some}
use soal.Vault.{Crates, Vault}
use soal.Vault.Edit.{snapshot}
use soal.Vault.Heads.{head}
use soal.Schedule.{
  snapped, auto_message, auto_snapshot, snapshot_of_head, snapshot_if_due, maybe_auto_snapshot,
}

-- `serde_json` reads back what it has written.
abbrev pub ReadsBack : {A : Type 0} → Json A → Type 0
ReadsBack {A} json = (a : A) → json.from_str (json.to_string a) ≡ some a

-- Where saving returns, the file holds the state.
saved_state :
    (json : Json PolicyState) (s : PolicyState) (d d' : Disk)
    → save_state json s d ≡ (ok tt, d')
    → lookup state_file d'.files ≡ some (json.to_string s)
unfolding save_state After
saved_state json s d d' e = there (save_state json s d) e (
    (replace-Triple (tmp_of state_file) state_file (json.to_string s) (λ e. cc)
        (lookup state_file d.files)).run
      d refl)
  where
    there :
        (r : Result (Unit {0}) × Disk)
        → r ≡ (ok tt, d')
        → After
            (λ _ m. lookup state_file m ≡ some (json.to_string s))
            (λ m. lookup state_file m ≡ lookup state_file d.files)
            r
        → lookup state_file d'.files ≡ some (json.to_string s)
    there r p h = subst (After (λ _ m. lookup state_file m ≡ some (json.to_string s)) _) p h

load_saved :
    (json : Json PolicyState) (s : PolicyState) (m : Files)
    → json.from_str (json.to_string s) ≡ some s
    → lookup state_file m ≡ some (json.to_string s)
    → load_state json (quiet m) ≡ (ok s, quiet m)
unfolding load_state load_or
load_saved json s m e f =
    rw (exists-some json state_file (json.to_string s) m f)
      (parse_file-some json state_file (json.to_string s) m f ∙ ap (λ o. (from_json o, quiet m)) e)

never_none : (m : Io ContentHash) (d : Disk) → ((m >>= λ h. pure (some h)) d).0 ≢ ok none
unfolding ◌>>=◌ bind_at pure
never_none m d = go (m d)
  where
    go : (r : Result ContentHash × Disk) → (bind_at r (λ h. pure (some h))).0 ≢ ok none
    go (ok h, e) f = cc
    go (err x, e) f = cc
    go (panic, e) f = cc

module _ (crates : Crates) (vault : Vault) (policy : VaultPolicy) (now : ℕ) (prefix : Bytes) where
  open crates use {hex}

  -- What a run that took a snapshot leaves as its state.
  record Took (d' : Disk) : Type 0 where
    state : PolicyState
    digits : Bytes
    there :
        lookup state_file d'.files ≡ some (crates.state_json.to_string (snapped state now digits))
    timed : ¬ (policy.snapshot_interval_secs ≡ 0)

  auto_snapshot-Took :
      (msg : Bytes) (state : PolicyState) (h : ContentHash) (d d' : Disk)
      → ¬ (policy.snapshot_interval_secs ≡ 0)
      → auto_snapshot crates vault policy now msg state d ≡ (ok h, d')
      → Took d'
  unfolding auto_snapshot pure
  auto_snapshot-Took msg state h d d' timed e =
      let (h1, d1, _, e1) = >>=-eq-ok (snapshot crates vault now msg) _ e in
      let (_, d2, _, e2) =
        >>=-eq-ok (register_snapshot crates.snapshots_json hex now h1 msg true) _ e1 in
      let (_, d3, _, e3) = >>=-eq-ok (apply_retention crates.snapshots_json policy) _ e2 in
      let (_, d4, s, e4) =
        >>=-eq-ok (save_state crates.state_json (snapped state now (to_hex hex h1))) _ e3 in
      record {
        state = state;
        digits = to_hex hex h1;
        there =
            subst
              (λ (x : Disk).
                lookup state_file x.files
                ≡ some (crates.state_json.to_string (snapped state now (to_hex hex h1))))
              (ap (λ p. p.1) e4) (saved_state crates.state_json _ d3 d4 s);
        timed = timed;
      }

  snapshot_of_head-Took :
      (msg : Bytes) (state : PolicyState) (o : Option ContentHash) (h : ContentHash) (d d' : Disk)
      → ¬ (policy.snapshot_interval_secs ≡ 0)
      → snapshot_of_head crates vault policy now msg state o d ≡ (ok (some h), d')
      → Took d'
  unfolding snapshot_of_head pure
  snapshot_of_head-Took msg state none h d d' timed e = cc
  snapshot_of_head-Took msg state (some current) h d d' timed e =
      let (h1, d1, e1, f) =
        >>=-eq-ok (auto_snapshot crates vault policy now (auto_message crates msg now) state) _ e in
      subst Took (ap (λ p. p.1) f)
        (auto_snapshot-Took (auto_message crates msg now) state h1 d d1 timed e1)

  maybe_auto_snapshot-Took :
      (h : ContentHash) (d d' : Disk)
      → maybe_auto_snapshot crates vault policy now prefix d ≡ (ok (some h), d')
      → Took d'
  unfolding maybe_auto_snapshot snapshot_if_due pure
  maybe_auto_snapshot-Took h d d' e =
      let (state, d1, _, e1) = >>=-eq-ok (load_state crates.state_json) _ e in
      elim (Bool-cases (snapshot_due policy state now)) [
        | inr p ↦ absurd (skipped d1 (rw p at e1))
        | inl p ↦
            let (o, d2, _, e2) = >>=-eq-ok (head crates) _ (rw p at e1) in
            snapshot_of_head-Took prefix state o h d2 d' (timed state p) e2
      ]
    where
      skipped :
          (d1 : Disk)
          → ◌≡◌ {A = Result (Option ContentHash) × Disk} (ok none, d1) (ok (some h), d')
          → ⊥
      skipped d1 e = cc

      timed :
          (state : PolicyState)
          → snapshot_due policy state now ≡ true
          → ¬ (policy.snapshot_interval_secs ≡ 0)
      timed state p z = unfold snapshot_due in ground (arith, p, z)

  early_if :
      (s : PolicyState) (digits : Bytes) (t : ℕ)
      → ¬ (policy.snapshot_interval_secs ≡ 0)
      → ¬ (now ≡ 0)
      → now ≤ t
      → snapshot_due policy (snapped s now digits) t ≡ false
      → t < now + policy.snapshot_interval_secs
  unfolding snapshot_due snapped
  early_if s digits t timed late after e = ground (arith, timed, late, after, e)

  due_if :
      (s : PolicyState) (digits : Bytes) (t : ℕ)
      → ¬ (policy.snapshot_interval_secs ≡ 0)
      → ¬ (now ≡ 0)
      → now ≤ t
      → snapshot_due policy (snapped s now digits) t ≡ true
      → now + policy.snapshot_interval_secs ≤ t
  unfolding snapshot_due snapped
  due_if s digits t timed late after e = ground (arith, timed, late, after, e)

  -- Where the state's JSON text reads back, and after a maybe_auto_snapshot at a time other than 0
  -- that took a snapshot, whichever calls failed, and where head then finds a commit: at a later or
  -- the same time, with no failing call, maybe_auto_snapshot reports none and leaves the disk as it
  -- is if less than the interval has passed; else it does what auto_snapshot does at that time with
  -- the state that load_state then returns, and does not report none.
  pub maybe_auto_snapshot-pace :
      (h g : ContentHash) (d d' : Disk) (prefix' : Bytes) (t : ℕ)
      → ReadsBack crates.state_json
      → ¬ (now ≡ 0)
      → maybe_auto_snapshot crates vault policy now prefix d ≡ (ok (some h), d')
      → head crates (quiet d'.files) ≡ (ok (some g), quiet d'.files)
      → now ≤ t
      → ((t < now + policy.snapshot_interval_secs)
          × (maybe_auto_snapshot crates vault policy t prefix' (quiet d'.files)
              ≡ (ok none, quiet d'.files)))
        ⊎ ((now + policy.snapshot_interval_secs ≤ t)
            × ((maybe_auto_snapshot crates vault policy t prefix' (quiet d'.files)).0 ≢ ok none)
            × ((state : PolicyState) × (load_state crates.state_json (quiet d'.files)
                  ≡ (ok state, quiet d'.files))
                × (maybe_auto_snapshot crates vault policy t prefix' (quiet d'.files)
                    ≡ (auto_snapshot crates vault policy t (auto_message crates prefix' t) state
                          >>= (λ h. pure (some h)))
                        (quiet d'.files))))
  unfolding maybe_auto_snapshot snapshot_if_due snapshot_of_head ◌>>=◌ bind_at pure
  maybe_auto_snapshot-pace h g d d' prefix' t back late e headed after =
      let took = maybe_auto_snapshot-Took h d d' e in
      let s = snapped took.state now took.digits in
      let loaded : load_state crates.state_json (quiet d'.files) ≡ (ok s, quiet d'.files) =
        load_saved crates.state_json s d'.files (back s) took.there in
      elim (Bool-cases (snapshot_due policy s t)) [
        | inr p ↦
            inl (early_if took.state took.digits t took.timed late after p, rw (loaded, p) refl)
        | inl p ↦ inr (
          due_if took.state took.digits t took.timed late after p,
          taken s p loaded,
          (s, loaded, rw (loaded, p, headed) refl),
        )
      ]
    where
      taken :
          (s : PolicyState)
          → snapshot_due policy s t ≡ true
          → load_state crates.state_json (quiet d'.files) ≡ (ok s, quiet d'.files)
          → (maybe_auto_snapshot crates vault policy t prefix' (quiet d'.files)).0 ≢ ok none
      taken s p loaded f =
          never_none (auto_snapshot crates vault policy t (auto_message crates prefix' t) s)
            (quiet d'.files) (rw (loaded, p, headed) at f)
