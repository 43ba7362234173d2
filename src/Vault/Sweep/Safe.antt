-- ===== src/Vault/Sweep/Safe.antt =====
-- src/vault.rs, `gc_unreachable_objects` beside the objects that the protected commits reach.
use soal.Base.{
  ℕ, ◌≡◌, ◌≢◌, refl, sym, ◌∙◌, subst, ap, inl, inr, Bool, true, false, Bytes, List, [], ◌∷◌, Option,
  none, some, Result, ok, err, panic, Bool-cases, if◌then◌else◌,
}
use soal.Content.{ContentHash, IsArray}
use soal.Map.{lookup, remove}
use soal.Disk.{Disk, Io, attempt, bind_at, ◌>>=◌, call, exists, remove_file, names, pure, quiet}
use soal.Disk.Triples.{Files, After, After-files, Triple, >>=-Triple, pure-Triple, call-Triple}
use soal.Disk.Replace.{lookup-remove_other}
use soal.Set.{Hashes, contains}
use soal.Vault.{Crates}
use soal.Vault.Objects.{commits_dir, trees_dir}
use soal.Vault.Live.{live_object_hashes}
use soal.Vault.Heads.{protected_commit_roots}
use soal.Vault.Heads.Protected.{IsProtected}
use soal.Vault.Live.Roots.{protected}
use soal.Vault.Live.Reach.{IsLive, IsLive-map}
use soal.Vault.Live.Marks.{IsObject, live_object_hashes_iff}
use soal.Vault.Live.Ends.{live_object_hashes-IsReading}
use soal.Vault.Sweep.{
  named_hash, sweep_named, sweep_objects, sweep_dir, sweep_all_objects, gc_unreachable_objects,
}
use soal.Vault.Sweep.Names.{IsObjectPath, Names, path-Names}

-- The file is as it was, whatever is returned.
abbrev pub Keeps {ℓ} : {A : Type ℓ} → Bytes → Option Bytes → Io A → Type ℓ
Keeps kept o io =
    Triple (λ f. lookup kept f ≡ o) io (λ _ f. lookup kept f ≡ o) (λ f. lookup kept f ≡ o)

module _ (kept : Bytes) (o : Option Bytes) where
  pub remove_file-Keeps : (name : Bytes) → name ≢ kept → Keeps kept o (remove_file name)
  unfolding remove_file
  remove_file-Keeps name ne = record { run = λ d p. go d p (exists name d) }
    where
      run :
          (d : Disk)
          → lookup kept d.files ≡ o
          → (faults : List (Option ℕ))
          → After
              (λ (_ : Unit {0}) f. lookup kept f ≡ o)
              (λ f. lookup kept f ≡ o)
              (attempt (remove name d.files) (λ n. d.files) faults)
      run d p [] = unfold attempt After in lookup-remove_other name kept d.files ne ∙ p
      run d p (none ∷ fs) = unfold attempt After in lookup-remove_other name kept d.files ne ∙ p
      run d p (some n ∷ fs) = unfold attempt After in p

      go :
          (d : Disk)
          → lookup kept d.files ≡ o
          → (b : Bool)
          → After
              (λ (_ : Unit {0}) f. lookup kept f ≡ o)
              (λ f. lookup kept f ≡ o)
              (if b
                then attempt (remove name d.files) (λ n. d.files) d.faults
                else (err soal.Disk.io_error, d))
      go d p true = run d p d.faults
      go d p false = unfold After in p

  pub counted-Keeps :
      (removed : ℕ) (act : Io (Unit {0}))
      → Keeps kept o act
      → Keeps kept o (act >>= (λ _. pure removed))
  counted-Keeps removed act h =
      >>=-Triple (λ _ f. lookup kept f ≡ o) h (λ _. pure-Triple removed (λ f p. p))

  module _ (crates : Crates) (live : Hashes) where
    -- The sweep of a folder keeps a file that carries only live hashes.
    sweep_named-Keeps :
        (name : Bytes) (removed : ℕ) (h : Option ContentHash)
        → ((x : ContentHash) → h ≡ some x → name ≡ kept → contains x live ≡ true)
        → Keeps kept o (sweep_named crates live name removed h)
    unfolding sweep_named
    sweep_named-Keeps name removed none safe = pure-Triple removed (λ f p. p)
    sweep_named-Keeps name removed (some x) safe = elim (Bool-cases (contains x live)) [
      | inl there ↦ rw there (pure-Triple removed (λ f p. p))
      | inr gone ↦ rw gone (
          counted-Keeps _ (remove_file name)
            (remove_file-Keeps name (λ e. cc (gone, safe x refl e))))
    ]

    sweep_objects-Keeps :
        (dir : Bytes) (ns : List Bytes) (removed : ℕ)
        → ((x : ContentHash) → named_hash crates dir kept ≡ some x → contains x live ≡ true)
        → Keeps kept o (sweep_objects crates dir live ns removed)
    unfolding sweep_objects
    sweep_objects-Keeps dir [] removed safe = pure-Triple removed (λ f p. p)
    sweep_objects-Keeps dir (name ∷ ns) removed safe =
        >>=-Triple (λ _ f. lookup kept f ≡ o)
          (sweep_named-Keeps name removed (named_hash crates dir name)
            (λ x e same. safe x (ap (named_hash crates dir) (sym same) ∙ e)))
          (λ removed'. sweep_objects-Keeps dir ns removed' safe)

    sweep_dir-Keeps :
        (dir : Bytes)
        → ((x : ContentHash) → named_hash crates dir kept ≡ some x → contains x live ≡ true)
        → Keeps kept o (sweep_dir crates dir live)
    unfolding sweep_dir
    sweep_dir-Keeps dir safe = record {
      run = λ d p.
          (>>=-Triple (λ _ f. lookup kept f ≡ o) (call-Triple (λ f q. q))
              (λ _. sweep_objects-Keeps dir (names d.files) 0 safe)).run
            d p;
    }

    sweep_all_objects-Keeps :
        (x : ContentHash)
        → Names crates x kept
        → contains x live ≡ true
        → Keeps kept o (sweep_all_objects crates (some live))
    unfolding sweep_all_objects
    sweep_all_objects-Keeps x (c, t) there =
        >>=-Triple (λ _ f. lookup kept f ≡ o)
          (sweep_dir-Keeps commits_dir
            (λ h e. subst (λ y. contains y live ≡ true) (sym (c h e)) there))
          (λ commits_removed.
            >>=-Triple (λ _ f. lookup kept f ≡ o)
              (sweep_dir-Keeps trees_dir
                (λ h e. subst (λ y. contains y live ≡ true) (sym (t h e)) there))
              (λ trees_removed. pure-Triple _ (λ f p. p)))

module _ (crates : Crates) (m : Files) (fuel : ℕ) (roots : List ContentHash)
    (start : protected_commit_roots crates (quiet m) ≡ (ok roots, quiet m)) where
  -- On a disk with no failing call, where protected_commit_roots returns: gc_unreachable_objects,
  -- whatever it returns, changes no file of a commit that the vault has and loads, and that HEAD,
  -- HEADS or a registered snapshot leads to along the parents of such commits, and no file of such
  -- a commit's tree; the commit's or tree's hash has 32 bytes.
  pub gc_unreachable_objects-keeps :
      (x : ContentHash) (name : Bytes)
      → IsArray 32 x
      → IsLive crates m (IsObject crates m) (IsProtected crates m) x
      → IsObjectPath crates x name
      → lookup name (gc_unreachable_objects crates fuel (quiet m)).1.files ≡ lookup name m
  unfolding gc_unreachable_objects ◌>>=◌
  gc_unreachable_objects-keeps x name a live path =
      go (live_object_hashes crates fuel (quiet m)) refl
        ((live_object_hashes-IsReading crates m fuel).left m)
    where
      swept :
          (out : Hashes) (d : Disk)
          → live_object_hashes crates fuel (quiet m) ≡ (ok (some out), d)
          → d ≡ quiet m
          → lookup name (sweep_all_objects crates (some out) d).1.files ≡ lookup name m
      swept out d e here =
          let (_, iff) = live_object_hashes_iff crates m fuel out d e in
          let there : contains x out ≡ true =
            (iff x).1 (IsLive-map crates m (λ h k. protected roots start k) live) in
          After-files (λ f. lookup name f ≡ lookup name m) (sweep_all_objects crates (some out) d)
            ((sweep_all_objects-Keeps name (lookup name m) crates out x
                (path-Names crates x name a path) there).run
              d (ap (λ b. lookup name b.files) here))

      go :
          (r : Result (Option Hashes) × Disk)
          → live_object_hashes crates fuel (quiet m) ≡ r
          → r.1 ≡ quiet m
          → lookup name (bind_at r (sweep_all_objects crates)).1.files ≡ lookup name m
      go (ok none, d) e here =
          unfold bind_at sweep_all_objects pure in ap (λ b. lookup name b.files) here
      go (ok (some out), d) e here = unfold bind_at in swept out d e here
      go (err x, d) e here = unfold bind_at in ap (λ b. lookup name b.files) here
      go (panic, d) e here = unfold bind_at in ap (λ b. lookup name b.files) here
