-- ===== src/Policy/Registry/Saved.antt =====
-- The file of the registry of snapshots of src/policy.rs: saving and loading.
use soal.Base.{ℕ, ◌≡◌, refl, Bool, Bytes, [], ◌∷◌, ◌++◌, some, ok}
use soal.Content.{ContentHash}
use soal.Content.Hex.{HexCrate, to_hex}
use soal.Map.{lookup}
use soal.Disk.{Disk, ◌>>=◌, bind_at, lift, exists, call, contents, attempt, quiet}
use soal.Disk.Triples.{Files, After}
use soal.Disk.Replace.{replace-Triple, replace-quiet, replaced, lookup-insert_same}
use soal.Policy.Registry.{
  Json, SnapshotLog, snapshots_file, tmp_of, parse_file, load_or, load_snapshots, save_snapshots,
  register_snapshot, retain_others,
}

module _ (json : Json SnapshotLog) where
  -- For any sequence of failing calls: where save_snapshots returns, the registry file holds the
  -- text of the log; where it fails, the registry file is as before.
  pub save_snapshots-After :
      (log : SnapshotLog) (d : Disk)
      → After
          (λ _ m. lookup snapshots_file m ≡ some (json.to_string log))
          (λ m. lookup snapshots_file m ≡ lookup snapshots_file d.files)
          (save_snapshots json log d)
  unfolding save_snapshots
  save_snapshots-After log d =
      (replace-Triple (tmp_of snapshots_file) snapshots_file (json.to_string log) (λ e. cc)
          (lookup snapshots_file d.files)).run
        d refl

  abbrev pub saved : SnapshotLog → Files → Files
  saved log m = replaced (tmp_of snapshots_file) snapshots_file (json.to_string log) m

  contents-quiet :
      (text : Bytes) (m : Files)
      → lookup snapshots_file m ≡ some text
      → contents snapshots_file (quiet m) ≡ (ok text, quiet m)
  unfolding contents lookup
  contents-quiet text m e = rw e refl

  parse-quiet :
      (log : SnapshotLog) (m : Files)
      → lookup snapshots_file m ≡ some (json.to_string log)
      → json.from_str (json.to_string log) ≡ some log
      → parse_file json snapshots_file (quiet m) ≡ (ok log, quiet m)
  unfolding parse_file ◌>>=◌ bind_at lift call attempt
  parse-quiet log m e f = rw (contents-quiet (json.to_string log) m e, f) refl

  load_of_lookup :
      (log : SnapshotLog) (m : Files)
      → lookup snapshots_file m ≡ some (json.to_string log)
      → json.from_str (json.to_string log) ≡ some log
      → load_snapshots json (quiet m) ≡ (ok log, quiet m)
  unfolding load_snapshots load_or exists lookup
  load_of_lookup log m e f = rw e (parse-quiet log m e f)

  pub save_snapshots-quiet :
      (log : SnapshotLog) (m : Files)
      → save_snapshots json log (quiet m) ≡ (ok tt, quiet (saved log m))
  unfolding save_snapshots
  save_snapshots-quiet log m =
      replace-quiet (tmp_of snapshots_file) snapshots_file (json.to_string log) m

  pub load-save_snapshots :
      (log : SnapshotLog) (m : Files)
      → json.from_str (json.to_string log) ≡ some log
      → load_snapshots json (quiet (saved log m)) ≡ (ok log, quiet (saved log m))
  load-save_snapshots log m f =
      load_of_lookup log (saved log m) (lookup-insert_same snapshots_file (json.to_string log) _) f

  -- `log` without the entries of the digits of `hash`, and with a new entry last.
  abbrev pub registered : HexCrate → ℕ → ContentHash → Bytes → Bool → SnapshotLog → SnapshotLog
  registered hex now hash message auto log = record {
    entries =
        retain_others (to_hex hex hash) log.entries
        ++ (record { hash = to_hex hex hash; timestamp = now; message = message; auto = auto })
          ∷ [];
  }

  pub register-quiet :
      (hex : HexCrate) (now : ℕ) (hash : ContentHash) (message : Bytes) (auto : Bool)
      (log : SnapshotLog) (m : Files)
      → load_snapshots json (quiet m) ≡ (ok log, quiet m)
      → register_snapshot json hex now hash message auto (quiet m)
        ≡ (ok tt, quiet (saved (registered hex now hash message auto log) m))
  unfolding register_snapshot ◌>>=◌ bind_at
  register-quiet hex now hash message auto log m e =
      rw e (save_snapshots-quiet (registered hex now hash message auto log) m)
