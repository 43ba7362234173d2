-- ===== src/Examples/Policies.antt =====
-- Policies, their clocks and the registry of snapshots at concrete values.
use soal.Base.{ℕ, ◌≡◌, ◌++◌, refl, true, [], ◌∷◌, length, take, if◌then◌else◌, some, ok, arith}
use soal.Content.{codes}
use soal.Map.{lookup}
use soal.Disk.{Disk, quiet}
use soal.Disk.Triples.{Files}
use soal.Policy.{
  VaultPolicy, PolicyState, default_policy, validate, with_updates, set_to, snapshot_due,
  secs_until_snapshot,
}
use soal.Policy.Registry.{
  Json, SnapshotEntry, SnapshotLog, load_snapshots, save_snapshots, snapshots_file,
  register_snapshot, prune_snapshot_registry, no_state,
}
use soal.Policy.Registry.Retention.{prune_snapshot_registry-newest}

abbrev entry : ℕ → SnapshotEntry
entry t = record { hash = t ∷ []; timestamp = t; message = codes "auto"; auto = true }

abbrev three : SnapshotLog
three = record { entries = entry 1 ∷ entry 2 ∷ entry 3 ∷ [] }

abbrev on_disk : Files
on_disk = (snapshots_file, codes "old") ∷ []

-- One text stands for the log that is there, the other for the one that is saved.
abbrev json_two : SnapshotLog → SnapshotLog → Json SnapshotLog
json_two old new = record {
  to_string = λ l. codes "new";
  from_str = λ s. if soal.Content.bytes_eq s (codes "new") then some new else some old;
}

abbrev two : SnapshotLog
two = record { entries = entry 2 ∷ entry 3 ∷ [] }

loads_three : load_snapshots (json_two three two) (quiet on_disk) ≡ (ok three, quiet on_disk)
unfolding load_snapshots soal.Policy.Registry.load_or soal.Policy.Registry.parse_file
    soal.Disk.exists soal.Disk.call soal.Disk.contents soal.Disk.attempt soal.Disk.lift
    soal.Disk.◌>>=◌ soal.Disk.bind_at lookup soal.Content.bytes_eq
loads_three = refl

prune_snapshot_registry-newest_example :
    (n : Files) × (removed : ℕ) × (kept : SnapshotLog) × (prune_snapshot_registry
        (json_two three two)
        2
        (quiet on_disk)
      ≡ (ok removed, quiet n))
    × (load_snapshots (json_two three two) (quiet n) ≡ (ok kept, quiet n))
    × (take removed three.entries ++ kept.entries ≡ three.entries)
    × (length kept.entries ≡ 2)
unfolding soal.Content.bytes_eq
prune_snapshot_registry-newest_example =
    prune_snapshot_registry-newest (json_two three two) 2 three on_disk loads_three (omega arith)
      (λ e. absurd (omega (arith, e))) refl
