-- ===== src/Policy/Registry/Retention.antt =====
-- What `register_snapshot` and `prune_snapshot_registry` of src/policy.rs make of the registry.
use soal.Base.{
  ℕ, ◌-◌, ◌≤◌, ◌<◌, ◌≡◌, ◌≢◌, ◌⊎◌, refl, sym, Bool, true, false, Bytes, List, [], ◌∷◌, ◌++◌, length,
  take, drop, take-append-drop, length-drop, arith, some, ok, leb, ◌==◌, All, Bool-cases, inl, inr,
}
use soal.Content.{ContentHash, bytes_eq, bytes_eq_iff}
use soal.Content.Hex.{HexCrate, to_hex}
use soal.Disk.{◌>>=◌, bind_at, pure, quiet}
use soal.Disk.Triples.{Files}
use soal.Policy.Registry.{
  Json, SnapshotEntry, SnapshotLog, load_snapshots, register_snapshot, retain_others, prune_log,
  prune_snapshot_registry,
}
use soal.Policy.Registry.Saved.{
  saved, save_snapshots-quiet, load-save_snapshots, register-quiet, registered,
}

-- No two entries have one hash.
abbrev pub IsDistinct : List SnapshotEntry → Type 0
IsDistinct [] = Unit {0}
IsDistinct (e ∷ es) = All (λ f. f.hash ≢ e.hash) es × IsDistinct es

retain_others-lacks :
    (digits : Bytes) (es : List SnapshotEntry)
    → All (λ f. f.hash ≢ digits) (retain_others digits es)
unfolding retain_others
retain_others-lacks digits [] = tt
retain_others-lacks digits (e ∷ es) = elim (Bool-cases (bytes_eq e.hash digits)) [
  | inl p ↦ rw p (retain_others-lacks digits es)
  | inr p ↦
      rw p ((λ q. absurd (cc (p, (bytes_eq_iff e.hash digits).1 q))), retain_others-lacks digits es)
]

retain_others-All :
    (P : SnapshotEntry → Type 0) (digits : Bytes) (es : List SnapshotEntry)
    → All P es
    → All P (retain_others digits es)
unfolding retain_others
retain_others-All P digits [] h = tt
retain_others-All P digits (e ∷ es) (p, h) = elim (Bool-cases (bytes_eq e.hash digits)) [
  | inl q ↦ rw q (retain_others-All P digits es h)
  | inr q ↦ rw q (p, retain_others-All P digits es h)
]

retain_others-IsDistinct :
    (digits : Bytes) (es : List SnapshotEntry)
    → IsDistinct es
    → IsDistinct (retain_others digits es)
unfolding retain_others
retain_others-IsDistinct digits [] h = tt
retain_others-IsDistinct digits (e ∷ es) (p, h) = elim (Bool-cases (bytes_eq e.hash digits)) [
  | inl q ↦ rw q (retain_others-IsDistinct digits es h)
  | inr q ↦
      rw q
        (retain_others-All (λ f. f.hash ≢ e.hash) digits es p, retain_others-IsDistinct digits es h)
]

All-last :
    (P : SnapshotEntry → Type 0) (es : List SnapshotEntry) (x : SnapshotEntry)
    → All P es
    → P x
    → All P (es ++ x ∷ [])
All-last P [] x h p = (p, tt)
All-last P (e ∷ es) x (q, h) p = (q, All-last P es x h p)

IsDistinct-last :
    (es : List SnapshotEntry) (x : SnapshotEntry)
    → IsDistinct es
    → All (λ f. f.hash ≢ x.hash) es
    → IsDistinct (es ++ x ∷ [])
IsDistinct-last [] x h p = (tt, tt)
IsDistinct-last (e ∷ es) x (q, h) (n, p) =
    (All-last (λ f. f.hash ≢ e.hash) es x q (λ s. n (sym s)), IsDistinct-last es x h p)

leb-true : (a b : ℕ) → a ≤ b → leb a b ≡ true
leb-true a b h = ground arith

module _ (json : Json SnapshotLog) where
  -- With no failing call and a loaded log whose entries have distinct hashes, registering a
  -- snapshot saves the log without older entries of that hash and with the new entry last, loading
  -- finds that log, and its entries have distinct hashes, provided its JSON text reads back.
  pub register_snapshot-IsDistinct :
      (hex : HexCrate) (now : ℕ) (hash : ContentHash) (message : Bytes) (auto : Bool)
      (log : SnapshotLog) (m : Files)
      → load_snapshots json (quiet m) ≡ (ok log, quiet m)
      → IsDistinct log.entries
      → json.from_str (json.to_string (registered json hex now hash message auto log))
        ≡ some (registered json hex now hash message auto log)
      → (n : Files) × (register_snapshot json hex now hash message auto (quiet m)
          ≡ (ok tt, quiet n))
        × (load_snapshots json (quiet n)
            ≡ (ok (registered json hex now hash message auto log), quiet n))
        × IsDistinct (registered json hex now hash message auto log).entries
  register_snapshot-IsDistinct hex now hash message auto log m e d f =
      let new : SnapshotLog = registered json hex now hash message auto log in
      (
        saved json new m,
        register-quiet json hex now hash message auto log m e,
        load-save_snapshots json new m f,
        IsDistinct-last (retain_others (to_hex hex hash) log.entries) _
            (retain_others-IsDistinct (to_hex hex hash) log.entries d)
            (retain_others-lacks (to_hex hex hash) log.entries),
      )

  abbrev pub pruned : ℕ → SnapshotLog → SnapshotLog
  pruned retain log = record { entries = drop (length log.entries - retain) log.entries }

  prune-quiet :
      (retain : ℕ) (log : SnapshotLog) (m : Files)
      → load_snapshots json (quiet m) ≡ (ok log, quiet m)
      → retain < length log.entries
      → retain ≢ 0
      → prune_snapshot_registry json retain (quiet m)
        ≡ (ok (length log.entries - retain), quiet (saved json (pruned retain log) m))
  unfolding prune_snapshot_registry prune_log ◌>>=◌ bind_at pure
  prune-quiet retain log m e h z =
      let some_limit : (retain == 0) ≡ false = ground (arith, z) in
      let too_many : leb (length log.entries) retain ≡ false = ground (arith, h) in
      rw (some_limit, e, too_many, save_snapshots-quiet json (pruned retain log) m) refl

  -- With no failing call, a limit that is not 0 and more entries than the limit, pruning keeps the
  -- newest entries, as many as the limit, in their order, saves them where loading finds them, and
  -- returns how many it dropped, provided the JSON text of the pruned log reads back.
  pub prune_snapshot_registry-newest :
      (retain : ℕ) (log : SnapshotLog) (m : Files)
      → load_snapshots json (quiet m) ≡ (ok log, quiet m)
      → retain < length log.entries
      → retain ≢ 0
      → json.from_str (json.to_string (pruned retain log)) ≡ some (pruned retain log)
      → (n : Files) × (removed : ℕ) × (kept : SnapshotLog) × (prune_snapshot_registry json retain
            (quiet m)
          ≡ (ok removed, quiet n))
        × (load_snapshots json (quiet n) ≡ (ok kept, quiet n))
        × (take removed log.entries ++ kept.entries ≡ log.entries)
        × (length kept.entries ≡ retain)
  prune_snapshot_registry-newest retain log m e h z f = (
    saved json (pruned retain log) m,
    length log.entries - retain,
    pruned retain log,
    prune-quiet retain log m e h z,
    load-save_snapshots json (pruned retain log) m f,
    take-append-drop (length log.entries - retain) log.entries,
    omega (arith, h, length-drop (length log.entries - retain) log.entries),
  )

  -- With no failing call, and a limit of 0 or no more entries than the limit, pruning returns 0 and
  -- changes no file.
  pub prune_snapshot_registry-idle :
      (retain : ℕ) (log : SnapshotLog) (m : Files)
      → load_snapshots json (quiet m) ≡ (ok log, quiet m)
      → (retain ≡ 0) ⊎ (length log.entries ≤ retain)
      → prune_snapshot_registry json retain (quiet m) ≡ (ok 0, quiet m)
  unfolding prune_snapshot_registry prune_log ◌>>=◌ bind_at pure
  prune_snapshot_registry-idle retain log m e (inl z) = rw z refl
  prune_snapshot_registry-idle retain log m e (inr h) = elim (Bool-cases (retain == 0)) [
    | inl z ↦ rw z refl
    | inr z ↦ rw (z, e, leb-true (length log.entries) retain h) refl
  ]
