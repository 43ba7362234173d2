-- ===== src/Examples/Replicas.antt =====
-- A vault's live chunk, what peers have, the ranking of peers and the report, at concrete values.
use mathlib.Core.List.{Perm, Pairwise}
use soal.Base.{
  ℕ, ◌+◌, ◌≡◌, refl, true, false, not, ◌||◌, Bytes, List, [], ◌∷◌, map, ltb, none, some, ok, arith,
}
use soal.Content.{ContentHash, codes}
use soal.Disk.{Disk, quiet}
use soal.Disk.Triples.{Files}
use soal.Map.{Map}
use soal.Policy.{VaultPolicy, default_policy}
use soal.Policy.Registry.{Json}
use soal.Set.{contains, is_listed}
use soal.Replication.{
  PinSet, PeerHave, no_pins, no_have, read_have, load_have, load_pins, note_peer_has,
  estimated_replicas, under_replicated_chunks, replication_status, ReplicationStatus,
}
use soal.Replication.Noted.{gained, estimated_replicas-note_peer_has}
use soal.Replication.Under.{Agree, under_replicated_chunks_iff}
use soal.Replication.Scores.{PeerScore, rank_peers}
use soal.Replication.Ranked.{IsRanked, Yields}
use soal.Replication.Ordered.{rank_peers-IsRanked}
use soal.Health.{HealthLevel, healthy, warn, crit}
use soal.Health.Assess.{VaultHealth, HealthCheck, assess_vault}
use soal.Content.Hex.{to_hex}
use soal.Examples.Crates.{hex}
use soal.Health.Graded.{is_crit, worst_of, assess_vault-IsGraded}
use soal.Examples.Vaults.{crates, files, finds_chunks, of_length}
use soal.Examples.Schedules.{local}

abbrev pins_json : Json PinSet
pins_json = record { to_string = λ p. []; from_str = λ s. some no_pins }

-- The text of the record after the chunk is noted for the peer.
abbrev after : PeerHave
after = record { peers = (codes "p", (to_hex hex (of_length 2), tt) ∷ []) ∷ []; updated_at = 9 }

abbrev have_json : Json PeerHave
have_json = record { to_string = λ h. []; from_str = λ s. some after }

nothing_noted : read_have have_json (quiet files) ≡ (ok no_have, quiet files)
unfolding read_have soal.Policy.Registry.load_or soal.Disk.exists soal.Map.lookup
    soal.Content.bytes_eq soal.Vault.Objects.commit_path_json soal.Vault.Objects.tree_path_json
    soal.Disk.pure
nothing_noted = refl

estimated_replicas-note_peer_has_example :
    (n : Files) × (k : ℕ) × (note_peer_has crates have_json 9
        (codes "p")
        (of_length 2 ∷ [])
        (quiet files)
      ≡ (ok tt, quiet n))
    × (estimated_replicas crates have_json (of_length 2) (quiet files) ≡ (ok k, quiet files))
    × (estimated_replicas crates have_json (of_length 2) (quiet n) ≡ (
      ok (k + gained crates have_json (codes "p") (of_length 2 ∷ []) (of_length 2) no_have),
      quiet n,
    ))
unfolding soal.Replication.noted soal.Map.insert soal.Set.add_all soal.Set.add soal.Map.lookup
estimated_replicas-note_peer_has_example =
    estimated_replicas-note_peer_has crates have_json 9 (codes "p") (of_length 2 ∷ []) no_have files
      nothing_noted tt refl (of_length 2)

nothing_loaded : load_have have_json (quiet files) ≡ (ok no_have, quiet files)
unfolding load_have soal.Replication.or_default soal.Policy.Registry.parse_file soal.Disk.◌>>=◌
    soal.Disk.bind_at soal.Disk.call soal.Disk.attempt soal.Disk.contents soal.Map.lookup
    soal.Content.bytes_eq soal.Vault.Objects.commit_path_json soal.Vault.Objects.tree_path_json
nothing_loaded = refl

no_pins_loaded : load_pins pins_json (quiet files) ≡ (ok no_pins, quiet files)
unfolding load_pins soal.Policy.Registry.load_or soal.Disk.exists soal.Map.lookup
    soal.Content.bytes_eq soal.Vault.Objects.commit_path_json soal.Vault.Objects.tree_path_json
    soal.Disk.pure
no_pins_loaded = refl

under_replicated_chunks_iff_example :
    Agree crates have_json no_have files nothing_loaded 2 local
      ((of_length 2, tt) ∷ [])
      finds_chunks
      pins_json
      (of_length 2)
under_replicated_chunks_iff_example =
    under_replicated_chunks_iff crates have_json no_have files nothing_loaded 2 local
      ((of_length 2, tt) ∷ []) finds_chunks pins_json no_pins no_pins_loaded (of_length 2)

abbrev prefer_q : VaultPolicy
prefer_q = record default_policy { prefer_nodes = codes "q" ∷ [] }

abbrev seen : Map ℕ
seen = (codes "p", 90) ∷ []

rank_peers-IsRanked_example :
    (ranked : List PeerScore) × (d' : Disk) × (rank_peers crates have_json prefer_q
        (codes "p" ∷ codes "q" ∷ [])
        seen
        []
        100
        (quiet files)
      ≡ (ok ranked, d'))
    × Perm (map (λ s. s.peer) ranked) (codes "p" ∷ codes "q" ∷ [])
    × IsRanked ranked
    × Pairwise Yields ranked
rank_peers-IsRanked_example =
    rank_peers-IsRanked crates have_json prefer_q (codes "p" ∷ codes "q" ∷ []) seen [] 100
      (quiet files) (omega arith)

abbrev check : Bytes → HealthLevel → Bytes → HealthCheck
check name level message = record { name = name; level = level; message = message }

abbrev report : VaultHealth
report = record {
  vault = codes "v";
  vault_id = codes "id";
  level = crit;
  head = some (to_hex hex (of_length 3));
  head_age_secs = some 13;
  encryption = true;
  key_wrapped = false;
  members = 2;
  config_seq = 1;
  config_signed = false;
  complete = false;
  file_count = 1;
  chunk_count = 0;
  alternate_heads = 0;
  replication = record {
    min_replicas = 2;
    live_chunks = 1;
    pinned_chunks = 0;
    missing_local = 1;
    estimated_under_replicated = 1;
    peers_known = 0;
  };
  policy = record {
    snapshot_interval_secs = 0;
    live_mode = false;
    retain_snapshots = 0;
    max_head_age_secs = 0;
    secs_until_auto_snapshot = none;
    last_auto_snapshot_at = 0;
  };
  checks =
      check (codes "completeness") crit (codes "HEAD is incomplete (missing tree/chunks)")
      ∷ check (codes "local_chunks") crit (codes "1 live chunks missing locally")
      ∷ check (codes "replication") warn (codes "~1 chunks under min_replicas=2")
      ∷ check (codes "key") healthy (codes "encryption on (plaintext vault.key on disk)")
      ∷ check (codes "config_sig") warn (codes "vault config is unsigned")
      ∷ [];
}

abbrev assessed_disk : Disk
assessed_disk = (assess_vault crates pins_json have_json 2 local 20 (quiet files)).1

assesses :
    assess_vault crates pins_json have_json 2 local 20 (quiet files)
    ≡ (ok (some report), assessed_disk)
unfolding soal.Vault.Live.live_roots soal.Vault.Live.walk soal.Set.contains
    soal.Vault.Objects.has_commit_object soal.Vault.Objects.load_commit
    soal.Vault.Objects.load_commit_json soal.Vault.Objects.commit_path_bin
    soal.Vault.Objects.tree_path_bin soal.Vault.Dual.commit_from_bytes
    soal.Vault.Dual.commit_legacy_json_hash soal.Codec.Frame.cid_of soal.Vault.Live.or_head
    soal.Vault.Heads.protected_commit_roots soal.Vault.Heads.head soal.Vault.Heads.read_head
    soal.Vault.Heads.list_heads soal.Vault.Heads.list_heads_file_only
    soal.Vault.Heads.read_to_string soal.Vault.Heads.snapshot_roots
    soal.Policy.Registry.load_snapshots soal.Policy.Registry.load_or soal.Set.add soal.Set.elements
    soal.Set.add_all soal.Map.insert soal.Map.lookup soal.Disk.exists soal.Disk.call
    soal.Disk.contents soal.Disk.attempt soal.Disk.lift soal.Disk.pure soal.Disk.read_file
    soal.Disk.◌>>=◌ soal.Disk.bind_at soal.Content.bytes_eq soal.Codec.Utf8.is_utf8
    soal.Content.Text.trim soal.Content.Hex.from_hex soal.Content.Hex.to_hex
    soal.Content.Hex.decode_hash soal.Examples.Crates.encode soal.Examples.Crates.decode
    soal.Content.Text.space_front soal.Content.Text.space_back soal.Content.Hex.is_ascii_hexdigit
    soal.Vault.Objects.commit_path_json soal.Vault.Objects.tree_path_json soal.Content.bytes_ltb
    soal.Vault.Live.live_chunk_hashes soal.Vault.Live.live_chunk_hashes_from_roots
    soal.Vault.Live.mark_chunks soal.Vault.Objects.has_tree_object soal.Vault.Objects.load_tree
    soal.Vault.Objects.load_tree_json soal.Vault.Dual.tree_from_bytes
    soal.Vault.Dual.tree_legacy_json_hash soal.Tree.all_chunk_hashes
    soal.Replication.replication_status soal.Replication.status_of soal.Replication.load_pins
    soal.Replication.load_have soal.Replication.or_default soal.Replication.tally
    soal.Replication.estimated_replicas soal.Replication.count_peers soal.Replication.local_replicas
    soal.Vault.Transfer.has_chunk soal.Store.store_exists soal.Store.path_for soal.Store.list
    soal.Store.list_entries soal.Store.list_entry soal.Store.strip_suffix
    soal.Vault.Transfer.is_complete soal.Vault.Transfer.has_tree_and_chunks
    soal.Vault.Transfer.has_chunks soal.Schedule.head_stale soal.Policy.Registry.load_policy
    soal.Policy.Registry.seed_policy soal.Policy.Registry.save_policy
    soal.Policy.Registry.load_state soal.Policy.validate soal.Policy.secs_until_snapshot
    soal.Disk.replace soal.Disk.rename soal.Disk.move_to soal.Disk.write_file soal.Disk.create
    soal.Disk.write_all soal.Map.remove soal.Policy.Registry.parse_file soal.Health.worst
    soal.Health.Assess.pushed soal.Health.Assess.flagged soal.Health.Assess.flagged_if
    soal.Health.Assess.check_replication soal.Health.Assess.check_key soal.Health.Assess.is_signed
    soal.Health.Assess.check_config soal.Health.Assess.check_heads soal.Health.Assess.is_healthy
    soal.Health.Assess.check_overall soal.Health.Assess.assess_head soal.Health.Assess.assessed
    soal.Health.Assess.assess_with soal.Health.Assess.assess_vault soal.Network.u64_to_string
    soal.Network.digits_of
assesses = refl

assess_vault-IsGraded_example :
    (report.level ≡ worst_of healthy report.checks)
    × (is_crit report.level ≡ (not report.complete || ltb 0 report.replication.missing_local))
assess_vault-IsGraded_example =
    assess_vault-IsGraded crates pins_json have_json 2 local 20 (quiet files) assessed_disk report
      assesses
