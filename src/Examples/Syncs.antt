-- ===== src/Examples/Syncs.antt =====
-- A sync at concrete values: a chunk of the target and its parent are fetched from the second peer.
use soal.Base.{
  ℕ, ◌≢◌, ◌≡◌, refl, true, Bytes, List, [], ◌∷◌, some, none, ok, err, Result, SoalError, Message,
  if◌then◌else◌,
}
use soal.Content.{ContentHash, bytes_eq, codes}
use soal.Disk.{quiet}
use soal.Policy.Registry.{Json}
use soal.Vault.Transfer.{is_complete}
use soal.Sync.Job.{SyncJob, SyncResult}
use soal.Sync.Dag.{fetch_dag}
use soal.Sync.Ends.{fetch_dag_ends}
use soal.Sync.Complete.{fetch_dag-IsWhole}
use soal.Examples.Vaults.{crates, of_length, files}

abbrev json : Json SyncJob
json = record { to_string = λ j. codes "job"; from_str = λ s. none }

abbrev answers : Bytes → ContentHash → Result Bytes
answers peer hash =
    if bytes_eq peer (codes "p")
    then err (SoalError.other (Message.text "down"))
    else if bytes_eq hash (of_length 5)
    then ok (1 ∷ 2 ∷ 3 ∷ 4 ∷ 5 ∷ [])
    else ok (1 ∷ 2 ∷ [])

abbrev peers : List Bytes
peers = codes "p" ∷ codes "q" ∷ []

abbrev result : SyncResult
result = record {
  target = of_length 3;
  commits_imported = 1;
  trees_imported = 0;
  chunks_imported = 1;
  head_updated = true;
}

abbrev after : soal.Disk.Disk
after = (fetch_dag crates json 7 answers peers 3 (of_length 3) true (quiet files)).1

syncs :
    fetch_dag crates json 7 answers peers 3 (of_length 3) true (quiet files)
    ≡ (ok (some result), after)
unfolding fetch_dag soal.Sync.Dag.fetch_missing soal.Sync.Dag.record_failure
    soal.Sync.Dag.sync_block soal.Sync.Dag.finish_if soal.Sync.Dag.finish soal.Sync.Dag.sync_loop
    soal.Sync.Visit.sync_visit soal.Sync.Visit.sync_commit soal.Sync.Visit.obtain_commit
    soal.Sync.Visit.check_present soal.Sync.Visit.fetch soal.Sync.Visit.sync_tree
    soal.Sync.Visit.obtain_tree soal.Sync.Visit.sync_chunks soal.Sync.Visit.sync_chunk
    soal.Sync.Visit.obtain_chunk soal.Sync.Visit.checkpoint_some soal.Sync.Job.checkpoint
    soal.Sync.Job.enter soal.Sync.Job.persist_job soal.Sync.Job.job_path
    soal.Sync.Job.load_or_create_job soal.Sync.Job.new soal.Sync.Job.update soal.Sync.Job.on_disk
    soal.Sync.Job.pure soal.Sync.Job.◌>>=◌ soal.Sync.Fetch.get_blob_with_failover
    soal.Sync.Fetch.get_chunk_from_peer soal.Sync.Fetch.or_next soal.Vault.Transfer.is_complete
    soal.Vault.Transfer.has_tree_and_chunks soal.Vault.Transfer.has_chunks
    soal.Vault.Transfer.has_chunk soal.Vault.Transfer.import_commit_bytes
    soal.Vault.Transfer.import_json_commit soal.Vault.Transfer.import_stored_chunk
    soal.Vault.Dual.is_framed soal.Vault.Objects.check_hash soal.Vault.Objects.has_tree_object
    soal.Vault.Objects.load_tree soal.Vault.Objects.load_tree_json soal.Vault.Dual.tree_from_bytes
    soal.Vault.Dual.tree_legacy_json_hash soal.Tree.all_chunk_hashes soal.Store.store_exists
    soal.Store.path_for soal.Store.put_verified soal.Store.put_new
    soal.Identity.verify_commit_signature soal.Disk.write_file soal.Disk.replace soal.Disk.rename
    soal.Disk.create soal.Disk.write_all soal.Disk.sync_all soal.Disk.move_to soal.Map.remove
    soal.Vault.Heads.set_head_public soal.Vault.Heads.set_head soal.Vault.Heads.record_head
    soal.Vault.Heads.write_heads soal.Set.contains soal.Vault.Objects.has_commit_object
    soal.Vault.Objects.load_commit soal.Vault.Objects.load_commit_json
    soal.Vault.Objects.commit_path_bin soal.Vault.Objects.tree_path_bin
    soal.Vault.Dual.commit_from_bytes soal.Vault.Dual.commit_legacy_json_hash
    soal.Codec.Frame.cid_of soal.Vault.Heads.head soal.Vault.Heads.read_head
    soal.Vault.Heads.list_heads soal.Vault.Heads.list_heads_file_only
    soal.Vault.Heads.read_to_string soal.Set.add soal.Map.insert soal.Map.lookup soal.Disk.exists
    soal.Disk.call soal.Disk.contents soal.Disk.attempt soal.Disk.lift soal.Disk.pure
    soal.Disk.read_file soal.Disk.◌>>=◌ soal.Disk.bind_at soal.Content.bytes_eq
    soal.Codec.Utf8.is_utf8 soal.Content.Text.trim soal.Content.Hex.from_hex soal.Content.Hex.to_hex
    soal.Content.Hex.decode_hash soal.Examples.Crates.encode soal.Examples.Crates.decode
    soal.Content.Text.space_front soal.Content.Text.space_back soal.Content.Hex.is_ascii_hexdigit
    soal.Vault.Objects.commit_path_json soal.Vault.Objects.tree_path_json soal.Content.bytes_ltb
    soal.Commit.signature_bytes soal.Store.tmp_for
syncs = refl

fetch_dag-IsWhole_example :
    (is_complete crates (of_length 3) (quiet after.files) ≡ (ok true, quiet after.files))
    × ((result.target ≡ of_length 3) × (result.head_updated ≡ true))
fetch_dag-IsWhole_example =
    fetch_dag-IsWhole crates json 7 answers peers (of_length 3) true 3 result (quiet files) after
      syncs

-- The third call fails.
abbrev failing : soal.Disk.Disk
failing = record { files = files; faults = none ∷ none ∷ some 0 ∷ [] }

fetch_dag_ends_example :
    (fuel : ℕ) × ((d' : soal.Disk.Disk)
      → fetch_dag crates json 7 answers peers fuel (of_length 3) true failing ≢ (ok none, d'))
fetch_dag_ends_example = fetch_dag_ends crates json 7 answers peers (of_length 3) true failing
