-- ===== src/Vault/Exchange.antt =====
-- src/vault.rs, `history`, `collect_provide_hashes`, `ingest_commit_from_peer` and `restore`: what
-- a vault gives to other nodes and takes from them, the history of a commit, and its files.
pub mod Serving
pub mod Ends
use soal.Base.{
  ℕ, zero, suc, Bool, true, false, not, ◌&&◌, Bytes, List, [], ◌∷◌, ◌++◌, ltb, ◌==◌, length,
  if◌then◌else◌, Option, none, some, Result, ok, err, panic, SoalError, Message, reject,
}
use soal.Content.{ContentHash}
use soal.Commit.{Commit}
use soal.Codec.Frame.{cid_of}
use soal.Disk.{Disk, Io, ◌>>=◌, ◌>>◌, pure, lift}
use soal.Map.{Map}
use soal.Paths.{normalize_and_validate}
use soal.Set.{Hashes, contains, add}
use soal.Tree.{TreeEntry, file, dir, all_chunk_hashes}
use soal.Vault.{Crates, Vault}
use soal.Vault.Objects.{load_commit, load_tree, has_commit_object, has_tree_object, check_hash}
use soal.Vault.Heads.{head, set_head, record_head}
use soal.Vault.Transfer.{
  has_chunk, export_stored_chunk, export_tree_bytes, export_commit_bytes, import_stored_chunk,
  import_tree_bytes, import_commit_bytes,
}
use soal.Vault.Edit.{load_chunk, data_to_store}
use soal.Vault.Node.{other}

-- `MAX_JOB_COMMITS` of src/codec.rs.
abbrev pub max_job_commits : ℕ
max_job_commits = 10000

-- Hashes with the bytes that they are of.
abbrev pub Blobs : Type 0
Blobs = List (ContentHash × Bytes)

-- The variables of the loop of `collect_provide_hashes`.
pub record Provided : Type 0 where
  pub out : Blobs
  pub seen_commits : Hashes
  pub seen_blobs : Hashes

module _ (crates : Crates) where
  open crates use {hex, blake3, aead}

  -- `c.parents.first().copied()`
  abbrev first_of_parents : List ContentHash → Option ContentHash
  first_of_parents [] = none
  first_of_parents (p ∷ ps) = some p

  -- The loop of `history`: `room` is `limit - out.len()`.
  unfoldable pub history_from :
      ℕ → Option ContentHash → List (ContentHash × Commit) → Io (List (ContentHash × Commit))
  history_from room none out = pure out
  history_from zero (some h) out = pure out
  history_from (suc room) (some h) out = do
    c ← load_commit crates h
    history_from room (first_of_parents c.parents) (out ++ (h, c) ∷ [])

  unfoldable pub history_start : Option ContentHash → Io (Option ContentHash)
  history_start (some h) = pure (some h)
  history_start none = head crates

  unfoldable pub history : Option ContentHash → ℕ → Io (List (ContentHash × Commit))
  history start limit = do cur ← history_start start; history_from limit cur []

  -- `if seen_blobs.insert(ch) { if let Ok(bytes) = .. { out.push((ch, bytes)); } }`
  unfoldable pub push_if : ContentHash → Provided → Result Bytes × Disk → Result Provided × Disk
  push_if ch s (ok bytes, d) =
      (ok (record s { out = s.out ++ (ch, bytes) ∷ []; seen_blobs = add ch s.seen_blobs }), d)
  push_if ch s (err e, d) = (ok (record s { seen_blobs = add ch s.seen_blobs }), d)
  push_if ch s (panic, d) = (panic, d)

  unfoldable pub provide_chunk : ContentHash → Provided → Io Provided
  provide_chunk ch s d =
      if contains ch s.seen_blobs then (ok s, d) else push_if ch s (export_stored_chunk crates ch d)

  unfoldable pub provide_chunks : List ContentHash → Provided → Io Provided
  provide_chunks [] s = pure s
  provide_chunks (ch ∷ chunks) s = do s' ← provide_chunk ch s; provide_chunks chunks s'

  unfoldable pub provide_tree : ContentHash → Provided → Io Provided
  provide_tree tree_hash s d =
      if has_tree_object crates tree_hash d && not (contains tree_hash s.seen_blobs)
      then (do
        tree_bytes ← export_tree_bytes crates tree_hash
        tree ← load_tree crates tree_hash
        provide_chunks (all_chunk_hashes tree) (record s {
          out = s.out ++ (tree_hash, tree_bytes) ∷ [];
          seen_blobs = add tree_hash s.seen_blobs;
        }))
          d
      else (ok s, d)

  -- What a round does at a commit that the vault has, and the commit's parents.
  unfoldable pub provide_commit : ContentHash → Provided → Io (Provided × List ContentHash)
  provide_commit cid s = do
    commit_bytes ← export_commit_bytes crates cid
    commit ← load_commit crates cid
    s' ← provide_tree commit.tree (
        if contains cid s.seen_blobs then s else record s {
          out = s.out ++ (cid, commit_bytes) ∷ [];
          seen_blobs = add cid s.seen_blobs;
        })
    pure (s', commit.parents)

  -- `while let Some(cid) = queue.pop_front() { .. }`. `none` is a walk that the fuel ended.
  unfoldable pub provide_walk : ℕ → List ContentHash → Provided → Io (Option Blobs)
  provide_walk fuel [] s = pure (some s.out)
  provide_walk zero (cid ∷ queue) s = pure none
  provide_walk (suc fuel) (cid ∷ queue) s =
      let skip = provide_walk fuel queue s in
      let seen = record s { seen_commits = add cid s.seen_commits } in
      let absent = provide_walk fuel queue seen in
      let visit = (do
        (s', parents) ← provide_commit cid seen
        provide_walk fuel (queue ++ parents) s') in
      λ d.
        if contains cid s.seen_commits
        then skip d
        else if ltb max_job_commits (length seen.seen_commits)
        then (err (other "provide DAG too deep (MAX_JOB_COMMITS)"), d)
        else if not (has_commit_object crates cid d)
        then absent d
        else visit d

  unfoldable pub collect_provide_hashes : ℕ → ContentHash → Io (Option Blobs)
  collect_provide_hashes fuel commit_hash =
      provide_walk fuel (commit_hash ∷ []) (record { out = []; seen_commits = []; seen_blobs = [] })

  -- `fetch` is what the peer answers: each hash is asked for once.
  module _ (fetch : ContentHash → Result Bytes) where
    unfoldable pub fetch_commit : ContentHash → Io (Unit {0})
    fetch_commit hash d =
        if not (has_commit_object crates hash d)
        then (do bytes ← lift (fetch hash); import_commit_bytes crates hash bytes) d
        else (ok tt, d)

    unfoldable pub fetch_tree : ContentHash → Io (Unit {0})
    fetch_tree hash d =
        if not (has_tree_object crates hash d)
        then (do bytes ← lift (fetch hash); import_tree_bytes crates hash bytes) d
        else (ok tt, d)

    unfoldable pub fetch_chunk : ContentHash → Io (Unit {0})
    fetch_chunk hash d =
        if not (has_chunk crates hash d)
        then (do bytes ← lift (fetch hash); import_stored_chunk crates hash bytes) d
        else (ok tt, d)

    unfoldable pub fetch_chunks : List ContentHash → Io (Unit {0})
    fetch_chunks [] = pure tt
    fetch_chunks (ch ∷ chunks) = do fetch_chunk ch; fetch_chunks chunks

    unfoldable pub adopt : ContentHash → Option ContentHash → Io Bool
    adopt commit_hash none = do set_head crates commit_hash; pure true
    adopt commit_hash (some local) = do record_head crates commit_hash; pure false

    unfoldable pub ingest_commit_from_peer : ContentHash → Io Bool
    ingest_commit_from_peer commit_hash = do
      fetch_commit commit_hash
      commit ← load_commit crates commit_hash
      fetch_tree commit.tree
      tree ← load_tree crates commit.tree
      fetch_chunks (all_chunk_hashes tree)
      local ← head crates
      adopt commit_hash local

  module _ (vault : Vault) where
    -- One round of the loop over a file's chunks, with its check of the chunk's hash.
    unfoldable pub restore_chunk : ContentHash → Bytes → Io Bytes
    restore_chunk h file_data = do
      chunk_plain ← load_chunk crates vault h
      stored ← lift (data_to_store crates vault.key chunk_plain)
      lift (check_hash crates h (cid_of blake3 stored))
      pure (file_data ++ chunk_plain)

    unfoldable pub restore_chunks : List ContentHash → Bytes → Io Bytes
    restore_chunks [] file_data = pure file_data
    restore_chunks (h ∷ hs) file_data = do s ← restore_chunk h file_data; restore_chunks hs s

    unfoldable pub restore_entry : Bytes → TreeEntry → Io (List (Bytes × Bytes))
    restore_entry name (dir h) = pure []
    restore_entry name (file size chunks) = do
      out_path ← lift (normalize_and_validate name)
      file_data ← restore_chunks chunks []
      lift (
          reject (not (length file_data == size)) (
            SoalError.verify (Message.numbers "file size mismatch" (size ∷ length file_data ∷ []))))
      pure ((out_path, file_data) ∷ [])

    unfoldable pub restore_entries :
        Map TreeEntry → List (Bytes × Bytes) → Io (List (Bytes × Bytes))
    restore_entries [] written = pure written
    restore_entries ((name, entry) ∷ m) written = do
      new ← restore_entry name entry
      restore_entries m (written ++ new)

    -- The files that are written below the target folder, in order, where no call on it fails and no
    -- symbolic link leads out of it.
    unfoldable pub restore : ContentHash → Io (List (Bytes × Bytes))
    restore commit_hash = do
      commit ← load_commit crates commit_hash
      tree ← load_tree crates commit.tree
      restore_entries tree.entries []
