-- ===== src/Lib.antt =====
-- soal: a decentralised, content-addressed file vault. Files are cut into chunks that are stored
-- under their BLAKE3 hash; a tree maps logical paths to the chunks of files; commits point to trees
-- and to their parents; peers announce their newest commit by signed head announcements. This
-- library models the code that all peers have to agree on, and the code that keeps it on disk.
--
-- The parts, and where they are modelled:
--
--   Base            numbers, lists, big-endian words, and the results of fallible code: `ok`, `err`
--                   with an error of src/lib.rs, or `panic` where the thread aborts.
--   Content         src/lib.rs: `ContentHash`, `to_hex`, `from_hex`. `Blake3` and `HexCrate` stand
--                   for the crates blake3 and hex, with the laws that the code relies on.
--   Map             `BTreeMap<String, V>` of the standard library, as a list sorted by key.
--   Paths           src/tree.rs: `normalize_path`, `validate_path`, `normalize_and_validate`,
--                   `conflict_path_name`, `sanitize_conflict_label`.
--   Tree            src/tree.rs: `Tree` with `add_file`, `try_add_file`, `add_dir`, `merge`,
--                   `merge_with_conflicts`, `all_chunk_hashes`.
--   Commit          src/commit.rs: `Commit`, its constructors, `signature_bytes`, `is_signed`.
--   Codec           src/codec.rs: domain frames (Frame), the CBOR writers and the cursor that reads
--                   (Cbor), UTF-8 (Utf8), and the wire forms of trees, commits and head
--                   announcements (TreeWire, CommitWire, HeadWire, and framed in Wires).
--   Disk            the calls of `std::fs`, with a list of faults that says which calls fail.
--   Store           src/store.rs: `put`, `put_verified`, `get`, `exists`, `list`.
--   Policy          src/policy.rs: the policy, its updates and clocks, and in Policy/Registry its
--                   files and the registry of snapshots.
--   Identity        src/identity.rs: signing and verifying commits and head announcements, over
--                   the keys of the crate iroh (`Keys`).
--   Crypto          src/crypto.rs: encryption of chunks and sealing of keys, over the cipher of the
--                   crate chacha20poly1305 (`Aead`).
--   Invite          src/invite.rs: `generate_invite` and `verify_invite`.
--   Network         src/network.rs: `validate_announcement` and the last sequence numbers, which
--                   are decimal texts in files; `is_member` and `vault_id_bytes` of src/vault.rs.
--   Set             `BTreeSet<ContentHash>` of the standard library.
--   Chunking        src/chunking.rs: `chunk_bytes`, over the cuts of the crate fastcdc.
--   Vault           src/vault.rs: the objects of a vault and their two forms (Dual, Objects), its
--                   heads (Heads, with `protected_commit_roots` of src/policy.rs), the marking walks
--                   and the garbage collection (Live, Sweep), import and export (Transfer), the key
--                   of the node and new commits (Node), chunks, snapshots and merges (Edit), adding
--                   files (AddPath), history, serving, ingesting and restoring (Exchange), and the
--                   signed config with its members (Config). It calls Store, Tree, Codec, Crypto,
--                   Identity and Policy as the source does.
--   Sync            src/sync.rs: `fetch_dag` with its jobs and checkpoints (Job, Visit, Dag), which
--                   calls the vault's imports and `set_head_public`; Fetch is the failover between
--                   peers of src/network.rs.
--   Replication     src/replication.rs: pins, what peers have, estimated replicas and the status;
--                   Scores is `rank_peers`. It calls the vault's `live_chunk_hashes` and `head`.
--   Schedule        src/schedule.rs, with `apply_policy`, `maybe_auto_snapshot` and `head_stale` of
--                   src/policy.rs: a tick calls the vault's `snapshot` and `gc_all`, the registry of
--                   snapshots and the pins.
--   Health          src/health.rs: `worst`, `diff_commits` and, in Assess, `assess_vault`, which
--                   calls Replication, Schedule and the vault.
--   Examples        stand-ins for the crates, and runs at concrete values.
--
-- How code becomes definitions. A text is its UTF-8 bytes, a byte a number below 256. A method on
-- `&mut Cursor` is a function of the cursor that returns the new one; a decoder's loop over map keys
-- is `repeat` over a record of its variables; a function that calls the file system is a function of
-- the disk that returns the disk it leaves, also where it fails. Every loop recurs on a list or on
-- the number of rounds that the source counts, with these exceptions, which
-- have fuel: `trim`, with the length of the text, and the printing of a `u64`, with its 20 digits; and
-- the walks over commits of the vault and of the sync, where `none` (or `false`) is a walk that the
-- fuel ended. The marking walks take one round for each root and each parent of a commit that is
-- visited, and no commit is visited twice; the walks that serve and sync commits stop with an error
-- above 10000 commits, so that a bound on the parents of a commit bounds their rounds too. The
-- clock, the JSON texts and the random source are arguments. In replication, the report and the
-- scheduler too, `none` stands for such a walk that the fuel ended.
--
-- Bounds. `usize` and `u64` have 64 bits. `Cursor::take` adds to its position modulo 2^64, as a
-- release build does, and panics where the slice is then out of order; `Vec::with_capacity` panics
-- above 2^63 - 1 bytes. Slices are shorter than 2^63 bytes, which Rust guarantees.
--
-- `Path::exists` is taken to see the file wherever it is; every other call on the disk may fail.
--
-- The network is a function of a peer and a hash, fixed for one operation; so is the clock. What a
-- path on disk holds (`add_path`) is an argument, and `restore` returns the files that it writes below
-- its target. The text of `node.json` is part of the vault.
--
-- Not modelled: in src/vault.rs the creation and opening of vaults with their key files, `status` and
-- `list`; `replicate_head` of src/replication.rs; of src/health.rs `assess_cluster` and the printing;
-- `sync_head` of src/sync.rs, which passes the known peers on; the transport in src/network.rs;
-- src/watch.rs, src/api.rs and src/main.rs, which are input and output. Of the other files: `safe_join`
-- of src/tree.rs, the passphrase files of src/crypto.rs, and the tokens and `join_invite` of src/invite.rs. In
-- src/store.rs the directory is the whole disk: `root` is left out.
pub mod Base
pub mod Content
pub mod Map
pub mod Set
pub mod Replication
pub mod Schedule
pub mod Paths
pub mod Tree
pub mod Commit
pub mod Codec
pub mod Disk
pub mod Store
pub mod Policy
pub mod Identity
pub mod Crypto
pub mod Invite
pub mod Network
pub mod Chunking
pub mod Vault
pub mod Sync
pub mod Health
pub mod Examples
