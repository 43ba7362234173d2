-- ===== src/Examples/Vaults.antt =====
-- A vault at concrete values: a head, a commit and its tree as JSON texts, and the walks over them.
use mathlib.Core.List.{Memᴰ}
use mathlib.Core.List.Memᴰ
use soal.Base.{
  ℕ, ◌≡◌, ◌↔◌, refl, true, [], ◌∷◌, replicate, none, some, ok, length, ◌+◌, ◌≤◌, ◌⊎◌, ◌≢◌, false,
  arith, subst,
}
use soal.Content.{ContentHash, codes, IsArray}
use soal.Content.Hex.{to_hex}
use soal.Commit.{Commit}
use soal.Tree.{Tree, file}
use soal.Map.{lookup}
use soal.Set.{Hashes, contains}
use soal.Disk.{Disk, quiet}
use soal.Disk.Triples.{Files, After}
use soal.Vault.{Crates}
use soal.Vault.Objects.{
  commit_path_bin, load_commit, has_commit_object, commit_path_json, tree_path_json,
}
use soal.Vault.Heads.{
  head_file, heads_file, head, list_heads, set_head_public, protected_commit_roots,
}
use soal.Vault.Heads.Found.{head-set_head_public}
use soal.Vault.Live.{live_roots, live_object_hashes, live_chunk_hashes}
use soal.Vault.Live.Rounds.{Holds}
use soal.Vault.Live.Roots.{IsRoot}
use soal.Vault.Live.Reach.{Linked, IsLive}
use soal.Vault.Live.Marks.{IsObject, IsChunk, live_object_hashes_iff, live_chunk_hashes_iff}
use soal.Vault.Live.Ends.{parents_of, parent_count, unseen, live_hashes_end}
use soal.Vault.Transfer.{import_commit_bytes, resolve_blob}
use soal.Vault.Transfer.Received.{TookWire, TookJson, Untouched, import_commit_bytes-After}
use soal.Vault.Transfer.Served.{resolve_blob-After}
use soal.Vault.Objects.Integrity.{IsBinCommit, IsJsonCommit, load_commit-After}
use soal.Vault.Exchange.{Blobs, collect_provide_hashes}
use soal.Vault.Exchange.Serving.{AreOf, collect_provide_hashes-After}
use soal.Examples.Crates.{hex, blake3, sum_hash, sum_hash-IsArray}
use soal.Examples.Signatures.{keys, key}
use soal.Examples.Seals.{aead}

-- The hash of a text of that length.
abbrev pub of_length : ℕ → ContentHash
of_length n = n ∷ replicate 31 0

abbrev pub commit : Commit
commit = record {
  tree = of_length 4;
  parents = of_length 5 ∷ [];
  author = codes "soal-local";
  timestamp = 7;
  message = codes "first";
  protocol_version = 1;
  signature = none;
}

abbrev pub tree : Tree
tree = record { entries = (codes "a", file 2 (of_length 2 ∷ [])) ∷ [] }

abbrev pub crates : Crates
crates = record {
  hex = hex;
  blake3 = blake3;
  keys = keys;
  aead = aead;
  secret_key_from_bytes = λ b. tt;
  secret_key_hex = λ s. some (hex.encode key);
  parse_key = λ s. some key;
  commit_json = record { to_string = λ c. 1 ∷ 2 ∷ 3 ∷ []; from_str = λ s. some commit };
  tree_json = record { to_string = λ t. 1 ∷ 2 ∷ 3 ∷ 4 ∷ []; from_str = λ s. some tree };
  config_json = record { to_string = λ c. []; from_str = λ s. none };
  config_body = λ c. [];
  snapshots_json = record { to_string = λ l. []; from_str = λ s. none };
  policy_json = record { to_string = λ p. []; from_str = λ s. none };
  state_json = record { to_string = λ p. []; from_str = λ s. none };
}

abbrev pub files : Files
files =
    (head_file, to_hex hex (of_length 3))
    ∷ (commit_path_json crates (of_length 3), 1 ∷ 2 ∷ 3 ∷ [])
    ∷ (tree_path_json crates (of_length 4), 1 ∷ 2 ∷ 3 ∷ 4 ∷ [])
    ∷ []

pub commit_hash-IsArray : IsArray 32 (of_length 3)
commit_hash-IsArray = sum_hash-IsArray (1 ∷ 2 ∷ 3 ∷ [])

pub starts : live_roots crates (quiet files) ≡ (ok (of_length 3 ∷ []), quiet files)
unfolding live_roots soal.Vault.Live.or_head soal.Vault.Heads.protected_commit_roots
    soal.Vault.Heads.head soal.Vault.Heads.read_head soal.Vault.Heads.list_heads
    soal.Vault.Heads.list_heads_file_only soal.Vault.Heads.read_to_string
    soal.Vault.Heads.snapshot_roots soal.Policy.Registry.load_snapshots soal.Policy.Registry.load_or
    soal.Set.add soal.Set.elements soal.Set.add_all soal.Map.insert soal.Map.lookup soal.Disk.exists
    soal.Disk.call soal.Disk.contents soal.Disk.attempt soal.Disk.lift soal.Disk.pure
    soal.Disk.read_file soal.Disk.◌>>=◌ soal.Disk.bind_at soal.Content.bytes_eq
    soal.Codec.Utf8.is_utf8 soal.Content.Text.trim soal.Content.Hex.from_hex soal.Content.Hex.to_hex
    soal.Content.Hex.decode_hash soal.Examples.Crates.encode soal.Examples.Crates.decode
    soal.Content.Text.space_front soal.Content.Text.space_back soal.Content.Hex.is_ascii_hexdigit
    commit_path_json tree_path_json soal.Content.bytes_ltb
starts = refl

abbrev pub live_objects : Hashes
live_objects = (of_length 3, tt) ∷ (of_length 4, tt) ∷ []

pub finds_objects :
    live_object_hashes crates 2 (quiet files) ≡ (ok (some live_objects), quiet files)
unfolding soal.Vault.Live.live_roots soal.Vault.Live.walk soal.Set.contains
    soal.Vault.Objects.has_commit_object soal.Vault.Objects.load_commit
    soal.Vault.Objects.load_commit_json soal.Vault.Objects.commit_path_bin
    soal.Vault.Dual.commit_from_bytes soal.Vault.Dual.commit_legacy_json_hash
    soal.Codec.Frame.cid_of soal.Vault.Live.or_head soal.Vault.Heads.protected_commit_roots
    soal.Vault.Heads.head soal.Vault.Heads.read_head soal.Vault.Heads.list_heads
    soal.Vault.Heads.list_heads_file_only soal.Vault.Heads.read_to_string
    soal.Vault.Heads.snapshot_roots soal.Policy.Registry.load_snapshots soal.Policy.Registry.load_or
    soal.Set.add soal.Set.elements soal.Set.add_all soal.Map.insert soal.Map.lookup soal.Disk.exists
    soal.Disk.call soal.Disk.contents soal.Disk.attempt soal.Disk.lift soal.Disk.pure
    soal.Disk.read_file soal.Disk.◌>>=◌ soal.Disk.bind_at soal.Content.bytes_eq
    soal.Codec.Utf8.is_utf8 soal.Content.Text.trim soal.Content.Hex.from_hex soal.Content.Hex.to_hex
    soal.Content.Hex.decode_hash soal.Examples.Crates.encode soal.Examples.Crates.decode
    soal.Content.Text.space_front soal.Content.Text.space_back soal.Content.Hex.is_ascii_hexdigit
    commit_path_json tree_path_json soal.Content.bytes_ltb live_object_hashes
    soal.Vault.Live.mark_objects
finds_objects = refl

pub finds_chunks :
    live_chunk_hashes crates 2 (quiet files) ≡ (ok (some ((of_length 2, tt) ∷ [])), quiet files)
unfolding soal.Vault.Live.live_roots soal.Vault.Live.walk soal.Set.contains
    soal.Vault.Objects.has_commit_object soal.Vault.Objects.load_commit
    soal.Vault.Objects.load_commit_json soal.Vault.Objects.commit_path_bin
    soal.Vault.Objects.tree_path_bin soal.Vault.Dual.commit_from_bytes
    soal.Vault.Dual.commit_legacy_json_hash soal.Codec.Frame.cid_of soal.Vault.Live.or_head
    soal.Vault.Heads.protected_commit_roots soal.Vault.Heads.head soal.Vault.Heads.read_head
    soal.Vault.Heads.list_heads soal.Vault.Heads.list_heads_file_only
    soal.Vault.Heads.read_to_string soal.Vault.Heads.snapshot_roots
    soal.Policy.Registry.load_snapshots soal.Policy.Registry.load_or soal.Set.add soal.Set.elements
    soal.Set.add_all soal.Map.insert soal.Map.lookup soal.Disk.exists soal.Disk.call
    soal.Disk.contents soal.Disk.attempt soal.Disk.lift soal.Disk.pure soal.Disk.read_file
    soal.Disk.◌>>=◌ soal.Disk.bind_at soal.Content.bytes_eq soal.Codec.Utf8.is_utf8
    soal.Content.Text.trim soal.Content.Hex.from_hex soal.Content.Hex.to_hex
    soal.Content.Hex.decode_hash soal.Examples.Crates.encode soal.Examples.Crates.decode
    soal.Content.Text.space_front soal.Content.Text.space_back soal.Content.Hex.is_ascii_hexdigit
    commit_path_json tree_path_json soal.Content.bytes_ltb live_chunk_hashes
    soal.Vault.Live.live_chunk_hashes_from_roots soal.Vault.Live.mark_chunks
    soal.Vault.Objects.has_tree_object soal.Vault.Objects.load_tree
    soal.Vault.Objects.load_tree_json soal.Vault.Dual.tree_from_bytes
    soal.Vault.Dual.tree_legacy_json_hash soal.Tree.all_chunk_hashes
finds_chunks = refl

pub commit-Holds : Holds crates files (of_length 3) commit
unfolding soal.Vault.Objects.has_commit_object soal.Vault.Objects.load_commit
    soal.Vault.Objects.load_commit_json soal.Vault.Objects.commit_path_bin
    soal.Vault.Dual.commit_from_bytes soal.Vault.Dual.commit_legacy_json_hash
    soal.Codec.Frame.cid_of soal.Map.lookup soal.Disk.exists soal.Disk.call soal.Disk.contents
    soal.Disk.attempt soal.Disk.lift soal.Disk.pure soal.Disk.read_file soal.Disk.◌>>=◌
    soal.Disk.bind_at soal.Content.bytes_eq soal.Content.Hex.to_hex soal.Examples.Crates.encode
    commit_path_json tree_path_json
commit-Holds = record { present = refl; loaded = refl }

live_object_hashes_iff_example :
    (quiet files ≡ quiet files)
    × ((x : ContentHash)
        → (contains x live_objects ≡ true)
          ↔ IsLive crates files (IsObject crates files) (IsRoot crates files) x)
live_object_hashes_iff_example =
    live_object_hashes_iff crates files 2 live_objects (quiet files) finds_objects

live_chunk_hashes_iff_example :
    (quiet files ≡ quiet files)
    × ((x : ContentHash)
        → (contains x ((of_length 2, tt) ∷ []) ≡ true)
          ↔ IsLive crates files (IsChunk crates files) (IsRoot crates files) x)
live_chunk_hashes_iff_example =
    live_chunk_hashes_iff crates files 2 ((of_length 2, tt) ∷ []) (quiet files) finds_chunks

parent_absent : has_commit_object crates (of_length 5) (quiet files) ≡ false
unfolding soal.Vault.Objects.has_commit_object soal.Vault.Objects.commit_path_bin soal.Map.lookup
    soal.Disk.exists soal.Content.bytes_eq soal.Content.Hex.to_hex soal.Examples.Crates.encode
    commit_path_json tree_path_json
parent_absent = refl

-- The only commit that the head leads to and the vault has.
one_commit :
    (h : ContentHash)
    → Linked crates files (λ a. Memᴰ a (of_length 3 ∷ [])) h
    → has_commit_object crates h (quiet files) ≡ true
    → Memᴰ h (of_length 3 ∷ [])
one_commit h (Linked.root k) there = k
one_commit p (Linked.parent {h} c l held k) there =
    let same : h ≡ of_length 3 = Memᴰ.eq_of_singleton (one_commit h l held.present) in
    let loaded : load_commit crates (of_length 3) (quiet files) ≡ (ok c, quiet files) =
      subst (λ x. load_commit crates x (quiet files) ≡ (ok c, quiet files)) same held.loaded in
    let which : c ≡ commit = cc (loaded, commit-Holds.loaded) in
    let up : p ≡ of_length 5 =
      Memᴰ.eq_of_singleton (subst (λ (x : Commit). Memᴰ p x.parents) which k) in
    absurd (cc (there, up, parent_absent))

two_rounds : length (of_length 3 ∷ []) + unseen crates files (of_length 3 ∷ []) [] ≤ 2
unfolding soal.Set.contains soal.Vault.Objects.load_commit soal.Vault.Objects.load_commit_json
    soal.Vault.Objects.commit_path_bin soal.Vault.Dual.commit_from_bytes
    soal.Vault.Dual.commit_legacy_json_hash soal.Codec.Frame.cid_of soal.Map.lookup soal.Disk.exists
    soal.Disk.call soal.Disk.contents soal.Disk.attempt soal.Disk.lift soal.Disk.pure
    soal.Disk.read_file soal.Disk.◌>>=◌ soal.Disk.bind_at soal.Content.bytes_eq
    soal.Content.Hex.to_hex soal.Examples.Crates.encode commit_path_json tree_path_json unseen
    parent_count parents_of
two_rounds = omega arith

live_hashes_end_example :
    (live_object_hashes crates 2 (quiet files) ≢ (ok none, quiet files))
    × (live_chunk_hashes crates 2 (quiet files) ≢ (ok none, quiet files))
live_hashes_end_example =
    live_hashes_end crates files (of_length 3 ∷ []) (of_length 3 ∷ []) one_commit starts 2
      two_rounds (quiet files)

-- The two calls of the write, of which the second stops behind two bytes.
abbrev failing : Disk
failing = record { files = files; faults = none ∷ some 2 ∷ [] }

import_commit_bytes-After_example :
    After
      (λ _ m.
        (sum_hash (1 ∷ 2 ∷ []) ≡ of_length 2)
        × (TookWire crates (of_length 2) (1 ∷ 2 ∷ []) files m
            ⊎ TookJson crates (of_length 2) (1 ∷ 2 ∷ []) files m))
      (Untouched crates
        (of_length 2)
        (1 ∷ 2 ∷ [])
        files
        (commit_path_bin crates (of_length 2))
        (commit_path_json crates (of_length 2)))
      (import_commit_bytes crates (of_length 2) (1 ∷ 2 ∷ []) failing)
unfolding soal.Codec.Frame.cid_of
import_commit_bytes-After_example =
    import_commit_bytes-After crates (of_length 2) (1 ∷ 2 ∷ []) failing

resolve_blob-After_example :
    After
      (λ bytes m. (m ≡ files) × (sum_hash bytes ≡ of_length 3))
      (λ m. m ≡ files)
      (resolve_blob crates (of_length 3) failing)
unfolding soal.Codec.Frame.cid_of
resolve_blob-After_example = resolve_blob-After crates (of_length 3) failing

load_commit-After_example :
    After
      (λ c m.
        (IsBinCommit crates (of_length 3) c files ⊎ IsJsonCommit crates (of_length 3) c files)
        × (m ≡ files))
      (λ m. m ≡ files)
      (load_commit crates (of_length 3) failing)
load_commit-After_example = load_commit-After crates (of_length 3) failing

collect_provide_hashes-After_example :
    After
      (λ o m. (m ≡ files) × ((blobs : Blobs) → o ≡ some blobs → AreOf crates files blobs))
      (λ m. m ≡ files)
      (collect_provide_hashes crates 3 (of_length 3) failing)
collect_provide_hashes-After_example = collect_provide_hashes-After crates 3 (of_length 3) failing

abbrev headed : Disk
headed = (set_head_public crates (of_length 3) (quiet files)).1

sets_head : set_head_public crates (of_length 3) (quiet files) ≡ (ok tt, headed)
unfolding soal.Vault.Objects.load_commit soal.Vault.Objects.load_commit_json
    soal.Vault.Objects.commit_path_bin soal.Vault.Dual.commit_from_bytes
    soal.Vault.Dual.commit_legacy_json_hash soal.Codec.Frame.cid_of soal.Vault.Heads.head
    soal.Vault.Heads.read_head soal.Vault.Heads.list_heads soal.Vault.Heads.list_heads_file_only
    soal.Vault.Heads.read_to_string soal.Map.insert soal.Map.lookup soal.Disk.exists soal.Disk.call
    soal.Disk.contents soal.Disk.attempt soal.Disk.lift soal.Disk.pure soal.Disk.read_file
    soal.Disk.◌>>=◌ soal.Disk.bind_at soal.Content.bytes_eq soal.Codec.Utf8.is_utf8
    soal.Content.Text.trim soal.Content.Hex.from_hex soal.Content.Hex.to_hex
    soal.Content.Hex.decode_hash soal.Examples.Crates.encode soal.Examples.Crates.decode
    soal.Content.Text.space_front soal.Content.Text.space_back soal.Content.Hex.is_ascii_hexdigit
    commit_path_json tree_path_json soal.Content.bytes_ltb set_head_public soal.Vault.Heads.set_head
    soal.Vault.Heads.record_head soal.Vault.Heads.write_heads soal.Disk.write_file soal.Disk.create
    soal.Disk.write_all
sets_head = refl

head-set_head_public_example :
    head crates (quiet headed.files) ≡ (ok (some (of_length 3)), quiet headed.files)
head-set_head_public_example =
    head-set_head_public crates (of_length 3) commit_hash-IsArray (quiet files) headed sets_head
