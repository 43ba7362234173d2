-- ===== src/Examples/Sweeps.antt =====
-- The garbage collection at concrete values: a vault with a head, and one where only `HEADS` lists
-- the commit.
use mathlib.Core.List.{Memᴰ}
use soal.Base.{◌≡◌, refl, [], ◌∷◌, some, ok, inl, ◌++◌}
use soal.Content.{ContentHash, codes, IsArray}
use soal.Content.Hex.{to_hex}
use soal.Tree.{Tree, file}
use soal.Map.{lookup}
use soal.Set.{Hashes, contains}
use soal.Disk.{Disk, quiet}
use soal.Disk.Triples.{Files}
use soal.Vault.{Crates}
use soal.Vault.Objects.{
  commit_path_bin, load_commit, has_commit_object, commit_path_json, tree_path_json,
}
use soal.Vault.Heads.{
  head_file, heads_file, head, list_heads, set_head_public, protected_commit_roots,
}
use soal.Vault.Heads.Found.{head_of_digits}
use soal.Vault.Heads.Protected.{IsProtected, at_head, in_heads}
use soal.Vault.Live.Rounds.{Holds}
use soal.Vault.Live.Reach.{Linked, IsLive}
use soal.Vault.Live.Marks.{IsObject, IsChunk}
use soal.Vault.Sweep.{gc_unreachable_objects, gc_unreachable_chunks}
use soal.Vault.Sweep.Names.{IsObjectPath}
use soal.Vault.Sweep.Safe.{gc_unreachable_objects-keeps}
use soal.Vault.Sweep.Chunks.{gc_unreachable_chunks-keeps}
use soal.Store.{path_for}
use soal.Examples.Crates.{hex, blake3, sum_hash, sum_hash-IsArray}
use soal.Examples.Vaults.{of_length, commit, tree, crates, files, commit_hash-IsArray, commit-Holds}

protects : protected_commit_roots crates (quiet files) ≡ (ok (of_length 3 ∷ []), quiet files)
unfolding protected_commit_roots soal.Vault.Heads.head soal.Vault.Heads.read_head
    soal.Vault.Heads.list_heads soal.Vault.Heads.list_heads_file_only
    soal.Vault.Heads.read_to_string soal.Vault.Heads.snapshot_roots
    soal.Policy.Registry.load_snapshots soal.Policy.Registry.load_or soal.Set.add soal.Set.elements
    soal.Set.add_all soal.Map.insert soal.Map.lookup soal.Disk.exists soal.Disk.call
    soal.Disk.contents soal.Disk.attempt soal.Disk.lift soal.Disk.pure soal.Disk.read_file
    soal.Disk.◌>>=◌ soal.Disk.bind_at soal.Content.bytes_eq soal.Codec.Utf8.is_utf8
    soal.Content.Text.trim soal.Content.Hex.from_hex soal.Content.Hex.to_hex
    soal.Content.Hex.decode_hash soal.Examples.Crates.encode soal.Examples.Crates.decode
    soal.Content.Text.space_front soal.Content.Text.space_back soal.Content.Hex.is_ascii_hexdigit
    commit_path_json tree_path_json soal.Content.bytes_ltb
protects = refl

finds_head : head crates (quiet files) ≡ (ok (some (of_length 3)), quiet files)
unfolding lookup soal.Content.bytes_eq
finds_head = head_of_digits crates (of_length 3) commit_hash-IsArray files refl

-- The same commit, which `HEADS` lists and `HEAD` does not name.
abbrev headless : Files
headless =
    (heads_file, to_hex hex (of_length 3) ++ 10 ∷ [])
    ∷ (commit_path_json crates (of_length 3), 1 ∷ 2 ∷ 3 ∷ [])
    ∷ (tree_path_json crates (of_length 4), 1 ∷ 2 ∷ 3 ∷ 4 ∷ [])
    ∷ []

protects_heads :
    protected_commit_roots crates (quiet headless) ≡ (ok (of_length 3 ∷ []), quiet headless)
unfolding protected_commit_roots soal.Vault.Heads.head soal.Vault.Heads.list_heads
    soal.Vault.Heads.list_heads_file_only soal.Vault.Heads.read_to_string
    soal.Vault.Heads.snapshot_roots soal.Policy.Registry.load_snapshots soal.Policy.Registry.load_or
    soal.Set.add soal.Set.elements soal.Set.add_all soal.Map.insert soal.Map.lookup soal.Disk.exists
    soal.Disk.call soal.Disk.contents soal.Disk.attempt soal.Disk.lift soal.Disk.pure
    soal.Disk.read_file soal.Disk.◌>>=◌ soal.Disk.bind_at soal.Content.bytes_eq
    soal.Codec.Utf8.is_utf8 soal.Content.Text.trim soal.Content.Hex.from_hex soal.Content.Hex.to_hex
    soal.Content.Hex.decode_hash soal.Examples.Crates.encode soal.Examples.Crates.decode
    soal.Content.Text.space_front soal.Content.Text.space_back soal.Content.Hex.is_ascii_hexdigit
    commit_path_json tree_path_json soal.Vault.Heads.read_heads soal.Vault.Heads.head_lines
    soal.Vault.Heads.head_line soal.Paths.split soal.Paths.is_empty
protects_heads = refl

lists : list_heads crates (quiet headless) ≡ (ok ((of_length 3, tt) ∷ []), quiet headless)
unfolding list_heads soal.Vault.Heads.head soal.Vault.Heads.list_heads_file_only
    soal.Vault.Heads.read_to_string soal.Set.add soal.Map.insert soal.Map.lookup soal.Disk.exists
    soal.Disk.call soal.Disk.contents soal.Disk.attempt soal.Disk.lift soal.Disk.pure
    soal.Disk.read_file soal.Disk.◌>>=◌ soal.Disk.bind_at soal.Content.bytes_eq
    soal.Codec.Utf8.is_utf8 soal.Content.Text.trim soal.Content.Hex.from_hex soal.Content.Hex.to_hex
    soal.Content.Hex.decode_hash soal.Examples.Crates.encode soal.Examples.Crates.decode
    soal.Content.Text.space_front soal.Content.Text.space_back soal.Content.Hex.is_ascii_hexdigit
    commit_path_json tree_path_json soal.Vault.Heads.read_heads soal.Vault.Heads.head_lines
    soal.Vault.Heads.head_line soal.Paths.split soal.Paths.is_empty
lists = refl

headless-Holds : Holds crates headless (of_length 3) commit
unfolding soal.Vault.Objects.has_commit_object soal.Vault.Objects.load_commit
    soal.Vault.Objects.load_commit_json soal.Vault.Objects.commit_path_bin
    soal.Vault.Dual.commit_from_bytes soal.Vault.Dual.commit_legacy_json_hash
    soal.Codec.Frame.cid_of soal.Map.lookup soal.Disk.exists soal.Disk.call soal.Disk.contents
    soal.Disk.attempt soal.Disk.lift soal.Disk.pure soal.Disk.read_file soal.Disk.◌>>=◌
    soal.Disk.bind_at soal.Content.bytes_eq soal.Content.Hex.to_hex soal.Examples.Crates.encode
    commit_path_json tree_path_json
headless-Holds = record { present = refl; loaded = refl }

listed-IsLive :
    IsLive crates headless (IsObject crates headless) (IsProtected crates headless) (of_length 3)
unfolding contains lookup soal.Content.bytes_eq
listed-IsLive = record {
  hash = of_length 3;
  commit = commit;
  linked = Linked.root (in_heads ((of_length 3, tt) ∷ []) lists refl);
  held = headless-Holds;
  marks = inl refl;
}

gc_unreachable_objects-keeps_example :
    lookup
      (commit_path_json crates (of_length 3))
      (gc_unreachable_objects crates 2 (quiet headless)).1.files
    ≡ lookup (commit_path_json crates (of_length 3)) headless
gc_unreachable_objects-keeps_example =
    gc_unreachable_objects-keeps crates headless 2 (of_length 3 ∷ []) protects_heads (of_length 3)
      (commit_path_json crates (of_length 3)) commit_hash-IsArray listed-IsLive
      IsObjectPath.commit_json

chunk-IsLive : IsLive crates files (IsChunk crates files) (IsProtected crates files) (of_length 2)
unfolding soal.Vault.Objects.tree_path_bin soal.Codec.Frame.cid_of soal.Map.lookup soal.Disk.exists
    soal.Disk.call soal.Disk.contents soal.Disk.attempt soal.Disk.lift soal.Disk.pure
    soal.Disk.read_file soal.Disk.◌>>=◌ soal.Disk.bind_at soal.Content.bytes_eq
    soal.Content.Hex.to_hex soal.Examples.Crates.encode commit_path_json tree_path_json
    soal.Vault.Objects.has_tree_object soal.Vault.Objects.load_tree
    soal.Vault.Objects.load_tree_json soal.Vault.Dual.tree_from_bytes
    soal.Vault.Dual.tree_legacy_json_hash soal.Tree.all_chunk_hashes
chunk-IsLive = record {
  hash = of_length 3;
  commit = commit;
  linked = Linked.root (at_head finds_head);
  held = commit-Holds;
  marks = record { tree = tree; present = refl; loaded = refl; chunk = Memᴰ.head refl };
}

gc_unreachable_chunks-keeps_example :
    lookup
      (path_for hex blake3 (of_length 2))
      (gc_unreachable_chunks crates 2 (quiet files)).1.files
    ≡ lookup (path_for hex blake3 (of_length 2)) files
gc_unreachable_chunks-keeps_example =
    gc_unreachable_chunks-keeps crates files 2 (of_length 3 ∷ []) protects (of_length 2)
      (sum_hash-IsArray (1 ∷ 2 ∷ [])) chunk-IsLive
