-- ===== src/Vault/Sweep/Names.antt =====
-- src/vault.rs, `gc_unreachable_objects`: the hashes that it reads from the names of objects.
use soal.Base.{
  ℕ, ◌≡◌, refl, true, ◌&&◌, Bytes, [], ◌∷◌, ◌++◌, length, all, length-append, take-length_append,
  drop-length_append, none, some, arith,
}
use soal.Content.{ContentHash, IsArray, bytes_eq, bytes_eq_refl, codes}
use soal.Content.Hex.{to_hex, from_hex-to_hex, is_ascii_hexdigit}
use soal.Paths.{rfind, dot, split_ext}
use soal.Vault.{Crates}
use soal.Vault.Objects.{
  commits_dir, trees_dir, commit_path_bin, commit_path_json, tree_path_bin, tree_path_json,
}
use soal.Vault.Sweep.{strip_prefix, file_stem, named_hash}

-- What a folder's name is followed by.
strip_prefix-append : (dir rest : Bytes) → strip_prefix dir (dir ++ rest) ≡ some rest
unfolding strip_prefix
strip_prefix-append dir rest = ground (
  arith,
  length-append dir rest,
  take-length_append dir rest,
  drop-length_append dir rest,
  bytes_eq_refl dir,
)

-- The last dot of a name of hex digits with an extension is that of the extension.
rfind_behind_digits :
    (s ext : Bytes)
    → all is_ascii_hexdigit s ≡ true
    → rfind dot ext ≡ some 0
    → rfind dot (s ++ ext) ≡ some (length s)
unfolding rfind
rfind_behind_digits [] ext h e = e
rfind_behind_digits (b ∷ s) ext h e =
    rw (rfind_behind_digits s ext (digits_rest b s h) e, rfind) refl
  where
    digits_rest :
        (b : ℕ) (s : Bytes)
        → (is_ascii_hexdigit b && all is_ascii_hexdigit s) ≡ true
        → all is_ascii_hexdigit s ≡ true
    digits_rest b s h = ground arith

file_stem-digits :
    (s ext : Bytes)
    → all is_ascii_hexdigit s ≡ true
    → length s ≡ 64
    → rfind dot ext ≡ some 0
    → file_stem (s ++ ext) ≡ s
unfolding file_stem split_ext
file_stem-digits s ext h n e =
    ground (arith, rfind_behind_digits s ext h e, take-length_append s ext)

module _ (crates : Crates) where
  open crates use {hex}

  -- An object's file carries its hash.
  named_hash_of_path :
      (dir ext : Bytes) (x : ContentHash)
      → IsArray 32 x
      → rfind dot ext ≡ some 0
      → named_hash crates dir (dir ++ (to_hex hex x ++ ext)) ≡ some x
  unfolding named_hash to_hex
  named_hash_of_path dir ext x a e =
      let n : length (hex.encode x) ≡ 64 = omega (arith, hex.length-encode x, a.size) in
      let stem : file_stem (hex.encode x ++ ext) ≡ hex.encode x =
        file_stem-digits (hex.encode x) ext (hex.encode_digits x) n e in
      ground
        (arith, strip_prefix-append dir (hex.encode x ++ ext), stem, n, from_hex-to_hex hex x a)

  -- The four names of objects of a hash.
  pub data IsObjectPath (x : ContentHash) : Bytes → Type 0 where
    commit_bin : IsObjectPath x (commit_path_bin crates x)
    commit_json : IsObjectPath x (commit_path_json crates x)
    tree_bin : IsObjectPath x (tree_path_bin crates x)
    tree_json : IsObjectPath x (tree_path_json crates x)

  bin_dot : rfind dot (codes ".bin") ≡ some 0
  unfolding rfind
  bin_dot = refl

  json_dot : rfind dot (codes ".json") ≡ some 0
  unfolding rfind
  json_dot = refl

  not_a_tree : (rest : Bytes) → named_hash crates trees_dir (commits_dir ++ rest) ≡ none
  unfolding named_hash strip_prefix bytes_eq
  not_a_tree rest = ground arith

  not_a_commit : (rest : Bytes) → named_hash crates commits_dir (trees_dir ++ rest) ≡ none
  unfolding named_hash strip_prefix bytes_eq
  not_a_commit rest = ground arith

  -- In either folder, the only hash that the sweep reads from such a name is that hash.
  abbrev pub Names : ContentHash → Bytes → Type 0
  Names x name =
      ((h : ContentHash) → named_hash crates commits_dir name ≡ some h → h ≡ x)
      × ((h : ContentHash) → named_hash crates trees_dir name ≡ some h → h ≡ x)

  pub path-Names :
      (x : ContentHash) (name : Bytes) → IsArray 32 x → IsObjectPath x name → Names x name
  unfolding commit_path_bin commit_path_json tree_path_bin tree_path_json
  path-Names x name a commit_bin = (
    λ h e. cc (e, named_hash_of_path commits_dir (codes ".bin") x a bin_dot),
    λ h e. cc (e, not_a_tree (to_hex hex x ++ codes ".bin")),
  )
  path-Names x name a commit_json = (
    λ h e. cc (e, named_hash_of_path commits_dir (codes ".json") x a json_dot),
    λ h e. cc (e, not_a_tree (to_hex hex x ++ codes ".json")),
  )
  path-Names x name a tree_bin = (
    λ h e. cc (e, not_a_commit (to_hex hex x ++ codes ".bin")),
    λ h e. cc (e, named_hash_of_path trees_dir (codes ".bin") x a bin_dot),
  )
  path-Names x name a tree_json = (
    λ h e. cc (e, not_a_commit (to_hex hex x ++ codes ".json")),
    λ h e. cc (e, named_hash_of_path trees_dir (codes ".json") x a json_dot),
  )
