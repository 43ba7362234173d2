-- ===== src/Vault/Dual.antt =====
-- src/tree.rs and src/commit.rs, `from_wire_or_json`, `from_bytes`, `hash` and `legacy_json_hash`:
-- the wire form of trees and commits beside the JSON form of older vaults.
use soal.Base.{
  ◌^◌, not, ◌&&◌, Bytes, ltb, length, take, if◌then◌else◌, Result, ok, err, SoalError, Message,
}
use soal.Content.{ContentHash, bytes_eq}
use soal.Tree.{Tree}
use soal.Commit.{Commit}
use soal.Codec.Frame.{Domain, domain_tree, domain_commit, cid_of}
use soal.Codec.TreeWire.{decode_tree_wire, tree_cid}
use soal.Codec.CommitWire.{decode_commit_wire, commit_cid}
use soal.Policy.Registry.{from_json}
use soal.Vault.{Crates}

-- `data.len() >= 16 && data[..16] == domain`
unfoldable pub is_framed : Domain → Bytes → soal.Base.Bool
is_framed domain bytes = not (ltb (length bytes) 16) && bytes_eq (take 16 bytes) domain

module _ (crates : Crates) where
  open crates use {hex, blake3, commit_json, tree_json}

  unfoldable pub tree_from_bytes : Bytes → Result Tree
  tree_from_bytes bytes = from_json (tree_json.from_str bytes)

  unfoldable pub tree_from_wire_or_json : Bytes → Result Tree
  tree_from_wire_or_json bytes =
      if is_framed domain_tree bytes then decode_tree_wire bytes else tree_from_bytes bytes

  unfoldable pub tree_legacy_json_hash : Tree → ContentHash
  tree_legacy_json_hash t = cid_of blake3 (tree_json.to_string t)

  unfoldable pub commit_from_bytes : Bytes → Result Commit
  commit_from_bytes bytes = from_json (commit_json.from_str bytes)

  unfoldable pub commit_from_wire_or_json : Bytes → Result Commit
  commit_from_wire_or_json bytes =
      if is_framed domain_commit bytes
      then decode_commit_wire hex blake3 bytes
      else commit_from_bytes bytes

  unfoldable pub commit_legacy_json_hash : Commit → ContentHash
  commit_legacy_json_hash c = cid_of blake3 (commit_json.to_string c)

  unfoldable pub tree_hash : Tree → Result ContentHash
  tree_hash t = tree_cid blake3 t

  unfoldable pub commit_hash : Commit → Result ContentHash
  commit_hash c = commit_cid hex blake3 c
