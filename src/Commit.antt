-- ===== src/Commit.antt =====
-- src/commit.rs: commits.
use soal.Base.{
  ℕ, Bool, not, Bytes, List, [], ◌==◌, if◌then◌else◌, length, replicate, Option, none, some,
}
use soal.Content.{ContentHash, bytes_eq, codes}
use soal.Content.Text.{trim}
use soal.Content.Hex.{HexCrate}

-- `author` and `message` are texts, `signature` is hex digits where there is one.
pub record Commit : Type 0 where
  pub tree : ContentHash
  pub parents : List ContentHash
  pub author : Bytes
  pub timestamp : ℕ
  pub message : Bytes
  pub protocol_version : ℕ
  pub signature : Option Bytes

abbrev pub protocol_version_1 : ℕ
protocol_version_1 = 1

-- `now` is the clock's time.
unfoldable pub new : ContentHash → List ContentHash → Bytes → Bytes → ℕ → Commit
new tree parents author message now = record {
  tree = tree;
  parents = parents;
  author = author;
  timestamp = now;
  message = message;
  protocol_version = protocol_version_1;
  signature = none;
}

unfoldable pub create_initial_commit : ContentHash → Bytes → ℕ → Commit
unfolding new
create_initial_commit tree_hash message now = new tree_hash [] (codes "soal-local") message now

abbrev pub no_signature : Bytes
no_signature = replicate 64 0

module _ (hex : HexCrate) where
  unfoldable pub decode_signature : Bytes → Bytes
  decode_signature hex_sig = elim (hex.decode (trim hex_sig)) [
    | none ↦ no_signature
    | some bytes ↦ if length bytes == 64 then bytes else no_signature
  ]

  unfoldable pub signature_bytes : Commit → Bytes
  signature_bytes c = elim c.signature [
    | none ↦ no_signature
    | some hex_sig ↦ decode_signature hex_sig
  ]

  unfoldable pub is_signed : Commit → Bool
  unfolding signature_bytes
  is_signed c = not (bytes_eq (signature_bytes c) no_signature)
