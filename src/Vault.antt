-- ===== src/Vault.antt =====
-- src/vault.rs, `VaultConfig` and `Vault`. The vault's folder on disk is the `Disk`, and a name
-- stands for the path below it; the chunks of src/store.rs stand without their folder `chunks/`.
pub mod Dual
pub mod Objects
pub mod Heads
pub mod Stored
pub mod Live
pub mod Sweep
pub mod Transfer
pub mod Node
pub mod Edit
pub mod AddPath
pub mod Exchange
pub mod Config
use soal.Base.{ℕ, Bool, Bytes, List, Option}
use soal.Content.{Blake3}
use soal.Content.Hex.{HexCrate}
use soal.Tree.{Tree}
use soal.Commit.{Commit}
use soal.Crypto.{Aead}
use soal.Identity.{Keys}
use soal.Policy.{VaultPolicy, PolicyState}
use soal.Policy.Registry.{Json, SnapshotLog}

pub record VaultConfig : Type 0 where
  pub name : Bytes
  pub encryption_enabled : Bool
  pub min_replicas : ℕ
  pub created_at : ℕ
  pub vault_id : Bytes
  pub config_seq : ℕ
  pub members : List Bytes
  pub owner : Option Bytes
  pub config_sig : Option Bytes
  pub key_wrapped : Bool
  pub key_hex : Option Bytes

-- The fields that `config_sign_preimage` puts in a map.
pub record SignedFields : Type 0 where
  pub config_seq : ℕ
  pub created_at : ℕ
  pub encryption_enabled : Bool
  pub key_wrapped : Bool
  pub members : List Bytes
  pub min_replicas : ℕ
  pub name : Bytes
  pub owner : Option Bytes
  pub vault_id : Bytes

-- `node_json` is the text of the file `node.json` in the node's home, where there is one.
pub record Home : Type 0 where
  pub node_json : Option Bytes

pub record Vault : Type 0 where
  pub name : Bytes
  pub config : VaultConfig
  pub key : Option Bytes
  pub soal_home : Option Home

-- The crates that a vault calls. `commit_json` and `tree_json` read and write the forms of older
-- vaults; `secret_key_hex` reads the field of that name from `node.json`; `config_body` writes the
-- signed fields of a config as one JSON object; `parse_key` is `str::parse::<PublicKey>`.
pub record Crates : Type 1 where
  pub hex : HexCrate
  pub blake3 : Blake3
  pub keys : Keys
  pub aead : Aead
  pub secret_key_from_bytes : Bytes → keys.SecretKey
  pub secret_key_hex : Bytes → Option Bytes
  pub parse_key : Bytes → Option Bytes
  pub commit_json : Json Commit
  pub tree_json : Json Tree
  pub config_json : Json VaultConfig
  pub config_body : SignedFields → Bytes
  pub snapshots_json : Json SnapshotLog
  pub policy_json : Json VaultPolicy
  pub state_json : Json PolicyState
