-- ===== src/Examples/Members.antt =====
-- A vault with members and a key of the node, chunks and peers, at concrete values.
use soal.Base.{
  ◌≡◌, ◌≢◌, refl, ◌↔◌, ◌||◌, ◌++◌, true, false, Bytes, List, [], ◌∷◌, none, some, ok, err, Result,
  SoalError, Message, replicate,
}
use soal.Content.{ContentHash, bytes_eq, codes}
use soal.Content.Text.{trim}
use soal.Chunking.{Chunk}
use soal.Codec.Frame.{cid_of}
use soal.Disk.{Disk, quiet}
use soal.Disk.Triples.{Files}
use soal.Invite.{lists_member, to_ascii_lowercase}
use soal.Vault.{Vault, VaultConfig, Home}
use soal.Vault.Config.{set_min_replicas, add_member, remove_member}
use soal.Vault.Config.Signed.{HasKey, IsVerified, methods-IsVerified}
use soal.Vault.Config.Members.{lists-add_member, lists-remove_member}
use soal.Vault.Edit.{data_to_store, store_chunk, load_chunk}
use soal.Vault.Edit.Chunks.{load_chunk-store_chunk}
use soal.Sync.Fetch.{get_blob_with_failover}
use soal.Sync.Failover.{FirstToServe, get_blob_with_failover_iff}
use soal.Examples.Crates.{hex, blake3}
use soal.Examples.Seals.{tag}
use soal.Examples.Vaults.{crates, of_length}

abbrev pub config : VaultConfig
config = record {
  name = codes "v";
  encryption_enabled = true;
  min_replicas = 2;
  created_at = 7;
  vault_id = codes "id";
  config_seq = 1;
  members = codes "aB" ∷ codes "c" ∷ [];
  owner = none;
  config_sig = none;
  key_wrapped = false;
  key_hex = none;
}

abbrev vault : Vault
vault = record {
  name = codes "v";
  config = config;
  key = some (replicate 32 9);
  soal_home = some (record { node_json = some (codes "{}") });
}

-- The second call fails, within the write of the config.
abbrev failing : Disk
failing = record { files = []; faults = none ∷ some 1 ∷ [] }

vault-HasKey : HasKey crates vault
unfolding soal.Vault.Node.load_secret_key soal.Content.Text.trim soal.Examples.Crates.encode
    soal.Examples.Crates.decode soal.Content.Text.space_front soal.Content.Text.space_back
vault-HasKey = record {
  home = record { node_json = some (codes "{}") };
  at_home = refl;
  sk = tt;
  loads = refl;
  reads_back = refl;
}

unsigned-IsVerified : IsVerified crates vault
unfolding soal.Vault.Config.verify_vault_config
unsigned-IsVerified = refl

methods-IsVerified_example :
    IsVerified crates (set_min_replicas crates 3 vault failing).1
    × IsVerified crates (add_member crates (codes " d ") vault failing).1
    × IsVerified crates (remove_member crates (codes " d ") vault failing).1
methods-IsVerified_example =
    methods-IsVerified crates vault failing 3 (codes " d ") vault-HasKey unsigned-IsVerified

named : soal.Paths.is_empty (trim (codes " d ")) ≡ false
unfolding soal.Paths.is_empty trim soal.Content.Text.space_front soal.Content.Text.space_back
named = refl

lists-add_member_example :
    lists_member (codes "D") (add_member crates (codes " d ") vault failing).1.config.members ≡ (
      lists_member (codes "D") config.members
      || bytes_eq (to_ascii_lowercase (trim (codes " d "))) (to_ascii_lowercase (codes "D")))
lists-add_member_example = lists-add_member crates (codes " d ") vault failing (codes "D") named

lists-remove_member_example :
    (lists_member (codes "Ab") (remove_member crates (codes "Ab") vault failing).1.config.members
      ≡ false)
    × ((m : Bytes)
        → to_ascii_lowercase m ≢ to_ascii_lowercase (codes "Ab")
        → lists_member m (remove_member crates (codes "Ab") vault failing).1.config.members
          ≡ lists_member m config.members)
lists-remove_member_example = lists-remove_member crates (codes "Ab") vault failing

abbrev chunk : Chunk
chunk = record { hash = of_length 3; bytes = 1 ∷ 2 ∷ 3 ∷ [] }

abbrev stored : Bytes
stored = 3 ∷ (replicate 23 0 ++ (1 ∷ 2 ∷ 3 ∷ tag))

encrypts : data_to_store crates vault.key chunk.bytes ≡ ok stored
unfolding data_to_store soal.Crypto.encrypt_deterministic
encrypts = refl

load_chunk-store_chunk_example :
    (n : Files) × (store_chunk crates vault chunk (quiet []) ≡ (ok (cid_of blake3 stored), quiet n))
    × (load_chunk crates vault (cid_of blake3 stored) (quiet n) ≡ (ok chunk.bytes, quiet n))
unfolding soal.Map.lookup
load_chunk-store_chunk_example = load_chunk-store_chunk crates vault chunk stored [] encrypts refl

-- The first peer has nothing, the others have the bytes.
abbrev answers : Bytes → ContentHash → Result Bytes
answers peer hash =
    soal.Base.if◌then◌else◌ (bytes_eq peer (codes "p"))
      (err (SoalError.other (Message.text "down"))) (ok (1 ∷ 2 ∷ []))

get_blob_with_failover_iff_example :
    (get_blob_with_failover blake3 answers (codes "p" ∷ codes "q" ∷ []) (of_length 2)
      ≡ ok (codes "q", 1 ∷ 2 ∷ []))
    ↔ FirstToServe blake3 answers
        (of_length 2)
        (codes "q")
        (1 ∷ 2 ∷ [])
        (codes "p" ∷ codes "q" ∷ [])
get_blob_with_failover_iff_example =
    get_blob_with_failover_iff blake3 answers (codes "p" ∷ codes "q" ∷ []) (of_length 2) (codes "q")
      (1 ∷ 2 ∷ [])
