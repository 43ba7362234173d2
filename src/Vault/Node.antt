-- ===== src/Vault/Node.antt =====
-- src/identity.rs, `load_secret_key` and `local_author_sync`, and src/vault.rs, `make_commit`: the
-- key of the local node, and new commits, which are signed with it where there is one.
use soal.Base.{
  ℕ, not, Bytes, List, ◌==◌, length, Option, none, some, Result, ok, err, panic, SoalError, Message,
  reject, if◌then◌else◌, String,
}
use soal.Content.{ContentHash, codes}
use soal.Content.Text.{trim}
use soal.Commit.{Commit, new}
use soal.Identity.{sign_commit}
use soal.Policy.Registry.{from_json}
use soal.Vault.{Crates, Vault, Home}

abbrev pub other : String → SoalError
other m = SoalError.other (Message.text m)

-- `x.ok_or_else(|| SoalError::Other(..))?` and `x.map_err(|_| SoalError::Other(..))?`
abbrev pub or_other {ℓ} : {A : Type ℓ} → Option A → String → Result A
or_other none m = err (other m)
or_other (some a) m = ok a

module _ (crates : Crates) where
  open crates use {hex, blake3, keys, secret_key_from_bytes, secret_key_hex}

  unfoldable pub load_secret_key : Home → Result keys.SecretKey
  load_secret_key home =
      soal.Base.◌>>=◌ (or_other home.node_json "node identity not initialized") λ s.
        soal.Base.◌>>=◌ (from_json (secret_key_hex s)) λ digits.
          soal.Base.◌>>=◌ (or_other (hex.decode (trim digits)) "invalid secret key hex") λ bytes.
            soal.Base.◌>>◌ (reject (not (length bytes == 32)) (other "secret key must be 32 bytes"))
              (ok (secret_key_from_bytes bytes))

  unfoldable pub local_author_sync : Home → Result Bytes
  local_author_sync home =
      soal.Base.◌>>=◌ (load_secret_key home) λ sk. ok (keys.to_string (keys.public sk))

  -- `.ok().unwrap_or_else(|| "soal-local".to_string())`
  unfoldable pub author_or_local : Result Bytes → Bytes
  author_or_local (ok author) = author
  author_or_local _ = codes "soal-local"

  unfoldable pub author_of : Option Home → Bytes
  author_of none = codes "soal-local"
  author_of (some home) = author_or_local (local_author_sync home)

  -- `if let Ok(sk) = .. { identity::sign_commit(&sk, &mut commit)?; }`
  unfoldable pub sign_if : Result keys.SecretKey → Commit → Result Commit
  sign_if (ok sk) commit = sign_commit keys hex blake3 sk commit
  sign_if _ commit = ok commit

  unfoldable pub sign_at : Option Home → Commit → Result Commit
  sign_at none commit = ok commit
  sign_at (some home) commit = sign_if (load_secret_key home) commit

  -- `now` is the clock's time.
  unfoldable pub make_commit : Vault → ℕ → ContentHash → List ContentHash → Bytes → Result Commit
  make_commit vault now tree parents message =
      sign_at vault.soal_home (new tree parents (author_of vault.soal_home) message now)
