-- ===== src/Crypto.antt =====
-- src/crypto.rs, lines 17 to 133: encrypting chunks, and sealing a vault key under another key.
-- `nonce` is what the random source gives.
pub mod Seal
use soal.Base.{
  ℕ, ◌+◌, ◌≡◌, Bool, not, Bytes, List, [], ◌++◌, String, ltb, ◌==◌, length, take, drop, Option,
  none, some, Result, ok, err, SoalError, Message, reject, ◌>>=◌, ◌>>◌,
}
use soal.Content.{Blake3}
use soal.Content.Text.{trim}
use soal.Content.Hex.{HexCrate}

-- XChaCha20-Poly1305 of the crate chacha20poly1305: `seal key nonce aad msg` and its inverse. The
-- ciphertext ends with a tag of 16 bytes.
pub record Aead : Type 0 where
  pub seal : Bytes → Bytes → Bytes → Bytes → Option Bytes
  pub open_sealed : Bytes → Bytes → Bytes → Bytes → Option Bytes
  pub open-seal :
      (key nonce aad msg ct : Bytes)
      → seal key nonce aad msg ≡ some ct
      → open_sealed key nonce aad ct ≡ some msg
  pub length-seal :
      (key nonce aad msg ct : Bytes)
      → seal key nonce aad msg ≡ some ct
      → length ct ≡ length msg + 16

abbrev pub nonce_len : ℕ
nonce_len = 24

abbrev pub crypto : String → SoalError
crypto m = SoalError.crypto (Message.text m)

-- `x.map_err(|e| SoalError::Crypto(e.to_string()))?`
abbrev pub or_crypto : Option Bytes → Result Bytes
or_crypto none = err (crypto "aead::Error")
or_crypto (some b) = ok b

module _ (aead : Aead) where
  unfoldable pub encrypt : Bytes → Bytes → Bytes → Result Bytes
  encrypt plain key nonce = do ct ← or_crypto (aead.seal key nonce [] plain); ok (nonce ++ ct)

  unfoldable pub decrypt : Bytes → Bytes → Result Bytes
  decrypt ciphertext key = do
    reject (ltb (length ciphertext) nonce_len) (crypto "ciphertext too short")
    or_crypto (aead.open_sealed key (take nonce_len ciphertext) [] (drop nonce_len ciphertext))

  unfoldable pub encrypt_deterministic : Blake3 → Bytes → Bytes → Result Bytes
  encrypt_deterministic blake3 plain key =
      let nonce = take nonce_len (blake3.hash plain) in
      do ct ← or_crypto (aead.seal key nonce [] plain); ok (nonce ++ ct)

  unfoldable pub decrypt_chunk : Bytes → Bytes → Result Bytes
  decrypt_chunk stored key = decrypt stored key

  unfoldable pub wrap_key : Bytes → Bytes → Bytes → Bytes → Result Bytes
  wrap_key vault_key key aad nonce = do
    ct ← or_crypto (aead.seal key nonce aad vault_key)
    ok (nonce ++ ct)

  unfoldable pub unwrap_key : Bytes → Bytes → Bytes → Result Bytes
  unwrap_key sealed key aad = do
    reject (ltb (length sealed) (nonce_len + 16)) (crypto "wrapped key too short")
    plain ← or_crypto (aead.open_sealed key (take nonce_len sealed) aad (drop nonce_len sealed))
    reject (not (length plain == 32)) (crypto "unwrapped key wrong length")
    ok plain

unfoldable pub key_of : Option Bytes → Result Bytes
key_of none = err SoalError.invalid_hash
key_of (some bytes) = do
  reject (not (length bytes == 32)) (SoalError.other (Message.text "invalid key length"))
  ok bytes

unfoldable pub key_from_hex : HexCrate → Bytes → Result Bytes
key_from_hex hex s = key_of (hex.decode (trim s))
