-- ===== src/Crypto/Seal.antt =====
-- Sealing and opening in src/crypto.rs.
use soal.Base.{
  ok_injective, ◌≡◌, refl, ap, subst, false, Bytes, [], ◌++◌, take-append-drop, length-drop, ltb,
  le→ltb_false, length, take, drop, length-append, take-length_append, drop-length_append, Option,
  none, some, ok, arith, >>=-ok,
}
use soal.Content.{Blake3}
use soal.Crypto.{
  Aead, or_crypto, wrap_key, unwrap_key, nonce_len, encrypt_deterministic, decrypt, decrypt_chunk,
}

or_crypto-inv : (o : Option Bytes) (b : Bytes) → or_crypto o ≡ ok b → o ≡ some b
or_crypto-inv none b e = absurd cc
or_crypto-inv (some x) b e = cc

take-nonce : (nonce ct : Bytes) → length nonce ≡ nonce_len → take nonce_len (nonce ++ ct) ≡ nonce
take-nonce nonce ct n = subst (λ m. take m (nonce ++ ct) ≡ nonce) n (take-length_append nonce ct)

drop-nonce : (nonce ct : Bytes) → length nonce ≡ nonce_len → drop nonce_len (nonce ++ ct) ≡ ct
drop-nonce nonce ct n = subst (λ m. drop m (nonce ++ ct) ≡ ct) n (drop-length_append nonce ct)

module _ (aead : Aead) where
  opens :
      (vault_key key aad nonce ct : Bytes)
      → length vault_key ≡ 32
      → length nonce ≡ nonce_len
      → aead.seal key nonce aad vault_key ≡ some ct
      → unwrap_key aead (nonce ++ ct) key aad ≡ ok vault_key
  unfolding unwrap_key
  opens vault_key key aad nonce ct k n s =
      let long : ltb (length (nonce ++ ct)) 40 ≡ false = le→ltb_false (length (nonce ++ ct)) 40 (
        omega
          (arith, length-append nonce ct, n, k, aead.length-seal key nonce aad vault_key ct s)) in
      rw
        (
          long,
          take-nonce nonce ct n,
          drop-nonce nonce ct n,
          aead.open-seal key nonce aad vault_key ct s,
          k,
        )
        refl

  -- A vault key of 32 bytes that wrap_key seals with a nonce of 24 bytes is what unwrap_key returns
  -- under the same key and additional data.
  pub unwrap_key-wrap_key :
      (vault_key key aad nonce sealed : Bytes)
      → length vault_key ≡ 32
      → length nonce ≡ nonce_len
      → wrap_key aead vault_key key aad nonce ≡ ok sealed
      → unwrap_key aead sealed key aad ≡ ok vault_key
  unfolding wrap_key
  unwrap_key-wrap_key vault_key key aad nonce sealed k n e =
      let (ct, s, f) = >>=-ok (or_crypto (aead.seal key nonce aad vault_key)) _ e in
      subst (λ b. unwrap_key aead b key aad ≡ ok vault_key) (ok_injective f)
        (opens vault_key key aad nonce ct k n (or_crypto-inv _ ct s))

  decrypts :
      (plain key nonce ct : Bytes)
      → length nonce ≡ nonce_len
      → aead.seal key nonce [] plain ≡ some ct
      → decrypt_chunk aead (nonce ++ ct) key ≡ ok plain
  unfolding decrypt_chunk decrypt
  decrypts plain key nonce ct n s =
      let long : ltb (length (nonce ++ ct)) 24 ≡ false =
        le→ltb_false (length (nonce ++ ct)) 24 (omega (arith, length-append nonce ct, n)) in
      rw
        (long, take-nonce nonce ct n, drop-nonce nonce ct n, aead.open-seal key nonce [] plain ct s)
        refl

  nonce_of_hash : (h : Bytes) → length h ≡ 32 → length (take nonce_len h) ≡ nonce_len
  nonce_of_hash h n = omega (
    arith,
    n,
    ap length (take-append-drop 24 h),
    length-append (take 24 h) (drop 24 h),
    length-drop 24 h,
  )

  -- A chunk that encrypt_deterministic encrypts under a key is what decrypt_chunk returns for the
  -- stored bytes under that key.
  pub decrypt_chunk-encrypt_deterministic :
      (blake3 : Blake3) (plain key stored : Bytes)
      → encrypt_deterministic aead blake3 plain key ≡ ok stored
      → decrypt_chunk aead stored key ≡ ok plain
  unfolding encrypt_deterministic
  decrypt_chunk-encrypt_deterministic blake3 plain key stored e =
      let nonce : Bytes = take nonce_len (blake3.hash plain) in
      let (ct, s, f) = >>=-ok (or_crypto (aead.seal key nonce [] plain)) _ e in
      subst (λ b. decrypt_chunk aead b key ≡ ok plain) (ok_injective f)
        (decrypts plain key nonce ct
          (nonce_of_hash (blake3.hash plain) ((blake3.hash-IsArray plain).size))
          (or_crypto-inv _ ct s))
