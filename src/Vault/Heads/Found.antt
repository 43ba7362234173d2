-- ===== src/Vault/Heads/Found.antt =====
-- src/vault.rs, `head` after `set_head_public`.
use soal.Base.{
  ℕ, ◌≡◌, ◌≢◌, length, refl, sym, ◌∙◌, ap, subst, true, Bytes, ltb, some, ok, Result, arith,
}
use soal.Content.{ContentHash, IsArray}
use soal.Content.Hex.{to_hex, from_hex-to_hex, trim_id, is_ascii_hexdigit}
use soal.Codec.Utf8.{is_utf8-ascii}
use soal.Disk.{Disk, Io, quiet, write_file}
use soal.Disk.Triples.{Files, After, After-files}
use soal.Disk.Quiet.{>>=-eq-ok}
use soal.Disk.Local.{Agrees}
use soal.Vault.Objects.{load_commit}
use soal.Vault.Heads.Apart.{record_head-Spares}
use soal.Disk.Written.{Written, Elsewhere, write_file-Written}
use soal.Map.{lookup}
use soal.Vault.{Crates}
use soal.Vault.Heads.{
  head_file, heads_file, head, read_head, read_to_string, set_head, record_head, set_head_public,
}

digits_are_ascii : (b : ℕ) → is_ascii_hexdigit b ≡ true → ltb b 0x80 ≡ true
unfolding is_ascii_hexdigit
digits_are_ascii b h = ground (arith, h)

module _ (crates : Crates) (h : ContentHash) (a : IsArray 32 h) where
  open crates use {hex}

  -- Where the file `HEAD` holds the digits of a hash, `head` returns the hash.
  pub head_of_digits :
      (m : Files)
      → lookup head_file m ≡ some (to_hex hex h)
      → head crates (quiet m) ≡ (ok (some h), quiet m)
  unfolding head read_head read_to_string to_hex soal.Disk.exists soal.Disk.read_file
      soal.Disk.contents soal.Disk.call soal.Disk.attempt soal.Disk.lift soal.Disk.pure
      soal.Disk.◌>>=◌ soal.Disk.bind_at lookup
  head_of_digits m e =
      rw
        (
          e,
          is_utf8-ascii is_ascii_hexdigit digits_are_ascii (hex.encode h) (hex.encode_digits h),
          trim_id (hex.encode h) (hex.encode_digits h),
          from_hex-to_hex hex h a,
        )
        refl

  not_head : (n : Bytes) → n ≡ head_file → heads_file ≢ n
  not_head n e f = omega (arith, ap length e, ap length f)

  -- For any sequence of failing calls: after a set_head_public of a hash of 32 bytes that returns,
  -- head returns that hash where no call fails.
  pub head-set_head_public :
      (d d' : Disk)
      → set_head_public crates h d ≡ (ok tt, d')
      → head crates (quiet d'.files) ≡ (ok (some h), quiet d'.files)
  unfolding set_head_public set_head After
  head-set_head_public d d' e =
      let (c, d1, _, q) = >>=-eq-ok (load_commit crates h) _ e in
      let (_, d2, p2, q2) = >>=-eq-ok (write_file head_file (to_hex hex h)) _ q in
      let written : lookup head_file d2.files ≡ some (to_hex hex h) =
        there d1.files d2 (write_file head_file (to_hex hex h) d1) p2
          ((write_file-Written head_file (to_hex hex h) d1.files).run d1 refl) in
      let kept : Agrees (λ n. n ≡ head_file) d2.files d'.files =
        subst (λ (r : Result (Unit {0}) × Disk). Agrees (λ n. n ≡ head_file) d2.files r.1.files) q2
          (After-files (Agrees (λ n. n ≡ head_file) d2.files) (record_head crates h d2) (
            (record_head-Spares crates (λ n. n ≡ head_file) d2.files not_head h).run d2
              (λ n p. refl))) in
      head_of_digits d'.files (sym (kept head_file refl) ∙ written)
    where
      there :
          (old : Files) (d2 : Disk) (r : Result (Unit {0}) × Disk)
          → r ≡ (ok tt, d2)
          → After (λ _ m. Written head_file (to_hex hex h) old m) (Elsewhere head_file old) r
          → lookup head_file d2.files ≡ some (to_hex hex h)
      there old d2 r e p =
          let w : Written head_file (to_hex hex h) old d2.files =
            subst (After (λ _ m. Written head_file (to_hex hex h) old m) (Elsewhere head_file old))
              e p in
          w.there
