-- ===== src/Store/Sound.antt =====
-- The chunk store of src/store.rs: names of files, what they hold, and `get`.
use soal.Base.{
  ◌≡◌, ◌≢◌, refl, sym, ap, ◌∙◌, subst, true, not, Bytes, [], ◌++◌, take, length, length-append,
  take-length_append, none, some, Result, ok, err, panic, arith, reject, SoalError, Bool-cases, inl,
  inr,
}
use soal.Content.{ContentHash, Blake3, IsArray, bytes_eq, bytes_eq_iff, bytes_eq_refl, codes}
use soal.Content.Hex.{HexCrate, to_hex}
use soal.Map.{lookup, insert, remove, lookup-insert}
use soal.Disk.{quiet, Disk, Io, exists, pure, lift}
use soal.Disk.Triples.{Files, After, Triple, >>=-Triple, lift-Triple, pure-Triple, read_file-Triple}
use soal.Store.{path_for, tmp_for, put_verified, get, get_existing, chunk_suffix}
use soal.Disk.Replace.{lookup-insert_same}
use soal.Store.Put.{Elsewhere, PutDone, put_verified-PutDone}

module _ (hex : HexCrate) (blake3 : Blake3) where
  -- What is under the path of a hash has that hash.
  abbrev pub IsSound : Files → Type 0
  IsSound m =
      (h : ContentHash) (bytes : Bytes)
      → IsArray 32 h
      → lookup (path_for hex blake3 h) m ≡ some bytes
      → blake3.hash bytes ≡ h

  length-path_for : (h : ContentHash) → IsArray 32 h → length (path_for hex blake3 h) ≡ 70
  unfolding path_for to_hex
  length-path_for h a =
      omega (arith, length-append (hex.encode h) chunk_suffix, hex.length-encode h, a.size)

  length-tmp_for : (h : ContentHash) → IsArray 32 h → length (tmp_for hex blake3 h) ≡ 74
  unfolding tmp_for to_hex
  length-tmp_for h a =
      omega (arith, length-append (hex.encode h) (codes ".chunk.tmp"), hex.length-encode h, a.size)

  path-tmp :
      (h k : ContentHash)
      → IsArray 32 h
      → IsArray 32 k
      → path_for hex blake3 h ≢ tmp_for hex blake3 k
  path-tmp h k a b e = absurd (omega (arith, ap length e, length-path_for h a, length-tmp_for k b))

  digits_of_path : (h : ContentHash) → IsArray 32 h → take 64 (path_for hex blake3 h) ≡ hex.encode h
  unfolding path_for to_hex
  digits_of_path h a =
      let n : length (hex.encode h) ≡ 64 = omega (arith, hex.length-encode h, a.size) in
      subst (λ n. take n (hex.encode h ++ chunk_suffix) ≡ hex.encode h) n
        (take-length_append (hex.encode h) chunk_suffix)

  pub path_for_injective :
      (h k : ContentHash)
      → IsArray 32 h
      → IsArray 32 k
      → path_for hex blake3 h ≡ path_for hex blake3 k
      → h ≡ k
  path_for_injective h k a b e =
      let digits : hex.encode h ≡ hex.encode k =
        sym (digits_of_path h a) ∙ ap (take 64) e ∙ digits_of_path k b in
      cc (hex.decode-encode h a.bytes, hex.decode-encode k b.bytes, digits)

  After-elim {ℓ} :
      {A : Type ℓ} {C : Type 0} (Q : A → Files → Type 0) (E : Files → Type 0) (r : Result A × Disk)
      → After Q E r
      → ((a : A) → Q a r.1.files → C)
      → (E r.1.files → C)
      → C
  unfolding After
  After-elim Q E (ok a, d) h f g = f a h
  After-elim Q E (err e, d) h f g = g h
  After-elim Q E (panic, d) h f g = g h

  -- If each file named after a 32-byte hash holds data of that hash, this still holds after
  -- put_verified with a 32-byte hash, whichever calls of the file system fail.
  pub put_verified-IsSound :
      (hash : ContentHash) (bytes : Bytes) (d : Disk)
      → IsArray 32 hash
      → IsSound d.files
      → IsSound (put_verified hex blake3 hash bytes d).1.files
  put_verified-IsSound hash bytes d a sound h found b e =
      After-elim (PutDone hex blake3 hash bytes d) (Elsewhere (tmp_for hex blake3 hash) d.files)
        (put_verified hex blake3 hash bytes d) (put_verified-PutDone hex blake3 hash bytes d)
        (λ _ (p, _, s).
          elim (Bool-cases (bytes_eq (path_for hex blake3 h) (path_for hex blake3 hash))) [
            | inl q ↦
                let same : h ≡ hash = path_for_injective h hash b a ((bytes_eq_iff _ _).0 q) in
                cc (e, s.there, p, same)
            | inr q ↦ sound h found b (
                sym (
                  s.others (path_for hex blake3 h)
                    (λ u. absurd (
                      cc
                        (q, (bytes_eq_iff (path_for hex blake3 h) (path_for hex blake3 hash)).1 u)))
                    (path-tmp h hash b a))
                ∙ e)
          ])
        (λ s. sound h found b (sym (s (path_for hex blake3 h) (path-tmp h hash b a)) ∙ e))

  get_existing-Triple :
      (hash : ContentHash) (old : Files)
      → Triple
          (λ m. m ≡ old)
          (get_existing hex blake3 hash)
          (λ bytes m.
            (blake3.hash bytes ≡ hash)
            × (lookup (path_for hex blake3 hash) old ≡ some bytes)
            × (m ≡ old))
          (λ m. m ≡ old)
  unfolding get_existing
  get_existing-Triple hash old =
      >>=-Triple (λ bytes m. (m ≡ old) × (lookup (path_for hex blake3 hash) m ≡ some bytes))
        (read_file-Triple (path_for hex blake3 hash) (λ m e. e))
        (λ bytes.
          >>=-Triple
            (λ _ m.
              (blake3.hash bytes ≡ hash)
              × (lookup (path_for hex blake3 hash) old ≡ some bytes)
              × (m ≡ old))
            (lift-Triple _ (λ m (e, _). e)
              (λ a m e (u, f).
                (same bytes _ e, ap (lookup (path_for hex blake3 hash)) (sym u) ∙ f, u)))
            (λ _. pure-Triple bytes (λ m h. h)))
    where
      same :
          (found : Bytes) (e : SoalError)
          → reject (not (bytes_eq (blake3.hash found) hash)) e ≡ ok tt
          → blake3.hash found ≡ hash
      same found e p = ground (arith, bytes_eq_iff (blake3.hash found) hash)

  -- For any sequence of failing calls: where get returns data, the data has the hash asked for and
  -- is the content of the file of that hash, and no file is changed whether get returns or fails.
  pub get-After :
      (hash : ContentHash) (d : Disk)
      → After
          (λ bytes m.
            (blake3.hash bytes ≡ hash)
            × (lookup (path_for hex blake3 hash) d.files ≡ some bytes)
            × (m ≡ d.files))
          (λ m. m ≡ d.files)
          (get hex blake3 hash d)
  unfolding get After
  get-After hash d = elim (Bool-cases (exists (path_for hex blake3 hash) d)) [
    | inl q ↦ rw q ((get_existing-Triple hash d.files).run d refl)
    | inr q ↦ rw q refl
  ]

  get-quiet :
      (hash : ContentHash) (bytes : Bytes) (m : Files)
      → blake3.hash bytes ≡ hash
      → lookup (path_for hex blake3 hash) m ≡ some bytes
      → get hex blake3 hash (quiet m) ≡ (ok bytes, quiet m)
  unfolding get get_existing soal.Disk.◌>>=◌ soal.Disk.bind_at soal.Disk.read_file soal.Disk.call
      soal.Disk.contents exists soal.Disk.attempt pure lift lookup
  get-quiet hash bytes m p e = rw (e, p, bytes_eq_refl hash)

  abbrev after_put : ContentHash → Bytes → Files → Files
  after_put hash bytes m = insert (path_for hex blake3 hash) bytes (
      remove (tmp_for hex blake3 hash)
        (insert (tmp_for hex blake3 hash) bytes (insert (tmp_for hex blake3 hash) [] m)))

  put-quiet :
      (hash : ContentHash) (bytes : Bytes) (m : Files)
      → blake3.hash bytes ≡ hash
      → lookup (path_for hex blake3 hash) m ≡ none
      → put_verified hex blake3 hash bytes (quiet m) ≡ (ok true, quiet (after_put hash bytes m))
  unfolding put_verified soal.Store.put_new soal.Store.put_again soal.Disk.◌>>=◌ soal.Disk.bind_at
      soal.Disk.create soal.Disk.write_all soal.Disk.sync_all soal.Disk.call soal.Disk.rename
      soal.Disk.move_to soal.Disk.contents exists soal.Disk.attempt pure lift lookup insert
  put-quiet hash bytes m p e =
      let tmp = tmp_for hex blake3 hash in
      simp
        (p, bytes_eq_refl hash, e, lookup-insert tmp tmp bytes (insert tmp [] m), bytes_eq_refl tmp)
        refl

  -- With no failing call, data put under its own hash where the store has no file of that hash is
  -- reported as new, and a get of the hash then returns the data and changes nothing.
  pub get-put_verified :
      (hash : ContentHash) (bytes : Bytes) (m : Files)
      → blake3.hash bytes ≡ hash
      → lookup (path_for hex blake3 hash) m ≡ none
      → (n : Files) × (put_verified hex blake3 hash bytes (quiet m) ≡ (ok true, quiet n))
        × (get hex blake3 hash (quiet n) ≡ (ok bytes, quiet n))
  get-put_verified hash bytes m p e = (
    after_put hash bytes m,
    put-quiet hash bytes m p e,
    get-quiet hash bytes (after_put hash bytes m) p
        (lookup-insert_same (path_for hex blake3 hash) bytes _),
  )
