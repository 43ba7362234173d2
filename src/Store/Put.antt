-- ===== src/Store/Put.antt =====
-- What `put_verified` of src/store.rs leaves, whichever calls of the file system fail.
use soal.Base.{
  ◌≡◌, ◌≢◌, refl, sym, ap, ◌∙◌, subst, Bool, true, false, not, Bytes, [], take, length,
  length-append, some, ok, arith, reject, SoalError, Bool-cases, inl, inr,
}
use soal.Content.{ContentHash, Blake3, bytes_eq, bytes_eq_iff, codes}
use soal.Content.Hex.{HexCrate, to_hex}
use soal.Map.{lookup, insert, remove, lookup-insert, lookup-remove}
use soal.Disk.{Disk, exists}
use soal.Disk.Replace.{lookup-insert_same}
use soal.Disk.Triples.{
  Files, After, After-map, Triple, >>=-Triple, lift-Triple, pure-Triple, create-Triple,
  write_all-Triple, sync_all-Triple, read_file-Triple, rename-Triple,
}
use soal.Store.{path_for, tmp_for, put_new, put_again, put_verified, chunk_suffix}

-- Files other than `name` are as they were.
abbrev pub Elsewhere : Bytes → Files → Files → Type 0
Elsewhere name old new = (other : Bytes) → other ≢ name → lookup other new ≡ lookup other old

-- The file `path` holds `bytes`, and the others but `tmp` are as they were.
pub record Stored (path tmp bytes : Bytes) (old new : Files) : Type 0 where
  pub there : lookup path new ≡ some bytes
  pub others : (other : Bytes) → other ≢ path → other ≢ tmp → lookup other new ≡ lookup other old

Elsewhere-insert :
    (name bytes : Bytes) (old m : Files)
    → Elsewhere name old m
    → Elsewhere name old (insert name bytes m)
Elsewhere-insert name bytes old m h other ne =
    grind (arith, lookup-insert name other bytes m, bytes_eq_iff name other, h other ne)

module _ (hex : HexCrate) (blake3 : Blake3) (hash : ContentHash) (bytes : Bytes) (old : Files) where
  pub tmp-path : tmp_for hex blake3 hash ≢ path_for hex blake3 hash
  unfolding tmp_for path_for
  tmp-path e = absurd (
      omega (
        arith,
        ap length e,
        length-append (to_hex hex hash) (codes ".chunk.tmp"),
        length-append (to_hex hex hash) chunk_suffix,
      ))

  moved-Stored :
      (m : Files) (found : Bytes)
      → Elsewhere (tmp_for hex blake3 hash) old m
      → lookup (tmp_for hex blake3 hash) m ≡ some bytes
      → lookup (tmp_for hex blake3 hash) m ≡ some found
      → Stored
          (path_for hex blake3 hash)
          (tmp_for hex blake3 hash)
          bytes
          old
          (insert (path_for hex blake3 hash) found (remove (tmp_for hex blake3 hash) m))
  moved-Stored m found h e f =
      let same : found ≡ bytes = cc in
      record {
        there =
            subst (λ b. lookup path (insert path b (remove tmp m)) ≡ some bytes) (sym same)
              (lookup-insert_same path bytes (remove tmp m));
        others = λ other p t. grind (
          arith,
          lookup-insert path other found (remove tmp m),
          lookup-remove tmp other m,
          bytes_eq_iff path other,
          bytes_eq_iff tmp other,
          h other t,
        );
      }
    where
      path : Bytes
      path = path_for hex blake3 hash

      tmp : Bytes
      tmp = tmp_for hex blake3 hash

  put_new-Triple :
      Triple
        (λ m. Elsewhere (tmp_for hex blake3 hash) old m)
        (put_new hex blake3 hash bytes)
        (λ b m.
          (b ≡ true) × Stored (path_for hex blake3 hash) (tmp_for hex blake3 hash) bytes old m)
        (λ m. Elsewhere (tmp_for hex blake3 hash) old m)
  unfolding put_new
  put_new-Triple =
      >>=-Triple (λ _ m. Elsewhere tmp old m)
        (create-Triple tmp (λ m h. Elsewhere-insert tmp [] old m h) (λ m h. h))
        (λ _.
          >>=-Triple (λ _ m. Elsewhere tmp old m × (lookup tmp m ≡ some bytes))
            (write_all-Triple tmp bytes
              (λ m h. (Elsewhere-insert tmp bytes old m h, lookup-insert_same tmp bytes m))
              (λ m n h. Elsewhere-insert tmp (take n bytes) old m h))
            (λ _.
              >>=-Triple (λ _ m. Elsewhere tmp old m × (lookup tmp m ≡ some bytes))
                (sync_all-Triple (λ m (h, _). h))
                (λ _.
                  >>=-Triple (λ _ m. Stored (path_for hex blake3 hash) tmp bytes old m)
                    (rename-Triple tmp (path_for hex blake3 hash)
                      (λ m found (h, e) f. moved-Stored m found h e f) (λ m (h, _). h))
                    (λ _. pure-Triple true (λ m h. (refl, h))))))
    where
      tmp : Bytes
      tmp = tmp_for hex blake3 hash

  put_again-Triple :
      Triple
        (λ m. m ≡ old)
        (put_again hex blake3 hash bytes)
        (λ b m.
          (b ≡ false) × Stored (path_for hex blake3 hash) (tmp_for hex blake3 hash) bytes old m)
        (λ m. Elsewhere (tmp_for hex blake3 hash) old m)
  unfolding put_again
  put_again-Triple =
      >>=-Triple (λ found m. (m ≡ old) × (lookup path m ≡ some found))
        (read_file-Triple path unchanged)
        (λ found.
          >>=-Triple (λ _ m. Stored path (tmp_for hex blake3 hash) bytes old m)
            (lift-Triple _ (λ m (e, _). unchanged m e)
              (λ a m e (u, f). record {
                there = f ∙ ap some (same found _ e);
                others = λ other _ _. ap (lookup other) u;
              }))
            (λ _. pure-Triple false (λ m h. (refl, h))))
    where
      path : Bytes
      path = path_for hex blake3 hash

      unchanged : (m : Files) → m ≡ old → Elsewhere (tmp_for hex blake3 hash) old m
      unchanged m e other _ = ap (lookup other) e

      same :
          (found : Bytes) (e : SoalError)
          → reject (not (bytes_eq found bytes)) e ≡ ok tt
          → found ≡ bytes
      same found _ e = ground (arith, bytes_eq_iff found bytes)

-- `path` has the content whose hash it names, and `put_verified` says whether it was new.
abbrev pub PutDone : HexCrate → Blake3 → ContentHash → Bytes → Disk → Bool → Files → Type 0
PutDone hex blake3 hash bytes d b new =
    (blake3.hash bytes ≡ hash)
    × (b ≡ not (exists (path_for hex blake3 hash) d))
    × Stored (path_for hex blake3 hash) (tmp_for hex blake3 hash) bytes d.files new

-- For any sequence of failing calls of the file system: where put_verified returns a value, the
-- data has the given hash, the file of that hash holds exactly the data, every file but that one
-- and its temporary file is as before, and the value says whether the file was new; where it fails,
-- every file but the temporary one is as before.
pub put_verified-PutDone :
    (hex : HexCrate) (blake3 : Blake3) (hash : ContentHash) (bytes : Bytes) (d : Disk)
    → After
        (PutDone hex blake3 hash bytes d)
        (Elsewhere (tmp_for hex blake3 hash) d.files)
        (put_verified hex blake3 hash bytes d)
unfolding put_verified After
put_verified-PutDone hex blake3 hash bytes d =
    elim (Bool-cases (bytes_eq (blake3.hash bytes) hash)) [
      | inr p ↦ rw p (λ other _. refl)
      | inl p ↦
          let e : blake3.hash bytes ≡ hash = (bytes_eq_iff (blake3.hash bytes) hash).0 p in
          elim (Bool-cases (exists (path_for hex blake3 hash) d)) [
            | inl q ↦
                rw (p, q)
                  (After-map _ _ _ (put_again hex blake3 hash bytes d)
                    (λ b m (f, s). (e, f ∙ sym (ap not q), s))
                    ((put_again-Triple hex blake3 hash bytes d.files).run d refl))
            | inr q ↦
                rw (p, q)
                  (After-map _ _ _ (put_new hex blake3 hash bytes d)
                    (λ b m (f, s). (e, f ∙ sym (ap not q), s))
                    ((put_new-Triple hex blake3 hash bytes d.files).run d (λ other _. refl)))
          ]
    ]
