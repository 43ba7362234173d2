-- ===== src/Network/Replay.antt =====
-- The check of src/network.rs on a second announcement of a node.
use soal.Base.{
  ℕ, ◌≤◌, ◌<◌, ◌^◌, ◌≡◌, ◌≢◌, refl, ap, subst, true, Bytes, length, length-append, leb, Option,
  some, Result, ok, err, panic, arith,
}
use soal.Content.{codes}
use soal.Content.Hex.{HexCrate}
use soal.Codec.HeadWire.{HeadAnnouncement}
use soal.Map.{lookup}
use soal.Disk.{Disk, quiet, Io, ◌>>=◌, bind_at, lift, call, contents, read_file, replace, attempt}
use soal.Disk.Triples.{Files, After, After-weaken, Triple, >>=-Triple, lift-Triple, call-Triple}
use soal.Disk.Replace.{replace-Triple}
use soal.Identity.{Keys}
use soal.Network.{
  u64_to_string, last_recv_seq_path, tmp_path, seq_or_zero, recovered, load_last_recv_seq,
  store_last_recv_seq, AnnouncedVault, check_replay, validate_announcement,
}
use soal.Network.Decimal.{parse-u64_to_string}

tmp-path : (v n : Bytes) → tmp_path v n ≢ last_recv_seq_path v n
unfolding tmp_path
tmp-path v n e =
    absurd (omega (arith, ap length e, length-append (last_recv_seq_path v n) (codes ".tmp")))

-- The last sequence number of a node, as its file says it.
unfoldable pub LastSeq : Bytes → Bytes → ℕ → Files → Type 0
LastSeq v n seq m = lookup (last_recv_seq_path v n) m ≡ some (u64_to_string seq)

-- Whatever was there, and whichever calls fail.
Anything : Files → Type 0
Anything m = Unit {0}

store-Triple :
    (v n : Bytes) (seq : ℕ)
    → Triple Anything (store_last_recv_seq v n seq) (λ _ m. LastSeq v n seq m) Anything
unfolding store_last_recv_seq LastSeq Anything
store-Triple v n seq =
    >>=-Triple (λ _ m. Unit {0}) (call-Triple (λ m p. p))
      (λ _. record {
        run = λ d p.
            After-weaken _ _ _
              (replace (tmp_path v n) (last_recv_seq_path v n) (u64_to_string seq) d) (λ m q. tt)
              ((replace-Triple (tmp_path v n) (last_recv_seq_path v n) (u64_to_string seq)
                  (tmp-path v n) (lookup (last_recv_seq_path v n) d.files)).run
                d refl);
      })

load-Triple : (v n : Bytes) → Triple Anything (load_last_recv_seq v n) (λ _ m. Unit {0}) Anything
unfolding load_last_recv_seq Anything After
load-Triple v n = record { run = λ d p. trivial (load_last_recv_seq v n d) }
  where
    trivial : (r : Result ℕ × Disk) → After (λ _ m. Unit {0}) (λ m. Unit {0}) r
    trivial (ok a, d) = tt
    trivial (err e, d) = tt
    trivial (panic, d) = tt

module _ (keys : Keys) (hex : HexCrate) where
  validate-Triple :
      (ann : HeadAnnouncement) (vault : Option AnnouncedVault) (now : ℕ)
      → Triple Anything
          (validate_announcement keys hex ann vault now)
          (λ _ m. LastSeq (hex.encode ann.vault_id) (hex.encode ann.node_id) ann.seq m)
          Anything
  unfolding validate_announcement check_replay Anything
  validate-Triple ann vault now =
      >>=-Triple (λ _ m. Unit {0}) (lift-Triple _ (λ m p. tt) (λ a m e p. tt))
        (λ _.
          >>=-Triple (λ _ m. Unit {0}) (lift-Triple _ (λ m p. tt) (λ a m e p. tt))
            (λ _.
              >>=-Triple (λ _ m. Unit {0}) (lift-Triple _ (λ m p. tt) (λ a m e p. tt))
                (λ _.
                  >>=-Triple (λ _ m. Unit {0}) (load-Triple _ _)
                    (λ last.
                      >>=-Triple (λ _ m. Unit {0}) (lift-Triple _ (λ m p. tt) (λ a m e p. tt))
                        (λ _. store-Triple _ _ ann.seq)))))

read_quiet :
    (path text : Bytes) (m : Files)
    → lookup path m ≡ some text
    → read_file path (quiet m) ≡ (ok text, quiet m)
unfolding read_file ◌>>=◌ bind_at call contents attempt lookup
read_quiet path text m e = rw e refl

load_of_LastSeq :
    (v n : Bytes) (seq : ℕ) (m : Files)
    → seq < 2 ^ 64
    → LastSeq v n seq m
    → load_last_recv_seq v n (quiet m) ≡ (ok seq, quiet m)
unfolding load_last_recv_seq LastSeq recovered seq_or_zero
load_of_LastSeq v n seq m h l =
    rw (read_quiet (last_recv_seq_path v n) (u64_to_string seq) m l, parse-u64_to_string seq h) refl

-- A failing check in front fails the rest.
lift-fails :
    (r : Result (Unit {0})) (f : Unit {0} → Io (Unit {0})) (d : Disk)
    → (f tt d).0 ≢ ok tt
    → ((lift r >>= f) d).0 ≢ ok tt
unfolding ◌>>=◌ bind_at lift
lift-fails (ok tt) f d h = h
lift-fails (err e) f d h = λ p. cc
lift-fails panic f d h = λ p. cc

module _ (keys : Keys) (hex : HexCrate) where
  replay_fails :
      (other : HeadAnnouncement) (seq : ℕ) (m : Files)
      → LastSeq (hex.encode other.vault_id) (hex.encode other.node_id) seq m
      → seq < 2 ^ 64
      → other.seq ≤ seq
      → (check_replay keys hex other (quiet m)).0 ≢ ok tt
  unfolding check_replay ◌>>=◌ bind_at lift
  replay_fails other seq m l h le =
      let old : leb other.seq seq ≡ true = ground (arith, le) in
      rw (load_of_LastSeq _ _ seq m h l, old) (λ p. cc)

  last_of_accepted :
      (ann : HeadAnnouncement) (vault : Option AnnouncedVault) (now : ℕ) (d d' : Disk)
      → validate_announcement keys hex ann vault now d ≡ (ok tt, d')
      → LastSeq (hex.encode ann.vault_id) (hex.encode ann.node_id) ann.seq d'.files
  unfolding Anything After
  last_of_accepted ann vault now d d' e =
      subst
        (After (λ _ m. LastSeq (hex.encode ann.vault_id) (hex.encode ann.node_id) ann.seq m)
          Anything)
        e ((validate-Triple keys hex ann vault now).run d tt)

  -- Once validate_announcement has accepted an announcement, with any calls failing or not, an
  -- announcement of the same vault and node whose sequence number is not greater is not accepted
  -- while the files stay as they are and no call fails, whatever the vault, the time and its other
  -- fields; the sequence number is below 2^64.
  pub validate_announcement-replay :
      (ann other : HeadAnnouncement) (vault vault' : Option AnnouncedVault) (now now' : ℕ)
      (d d' : Disk)
      → validate_announcement keys hex ann vault now d ≡ (ok tt, d')
      → ann.seq < 2 ^ 64
      → other.vault_id ≡ ann.vault_id
      → other.node_id ≡ ann.node_id
      → other.seq ≤ ann.seq
      → (validate_announcement keys hex other vault' now' (quiet d'.files)).0 ≢ ok tt
  unfolding validate_announcement
  validate_announcement-replay ann other vault vault' now now' d d' e h v n le =
      let l : LastSeq (hex.encode other.vault_id) (hex.encode other.node_id) ann.seq d'.files =
        rw (v, n) (last_of_accepted ann vault now d d' e) in
      lift-fails _ _ _
        (lift-fails _ _ _ (lift-fails _ _ _ (replay_fails other ann.seq d'.files l h le)))
