-- ===== src/Replication/Under.antt =====
-- src/replication.rs, `under_replicated_chunks` and `replication_status`: which live chunks have too
-- few replicas, and how many.
use soal.Base.{
  ℕ, ◌+◌, ◌≡◌, refl, sym, ap, ◌∙◌, true, not, ◌&&◌, Bytes, List, [], ◌∷◌, ◌++◌, length, ltb, some,
  ok, arith, if◌then◌else◌, append_assoc, append-nil, Bool-cases, inl, inr,
}
use soal.Content.{ContentHash, bytes_eq, bytes_eq_iff}
use soal.Content.Hex.{to_hex}
use soal.Map.{lookup}
use soal.Set.{Hashes, contains, elements, is_listed}
use soal.Disk.{◌>>=◌, bind_at, pure, quiet}
use soal.Disk.Triples.{Files}
use soal.Policy.Registry.{Json}
use soal.Vault.{Crates, Vault}
use soal.Vault.Live.{live_chunk_hashes}
use soal.Vault.Transfer.{has_chunk}
use soal.Replication.{
  PinSet, PeerHave, load_pins, load_have, estimated_replicas, local_replicas, count_peers,
  under_min, under_of, under_replicated_chunks, Tally, tally, status_of, replication_status,
  ReplicationStatus,
}
use soal.Replication.Noted.{estimate-quiet}

-- The members of a set are its elements.
is_listed-elements : (h : Bytes) (s : Hashes) → is_listed h (elements s) ≡ contains h s
unfolding is_listed elements contains lookup
is_listed-elements h [] = refl
is_listed-elements h ((k, u) ∷ s) = ground (arith, is_listed-elements h s)

module _ (crates : Crates) (have_json : Json PeerHave) (have : PeerHave) (m : Files)
    (loaded : load_have have_json (quiet m) ≡ (ok have, quiet m)) where
  open crates use {hex}

  abbrev replicas : ContentHash → ℕ
  replicas h = count_peers (to_hex hex h) have.peers 0 + local_replicas crates have_json h (quiet m)

  -- The hashes that have fewer replicas than `min`, in their order.
  few : ℕ → List ContentHash → List ContentHash
  few min [] = []
  few min (h ∷ hs) = let rest = few min hs in if ltb (replicas h) min then h ∷ rest else rest

  is_listed-few :
      (min : ℕ) (h : ContentHash) (hs : List ContentHash)
      → is_listed h (few min hs) ≡ (is_listed h hs && ltb (replicas h) min)
  unfolding few is_listed
  is_listed-few min h [] = refl
  is_listed-few min h (k ∷ hs) = ground (arith, is_listed-few min h hs, same)
    where
      same : bytes_eq k h ≡ true → replicas k ≡ replicas h
      same e = ap replicas ((bytes_eq_iff k h).0 e)

  under_min-few :
      (min : ℕ) (hs out : List ContentHash)
      → under_min crates have_json min hs out (quiet m) ≡ (ok (out ++ few min hs), quiet m)
  unfolding under_min few ◌>>=◌ bind_at pure
  under_min-few min [] out = ap (λ l. (ok l, quiet m)) (sym (append-nil out))
  under_min-few min (h ∷ hs) out =
      rw (estimate-quiet crates have_json have m h loaded)
        (elim (Bool-cases (ltb (replicas h) min)) [
          | inl p ↦ rw p (
              under_min-few min hs (out ++ h ∷ [])
              ∙ ap (λ l. (ok l, quiet m)) (append_assoc out (h ∷ []) (few min hs)))
          | inr p ↦ rw p (under_min-few min hs out)
        ])

  tally-few :
      (min : ℕ) (hs : List ContentHash) (t : Tally)
      → (s : Tally) × (tally crates have_json min hs t (quiet m) ≡ (ok s, quiet m))
        × (s.under ≡ t.under + length (few min hs))
  unfolding tally few ◌>>=◌ bind_at
  tally-few min [] t = (t, refl, omega arith)
  tally-few min (h ∷ hs) t =
      let t' : Tally = record {
        missing = if not (has_chunk crates h (quiet m)) then t.missing + 1 else t.missing;
        under = if ltb (replicas h) min then t.under + 1 else t.under;
      } in
      let (s, e, f) = tally-few min hs t' in
      (s, rw (estimate-quiet crates have_json have m h loaded) e, ground (arith, f))

  module _ (fuel : ℕ) (vault : Vault) (live : Hashes)
      (walked : live_chunk_hashes crates fuel (quiet m) ≡ (ok (some live), quiet m)) where
    abbrev min : ℕ
    min = vault.config.min_replicas

    under-quiet :
        under_replicated_chunks crates have_json fuel vault (quiet m)
        ≡ (ok (some (few min (elements live))), quiet m)
    unfolding under_replicated_chunks under_of ◌>>=◌ bind_at pure
    under-quiet = rw (walked, under_min-few min (elements live) []) refl

    -- What both functions say, and the estimate of one hash.
    abbrev pub Agree : Json PinSet → ContentHash → Type 0
    Agree pins_json h =
        (out : List ContentHash) × (status : ReplicationStatus) × (k : ℕ) × (under_replicated_chunks
            crates have_json fuel vault (quiet m)
          ≡ (ok (some out), quiet m))
        × (replication_status crates pins_json have_json fuel vault (quiet m)
            ≡ (ok (some status), quiet m))
        × (estimated_replicas crates have_json h (quiet m) ≡ (ok k, quiet m))
        × (is_listed h out ≡ (contains h live && ltb k vault.config.min_replicas))
        × (status.estimated_under_replicated ≡ length out)

    -- With no failing call, where the record of peers and the pins load and the walk over the
    -- history returns: under_replicated_chunks lists a hash exactly if it is live and its estimated
    -- replicas are below min_replicas, and replication_status counts as many under-replicated
    -- chunks as the list has.
    pub under_replicated_chunks_iff :
        (pins_json : Json PinSet) (pins : PinSet)
        → load_pins pins_json (quiet m) ≡ (ok pins, quiet m)
        → (h : ContentHash) → Agree pins_json h
    unfolding replication_status status_of ◌>>=◌ bind_at pure
    under_replicated_chunks_iff pins_json pins e h =
        let (s, f, g) = tally-few min (elements live) (record { missing = 0; under = 0 }) in
        (
          few min (elements live),
          record {
            min_replicas = min;
            live_chunks = length live;
            pinned_chunks = length pins.pins;
            missing_local = s.missing;
            estimated_under_replicated = s.under;
            peers_known = length have.peers;
          },
          replicas h,
          under-quiet,
          rw (walked, e, loaded, f) refl,
          estimate-quiet crates have_json have m h loaded,
          is_listed-few min h (elements live)
              ∙ ap (λ b. b && ltb (replicas h) min) (is_listed-elements h live),
          omega (arith, g),
        )
