-- ===== src/Sync/Failover.antt =====
-- src/network.rs, `get_blob_with_failover`: whom the bytes come from, and when they come.
use soal.Base.{
  ◌≡◌, ◌≢◌, ◌≤◌, refl, ◌↔◌, inl, inr, not, Bool-cases, Bytes, List, [], ◌∷◌, ltb, length, Result,
  ok, err, panic, reject, arith, SoalError, ◌>>=◌, ◌>>◌, ok_injective, subst,
}
use soal.Content.{ContentHash, Blake3, bytes_eq, bytes_eq_iff}
use soal.Codec.Fields.{verify}
use soal.Codec.Frame.{cid_of}
use soal.Sync.Fetch.{max_blob_bytes, get_chunk_from_peer, or_next, get_blob_with_failover}

module _ (blake3 : Blake3) (answer : Bytes → ContentHash → Result Bytes) where
  -- The peer answers with bytes of the hash that are not too long.
  pub record Serves (peer : Bytes) (hash : ContentHash) (bytes : Bytes) : Type 0 where
    pub answers : answer peer hash ≡ ok bytes
    pub size : length bytes ≤ max_blob_bytes
    pub content : cid_of blake3 bytes ≡ hash

  -- The peer that is the first to serve the hash among the peers, with its bytes. No answer of a
  -- peer before it aborts.
  pub data FirstToServe (hash : ContentHash) (peer bytes : Bytes) : List Bytes → Type 0 where
    here :
        {peers : List Bytes} → Serves peer hash bytes → FirstToServe hash peer bytes (peer ∷ peers)
    later :
        {p : Bytes} {peers : List Bytes}
        → answer p hash ≢ panic
        → ((other : Bytes) → ¬ Serves p hash other)
        → FirstToServe hash peer bytes peers
        → FirstToServe hash peer bytes (p ∷ peers)

  get_chunk_from_peer_iff :
      (peer : Bytes) (hash : ContentHash) (bytes : Bytes)
      → (get_chunk_from_peer blake3 answer peer hash ≡ ok bytes) ↔ Serves peer hash bytes
  unfolding get_chunk_from_peer
  get_chunk_from_peer_iff peer hash bytes = (
    λ e. go (answer peer hash) refl e,
    λ s. ground (arith, s.answers, s.size, s.content, bytes_eq_iff (cid_of blake3 bytes) hash),
  )
    where
      checked :
          (b : Bytes)
          → (reject (ltb max_blob_bytes (length b)) (verify "fetched blob exceeds MAX_BLOB_BYTES")
              >> (reject
                    (not (bytes_eq (cid_of blake3 b) hash))
                    (SoalError.hash_mismatch hash (cid_of blake3 b))
                  >> ok b))
            ≡ ok bytes
          → (b ≡ bytes) × (length b ≤ max_blob_bytes) × (cid_of blake3 b ≡ hash)
      checked b e = elim (Bool-cases (ltb max_blob_bytes (length b))) [
        | inl big ↦ absurd (cc (rw big at e))
        | inr small ↦ elim (Bool-cases (bytes_eq (cid_of blake3 b) hash)) [
          | inr wrong ↦ absurd (cc (rw (small, wrong) at e))
          | inl q ↦ (
            ok_injective (rw (small, q) at e),
            ground (arith, small),
            (bytes_eq_iff (cid_of blake3 b) hash).0 q,
          )
        ]
      ]

      go :
          (r : Result Bytes)
          → answer peer hash ≡ r
          → (r >>= λ b.
              reject (ltb max_blob_bytes (length b)) (verify "fetched blob exceeds MAX_BLOB_BYTES")
              >> (reject
                    (not (bytes_eq (cid_of blake3 b) hash))
                    (SoalError.hash_mismatch hash (cid_of blake3 b))
                  >> ok b))
            ≡ ok bytes
          → Serves peer hash bytes
      go (ok b) q e =
          let (same, small, content) = checked b e in
          subst (Serves peer hash) same (record { answers = q; size = small; content = content })
      go (err f) q e = absurd cc
      go panic q e = absurd cc

  get_chunk_from_peer-panic :
      (peer : Bytes) (hash : ContentHash)
      → (get_chunk_from_peer blake3 answer peer hash ≡ panic) ↔ (answer peer hash ≡ panic)
  unfolding get_chunk_from_peer
  get_chunk_from_peer-panic peer hash = (λ e. ground (arith, e), λ e. rw e refl)

  failover-step :
      (p : Bytes) (peers : List Bytes) (hash : ContentHash) (peer bytes : Bytes)
      (rest : Result (Bytes × Bytes))
      → (rest ≡ ok (peer, bytes)) ↔ FirstToServe hash peer bytes peers
      → (or_next blake3 answer p (get_chunk_from_peer blake3 answer p hash) rest ≡ ok (peer, bytes))
        ↔ FirstToServe hash peer bytes (p ∷ peers)
  failover-step p peers hash peer bytes rest ih =
      (found (get_chunk_from_peer blake3 answer p hash) refl, λ f. finds p peers ih f)
    where
      first :
          (p b peer bytes : Bytes)
          → ◌≡◌ {A = Bytes × Bytes} (p, b) (peer, bytes)
          → Serves p hash b
          → FirstToServe hash peer bytes (p ∷ peers)
      first p b peer bytes pair s =
          subst (λ (x : Bytes × Bytes). FirstToServe hash x.0 x.1 (p ∷ peers)) pair
            (FirstToServe.here s)

      found :
          (r : Result Bytes)
          → get_chunk_from_peer blake3 answer p hash ≡ r
          → or_next blake3 answer p r rest ≡ ok (peer, bytes)
          → FirstToServe hash peer bytes (p ∷ peers)
      found (ok b) q e =
          let pair : ◌≡◌ {A = Bytes × Bytes} (p, b) (peer, bytes) =
            ok_injective (unfold or_next in e) in
          first p b peer bytes pair ((get_chunk_from_peer_iff p hash b).0 q)
      found (err f) q e =
          FirstToServe.later (λ a. cc (q, (get_chunk_from_peer-panic p hash).1 a))
            (λ other s. cc (q, (get_chunk_from_peer_iff p hash other).1 s))
            (ih.0 (unfold or_next in e))
      found panic q e = absurd (unfold or_next in cc)

      finds :
          (p : Bytes) (peers : List Bytes)
          → (rest ≡ ok (peer, bytes)) ↔ FirstToServe hash peer bytes peers
          → FirstToServe hash peer bytes (p ∷ peers)
          → or_next blake3 answer p (get_chunk_from_peer blake3 answer p hash) rest
            ≡ ok (peer, bytes)
      finds p peers ih (here s) =
          unfold or_next in rw ((get_chunk_from_peer_iff p hash bytes).1 s) refl
      finds p peers ih (later calm dry f) = passes (get_chunk_from_peer blake3 answer p hash) refl
        where
          passes :
              (r : Result Bytes)
              → get_chunk_from_peer blake3 answer p hash ≡ r
              → or_next blake3 answer p r rest ≡ ok (peer, bytes)
          passes (ok b) q = absurd (dry b ((get_chunk_from_peer_iff p hash b).0 q))
          passes (err e) q = unfold or_next in ih.1 f
          passes panic q = absurd (calm ((get_chunk_from_peer-panic p hash).0 q))

  -- get_blob_with_failover returns a peer and bytes exactly if, among the peers in their order,
  -- that peer is the first whose answer for the hash is bytes of that hash, of at most 16 MiB,
  -- which are the bytes returned, and no answer of a peer before it aborts.
  pub get_blob_with_failover_iff :
      (peers : List Bytes) (hash : ContentHash) (peer bytes : Bytes)
      → (get_blob_with_failover blake3 answer peers hash ≡ ok (peer, bytes))
        ↔ FirstToServe hash peer bytes peers
  unfolding get_blob_with_failover
  get_blob_with_failover_iff [] hash peer bytes = (λ e. absurd cc, λ f. elim f [ ])
  get_blob_with_failover_iff (p ∷ peers) hash peer bytes =
      failover-step p peers hash peer bytes _ (get_blob_with_failover_iff peers hash peer bytes)
