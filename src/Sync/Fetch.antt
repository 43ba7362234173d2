-- ===== src/Sync/Fetch.antt =====
-- src/network.rs, `get_chunk_from_peer` and `get_blob_with_failover`: a blob from one of several
-- peers. `answer` is what the transport brings from a peer for a hash.
use soal.Base.{
  ℕ, ◌*◌, not, Bytes, List, [], ◌∷◌, ltb, length, Result, ok, err, panic, SoalError, Message,
  reject, ◌>>=◌, ◌>>◌,
}
use soal.Content.{ContentHash, Blake3, bytes_eq}
use soal.Codec.Fields.{verify}
use soal.Codec.Frame.{cid_of}

abbrev pub max_blob_bytes : ℕ
max_blob_bytes = 16 * 1024 * 1024

module _ (blake3 : Blake3) (answer : Bytes → ContentHash → Result Bytes) where
  unfoldable pub get_chunk_from_peer : Bytes → ContentHash → Result Bytes
  get_chunk_from_peer peer hash = do
    bytes ← answer peer hash
    reject (ltb max_blob_bytes (length bytes)) (verify "fetched blob exceeds MAX_BLOB_BYTES")
    reject (not (bytes_eq (cid_of blake3 bytes) hash))
        (SoalError.hash_mismatch hash (cid_of blake3 bytes))
    ok bytes

  -- One peer's answer, or what the peers behind it give.
  unfoldable pub or_next : Bytes → Result Bytes → Result (Bytes × Bytes) → Result (Bytes × Bytes)
  or_next peer (ok bytes) rest = ok (peer, bytes)
  or_next peer (err e) rest = rest
  or_next peer panic rest = panic

  -- The message of the last error is left out.
  unfoldable pub get_blob_with_failover : List Bytes → ContentHash → Result (Bytes × Bytes)
  get_blob_with_failover [] hash = err (SoalError.other (Message.about "unavailable" hash))
  get_blob_with_failover (peer ∷ peers) hash =
      let rest = get_blob_with_failover peers hash in
      or_next peer (get_chunk_from_peer peer hash) rest
