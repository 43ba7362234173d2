-- ===== src/Codec/Frame.antt =====
-- src/codec.rs, lines 18 to 80: domain frames and content ids.
use soal.Base.{
  ◌+◌, ◌≡◌, sym, ◌∙◌, ap, subst, not, Bytes, ◌++◌, arith, ltb, length, take, drop, length-append,
  take-length_append, drop-length_append, take-append-drop, replicate, Result, ok, SoalError,
  Message, ◌>>◌, reject,
}
use soal.Content.{ContentHash, Blake3, bytes_eq, bytes_eq_iff, bytes_eq_refl, codes}

abbrev pub Domain : Type 0
Domain = Bytes

abbrev pub domain_tree : Domain
domain_tree = codes "soal/tree/v1" ++ replicate 4 0

abbrev pub domain_commit : Domain
domain_commit = codes "soal/commit/v1" ++ replicate 2 0

abbrev pub domain_config : Domain
domain_config = codes "soal/config/v1" ++ replicate 2 0

abbrev pub domain_head : Domain
domain_head = codes "soal/head/v1" ++ replicate 4 0

abbrev pub domain_invite : Domain
domain_invite = codes "soal/invite/v1" ++ replicate 2 0

unfoldable pub frame : Domain → Bytes → Bytes
frame domain body = domain ++ body

-- `&wire[..16]` and `&wire[16..]` are in range behind the first test.
unfoldable pub unframe : Domain → Bytes → Result Bytes
unframe domain wire = do
  reject (ltb (length wire) 16) (SoalError.verify (Message.text "wire too short for domain frame"))
  reject (not (bytes_eq (take 16 wire) domain)) (SoalError.verify (Message.text "domain mismatch"))
  ok (drop 16 wire)

module _ (blake3 : Blake3) where
  unfoldable pub cid_of : Bytes → ContentHash
  cid_of wire = blake3.hash wire

  unfoldable pub verify_framed : Domain → ContentHash → Bytes → Result Bytes
  unfolding cid_of
  verify_framed domain expected wire =
      let actual = cid_of wire in
      do
        reject (not (bytes_eq actual expected)) (SoalError.hash_mismatch expected actual)
        unframe domain wire

  unfoldable pub frame_cid : Domain → Bytes → ContentHash × Bytes
  unfolding cid_of
  frame_cid domain body = let wire = frame domain body in (cid_of wire, wire)

-- What a frame of a 16-byte domain splits into.
take-frame : (d body : Bytes) → length d ≡ 16 → take 16 (frame d body) ≡ d
unfolding frame
take-frame d body h = subst (λ n. take n (d ++ body) ≡ d) h (take-length_append d body)

drop-frame : (d body : Bytes) → length d ≡ 16 → drop 16 (frame d body) ≡ body
unfolding frame
drop-frame d body h = subst (λ n. drop n (d ++ body) ≡ body) h (drop-length_append d body)

pub length-frame : (d body : Bytes) → length (frame d body) ≡ length d + length body
unfolding frame
length-frame = length-append

pub unframe-frame : (d body : Bytes) → length d ≡ 16 → unframe d (frame d body) ≡ ok body
unfolding unframe
unframe-frame d body h =
    ground (arith, length-frame d body, take-frame d body h, drop-frame d body h, bytes_eq_refl d)

pub unframe_inv : (d wire body : Bytes) → unframe d wire ≡ ok body → wire ≡ frame d body
unfolding unframe frame
unframe_inv d wire body h = ground (arith, bytes_eq_iff (take 16 wire) d, take-append-drop 16 wire)

-- Two frames are the same bytes only if domain and body are the same.
pub frame_injective :
    (d e b c : Bytes) → length d ≡ 16 → length e ≡ 16 → frame d b ≡ frame e c → (d ≡ e) × (b ≡ c)
frame_injective d e b c hd he p = (
  sym (take-frame d b hd) ∙ ap (take 16) p ∙ take-frame e c he,
  sym (drop-frame d b hd) ∙ ap (drop 16) p ∙ drop-frame e c he,
)

module _ (blake3 : Blake3) where
  -- Bytes that verify_framed accepts have the expected content id and are the frame, in the given
  -- domain, of the body that it returns.
  pub verify_framed_inv :
      (d : Domain) (expected : ContentHash) (wire body : Bytes)
      → verify_framed blake3 d expected wire ≡ ok body
      → (cid_of blake3 wire ≡ expected) × (wire ≡ frame d body)
  unfolding verify_framed
  verify_framed_inv d expected wire body h =
      ground (arith, bytes_eq_iff (blake3.hash wire) expected, unframe_inv d wire body)

  -- What frame_cid returns for a domain of 16 bytes and a body passes verify_framed, which returns
  -- the body.
  pub verify_framed-frame_cid :
      (d : Domain) (body : Bytes)
      → length d ≡ 16
      → verify_framed blake3 d (frame_cid blake3 d body).0 (frame_cid blake3 d body).1 ≡ ok body
  unfolding verify_framed frame_cid
  verify_framed-frame_cid d body h =
      ground (arith, bytes_eq_refl (blake3.hash (frame d body)), unframe-frame d body h)
