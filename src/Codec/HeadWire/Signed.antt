-- ===== src/Codec/HeadWire/Signed.antt =====
-- src/codec.rs, lines 658 to 682: what the signature of a head announcement covers.
use soal.Base.{
  ok_injective, ◌*◌, ◌≡◌, refl, sym, ◌∙◌, List, [], ◌∷◌, ◌++◌, append-nil, arith, length,
  append_cancel_left, ok, All,
}
use soal.Codec.Frame.{domain_head, frame, frame_injective}
use soal.Codec.Cbor.Items.{map_header, writers}
use soal.Codec.Cbor.Sequence.{
  Item, num, blob, is_num, item, items, Fits, items_injective, weights, weight, length-items,
}
use soal.Codec.HeadWire.{HeadAnnouncement, encode_head_sign_body, head_sign_message}
use soal.Codec.HeadWire.RoundTrip.{IsWireHead}

-- Keys and values, in turn.
unfoldable pub signed_items : HeadAnnouncement → List Item
signed_items ann =
    num 1
    ∷ num ann.protocol_version
    ∷ num 2
    ∷ blob ann.vault_id
    ∷ num 4
    ∷ blob ann.head
    ∷ num 5
    ∷ num ann.timestamp
    ∷ num 6
    ∷ blob ann.node_id
    ∷ num 7
    ∷ num ann.seq
    ∷ num 8
    ∷ num ann.config_seq
    ∷ []

-- The body of a head announcement that is signed is a map header for six pairs, followed by the
-- fourteen items of seven pairs.
pub encode_head_sign_body-items :
    (ann : HeadAnnouncement)
    → (encode_head_sign_body ann ≡ ok (map_header 6 ++ items (signed_items ann)))
      × (length (signed_items ann) ≡ 2 * 7)
unfolding encode_head_sign_body signed_items items item
encode_head_sign_body-items ann = (simp (writers, append-nil) refl, refl)

head_sign_message-items :
    (ann : HeadAnnouncement)
    → head_sign_message ann ≡ ok (frame domain_head (map_header 6 ++ items (signed_items ann)))
unfolding head_sign_message
head_sign_message-items ann = rw (encode_head_sign_body-items ann).0

signed_items-Fits : (ann : HeadAnnouncement) → IsWireHead ann → All Fits (signed_items ann)
unfolding signed_items Fits
signed_items-Fits ann w = (
  omega arith,
  (
    w.protocol_version,
    (
      omega arith,
      (
        omega (arith, w.vault_id),
        (
          omega arith,
          (
            omega (arith, w.head),
            (
              omega arith,
              (
                w.timestamp,
                (
                  omega arith,
                  (
                    omega (arith, w.node_id),
                    (omega arith, (w.seq, (omega arith, (w.config_seq, tt)))),
                  ),
                ),
              ),
            ),
          ),
        ),
      ),
    ),
  ),
)

signed_items-weight : (ann : HeadAnnouncement) → IsWireHead ann → weights (signed_items ann) ≡ 206
unfolding signed_items weights weight
signed_items-weight ann w = omega (arith, w.vault_id, w.head, w.node_id)

-- Two head announcements whose fields have the sizes of their types and whose messages to sign are
-- equal agree in the protocol version, the vault id, the head, the timestamp, the node id, the
-- sequence number and the config sequence number.
pub head_sign_message_injective :
    (a b : HeadAnnouncement)
    → IsWireHead a
    → IsWireHead b
    → head_sign_message a ≡ head_sign_message b
    → (a.protocol_version ≡ b.protocol_version)
      × (a.vault_id ≡ b.vault_id)
      × (a.head ≡ b.head)
      × (a.timestamp ≡ b.timestamp)
      × (a.node_id ≡ b.node_id)
      × (a.seq ≡ b.seq)
      × (a.config_seq ≡ b.config_seq)
unfolding signed_items is_num
head_sign_message_injective a b v w e =
    let framed = sym (head_sign_message-items a) ∙ e ∙ head_sign_message-items b in
    let (_, bodies) = frame_injective domain_head domain_head _ _ refl refl (ok_injective framed) in
    let same : signed_items a ≡ signed_items b =
      items_injective (signed_items a) (signed_items b) refl (signed_items-Fits a v)
        (signed_items-Fits b w)
        (omega (arith, length-items (signed_items a), signed_items-weight a v))
        (append_cancel_left (map_header 6) bodies) in
    (cc, cc, cc, cc, cc, cc, cc)
