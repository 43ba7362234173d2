-- ===== src/Codec/TreeWire/Accepted.antt =====
-- The trees that `decode_tree_body` of src/codec.rs accepts.
use soal.Base.{
  ok_injective, ◌≡◌, subst, Bytes, [], ◌∷◌, Option, none, ok, All, >>=-ok, Bool-cases, inl, inr,
}
use soal.Content.{bytes_eq, bytes_ltb}
use soal.Map.{Map, insert, IsSorted}
use soal.Map.Order.{insert-IsSorted}
use soal.Tree.{Tree, TreeEntry, new}
use soal.Paths.{validate_path}
use soal.Codec.Cbor.{Cursor_new}
use soal.Codec.Cbor.Returns.{Returns, >>=-Returns, pure-Returns, lift-Returns, repeat-Returns}
use soal.Codec.TreeWire.{tree_round, tree_body, decode_tree_body}

pub record IsAccepted (t : Tree) : Type 0 where
  pub sorted : IsSorted t.entries
  pub paths : All (λ e. validate_path e.0 ≡ ok tt) t.entries

insert-paths :
    (path : Bytes) (e : TreeEntry) (m : Map TreeEntry)
    → validate_path path ≡ ok tt
    → All (λ e. validate_path e.0 ≡ ok tt) m
    → All (λ e. validate_path e.0 ≡ ok tt) (insert path e m)
unfolding insert
insert-paths path e [] h all = (h, tt)
insert-paths path e ((j, w) ∷ m) h (p, q) = elim (Bool-cases (bytes_ltb path j)) [
  | inl x ↦ rw x (h, (p, q))
  | inr x ↦ elim (Bool-cases (bytes_eq path j)) [
    | inl y ↦ rw (x, y) (h, q)
    | inr y ↦ rw (x, y) (p, insert-paths path e m h q)
  ]
]

round-IsAccepted :
    (s s' : Tree × Option Bytes) → IsAccepted s.0 → Returns (tree_round s) s' → IsAccepted s'.0
unfolding tree_round
round-IsAccepted (t, last) s' a r =
    let (path, _, r) = >>=-Returns _ _ r in
    let (_, _, r) = >>=-Returns _ _ r in
    let (_, v, r) = >>=-Returns _ _ r in
    let (_, _, r) = >>=-Returns _ _ r in
    let (_, _, r) = >>=-Returns _ _ r in
    let (entry, _, r) = >>=-Returns _ _ r in
    subst (λ (s : Tree × Option Bytes). IsAccepted s.0) (pure-Returns r)
      (record {
        sorted = insert-IsSorted path entry t.entries a.sorted;
        paths = insert-paths path entry t.entries (lift-Returns v) a.paths;
      })

tree_body-IsAccepted : (t : Tree) → Returns tree_body t → IsAccepted t
unfolding tree_body new
tree_body-IsAccepted t r =
    let (_, _, r) = >>=-Returns _ _ r in
    let (_, _, r) = >>=-Returns _ _ r in
    let (_, _, r) = >>=-Returns _ _ r in
    let (_, _, r) = >>=-Returns _ _ r in
    let (n, _, r) = >>=-Returns _ _ r in
    let (_, _, r) = >>=-Returns _ _ r in
    let (s, loop, r) = >>=-Returns _ _ r in
    let (_, _, r) = >>=-Returns _ _ r in
    subst IsAccepted (pure-Returns r) (
      repeat-Returns tree_round (λ s. IsAccepted s.0) round-IsAccepted n (new, none) s
        (record { sorted = tt; paths = tt }) loop)

-- Whatever bytes decode_tree_body accepts, the entries of the tree it returns are strictly sorted
-- by path and validate_path accepts each path.
pub decode_tree_body-IsAccepted :
    (bytes : Bytes) (t : Tree) → decode_tree_body bytes ≡ ok t → IsAccepted t
unfolding decode_tree_body
decode_tree_body-IsAccepted bytes t e =
    let ((u, c), p, q) = >>=-ok (tree_body (Cursor_new bytes)) _ e in
    subst IsAccepted (ok_injective q)
      (tree_body-IsAccepted u (record { start = Cursor_new bytes; end = c; run = p }))
