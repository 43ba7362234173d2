-- ===== src/Codec/TreeWire/RoundTrip.antt =====
-- The wire form of trees of src/codec.rs: its bytes, and how the decoder goes through them.
use soal.Base.{
  ◌^◌, ◌≤◌, ◌<◌, ◌≡◌, refl, sym, ap, ◌∙◌, subst, true, Bytes, [], ◌∷◌, ◌++◌, append_assoc,
  append-nil, arith, length, ok, All, Option, none, some, ltb, le→ltb_false, reject,
}
use soal.Content.{bytes_eq_iff, bytes_ltb_irrefl, bytes_ltb_trans}
use soal.Map.{Map, insert, IsSorted, Below}
use soal.Map.Order.{insert_last}
use soal.Paths.{validate_path}
use soal.Tree.{TreeEntry, Tree, new}
use soal.Codec.Utf8.{is_utf8}
use soal.Codec.Cbor.{Cursor_new, lift, write_tstr}
use soal.Codec.Cbor.Reads.{
  Remains, Remains-new, Reads, >>=-Reads, pure-Reads, lift-Reads, Runs, >>=-Runs, >>=-Runs_last,
  finish-Runs,
}
use soal.Codec.Fields.{verify, repeat}
use soal.Codec.Cbor.Items.{
  u64, tstr, map_header, writers, write_tstr-append, u64-Reads, map_header-Reads, tstr-Reads,
}
use soal.Codec.TreeWire.{
  write_entry, write_entries, encode_tree_body, decode_tree_body, path_order, tree_round, tree_body,
  max_tree_entries,
}
use soal.Codec.TreeWire.Entries.{IsEntry, entry_bytes, write_entry-append, rest_of_round-Reads}

-- A path that `validate_path` accepts, as a `String`: well-formed UTF-8 of at most `isize::MAX` bytes.
pub record IsTreePath (path : Bytes) : Type 0 where
  pub short : length path < 2 ^ 63
  pub utf8 : is_utf8 path ≡ true
  pub valid : validate_path path ≡ ok tt

pub record IsWireTree (t : Tree) : Type 0 where
  pub sorted : IsSorted t.entries
  pub count : length t.entries ≤ max_tree_entries
  pub items : All (λ e. IsTreePath e.0 × IsEntry e.1) t.entries

unfoldable pub entries_bytes : Map TreeEntry → Bytes
entries_bytes [] = []
entries_bytes ((path, e) ∷ m) = (tstr path ++ entry_bytes e) ++ entries_bytes m

write_entries-append :
    (m : Map TreeEntry) (buf : Bytes) → write_entries m buf ≡ buf ++ entries_bytes m
unfolding write_entries entries_bytes
write_entries-append [] buf = sym (append-nil buf)
write_entries-append ((path, e) ∷ m) buf =
    write_entries-append m (write_entry e (write_tstr path buf))
    ∙ ap (λ b. b ++ entries_bytes m)
        (write_entry-append e (write_tstr path buf)
          ∙ ap (λ b. b ++ entry_bytes e) (write_tstr-append path buf)
          ∙ append_assoc buf (tstr path) (entry_bytes e))
    ∙ append_assoc buf (tstr path ++ entry_bytes e) (entries_bytes m)

round-Reads :
    (t : Tree) (last : Option Bytes) (path : Bytes) (e : TreeEntry)
    → path_order last path ≡ ok tt
    → IsTreePath path
    → IsEntry e
    → Reads
        (tree_round (t, last))
        (tstr path ++ entry_bytes e)
        (record { entries = insert path e t.entries }, some path)
unfolding tree_round
round-Reads t last path e o p h = >>=-Reads _ (tstr-Reads path (omega (arith, p.short)) p.utf8) (
    >>=-Reads _ {s = []} (subst (λ r. Reads (lift r) [] tt) (sym o) (lift-Reads tt)) (
      >>=-Reads _ {s = []} (subst (λ r. Reads (lift r) [] tt) (sym p.valid) (lift-Reads tt))
        (rest_of_round-Reads t path e h)))

-- The paths of `m` go on from `last`.
abbrev Follows : Option Bytes → Map TreeEntry → Type 0
Follows none m = Unit {0}
Follows (some prev) m = Below prev m

path_order_of_Below :
    (last : Option Bytes) (path : Bytes) (e : TreeEntry) (m : Map TreeEntry)
    → Follows last ((path, e) ∷ m)
    → path_order last path ≡ ok tt
unfolding path_order
path_order_of_Below none path e m h = refl
path_order_of_Below (some prev) path e m h =
    ground (arith, bytes_ltb_trans path prev path, bytes_ltb_irrefl path, bytes_eq_iff path prev, h)

abbrev last_of : Option Bytes → Map TreeEntry → Option Bytes
last_of last [] = last
last_of last ((path, e) ∷ m) = last_of (some path) m

abbrev AreItems : Map TreeEntry → Type 0
AreItems = All (λ e. IsTreePath e.0 × IsEntry e.1)

loop-Reads :
    (m done : Map TreeEntry) (last : Option Bytes)
    → Follows last m
    → IsSorted m
    → IsSorted (done ++ m)
    → AreItems m
    → Reads
        (repeat tree_round (length m) (record { entries = done }, last))
        (entries_bytes m)
        (record { entries = done ++ m }, last_of last m)
unfolding repeat entries_bytes
loop-Reads [] done last f s sd h = rw append-nil (pure-Reads (record { entries = done }, last))
loop-Reads ((path, e) ∷ m) done last f (b, s) sd ((p, x), h) =
    let t : Tree = record { entries = done } in
    let assoc : (done ++ (path, e) ∷ []) ++ m ≡ done ++ (path, e) ∷ m =
      append_assoc done ((path, e) ∷ []) m in
    >>=-Reads _ (round-Reads t last path e (path_order_of_Below last path e m f) p x) (
      rw (insert_last path e done m sd) (
        subst
          (λ l.
            Reads
              (repeat tree_round (length m)
                (record { entries = done ++ (path, e) ∷ [] }, some path))
              (entries_bytes m) (record { entries = l }, last_of (some path) m))
          assoc
          (loop-Reads m (done ++ (path, e) ∷ []) (some path) b s (subst IsSorted (sym assoc) sd)
            h)))

-- The whole body.
abbrev body_bytes : Tree → Bytes
body_bytes t = map_header 1 ++ (u64 1 ++ (map_header (length t.entries) ++ entries_bytes t.entries))

encode_tree_body_lem : (t : Tree) → IsWireTree t → encode_tree_body t ≡ ok (body_bytes t)
unfolding encode_tree_body
encode_tree_body_lem t w =
    rw (le→ltb_false max_tree_entries (length t.entries) w.count)
      (ap ok (simp (writers, write_entries-append) refl))

tree_body-Runs : (t : Tree) → IsWireTree t → Runs tree_body (body_bytes t) t
unfolding tree_body new
tree_body-Runs t w = >>=-Runs _ (map_header-Reads 1 (omega arith)) (
    >>=-Runs _ {s = []} (lift-Reads tt) (
      >>=-Runs _ (u64-Reads 1 (omega arith)) (
        >>=-Runs _ {s = []} (lift-Reads tt) (
          >>=-Runs _ (map_header-Reads (length t.entries) (omega (arith, w.count))) (
            >>=-Runs _ {s = []} (count_ok t w) (
              >>=-Runs_last _ (loop-Reads t.entries [] none tt w.sorted w.sorted w.items)
                (finish-Runs t)))))))
  where
    count_ok :
        (u : Tree)
        → IsWireTree u
        → Reads
            (lift (
              reject
                (ltb max_tree_entries (length u.entries))
                (verify "tree exceeds MAX_TREE_ENTRIES")))
            []
            tt
    count_ok u v = rw (le→ltb_false max_tree_entries (length u.entries) v.count) (lift-Reads tt)

pub decode-encode_tree_body :
    (t : Tree) (body : Bytes)
    → IsWireTree t
    → encode_tree_body t ≡ ok body
    → length body < 2 ^ 63
    → decode_tree_body body ≡ ok t
unfolding decode_tree_body
decode-encode_tree_body t body w e h =
    let b : body ≡ body_bytes t = cc (e, encode_tree_body_lem t w) in
    let (c, r) =
      (tree_body-Runs t w).at (Cursor_new body)
        (subst (Remains (Cursor_new body)) b (Remains-new body h)) in
    rw r
