-- ===== src/Paths/Resolve.antt =====
-- What an operating system makes of a path that it is handed below a directory, against which
-- `validate_path` of src/tree.rs guards.
use mathlib.Core.List.{reverse-cons}
use soal.Base.{
  ◌≡◌, refl, sym, ap, ◌∙◌, ◌||◌, Bytes, List, [], ◌∷◌, ◌++◌, if◌then◌else◌, arith, All, ok, reverse,
  append_assoc,
}
use soal.Content.{codes, bytes_eq, bytes_eq_iff}
use soal.Paths.{slash, split, is_empty, validate_path}
use soal.Paths.Segments.{IsName, check_segments_iff}
use soal.Paths.Safe.{Tests, validate_path-Tests}

-- One component: `.` and an empty one stay, `..` goes to the parent. The directory that is reached
-- is a list of names with the innermost first.
abbrev descend : List Bytes → Bytes → List Bytes
descend dir seg =
    if is_empty seg || bytes_eq seg (codes ".")
    then dir
    else if bytes_eq seg (codes "..")
    then parent dir
    else seg ∷ dir
  where
    parent : List Bytes → List Bytes
    parent [] = []
    parent (d ∷ ds) = ds

pub resolve : List Bytes → List Bytes → List Bytes
resolve dir [] = dir
resolve dir (seg ∷ segs) = resolve (descend dir seg) segs

descend_of_IsName : (dir : List Bytes) (seg : Bytes) → IsName seg → descend dir seg ≡ seg ∷ dir
unfolding is_empty
descend_of_IsName dir [] n = absurd (n.filled refl)
descend_of_IsName dir (b ∷ seg) n = ground (
  arith,
  bytes_eq_iff (b ∷ seg) (codes "."),
  bytes_eq_iff (b ∷ seg) (codes ".."),
  n.not_here,
  n.not_parent,
)

resolve_of_IsName :
    (dir segs : List Bytes) → All IsName segs → resolve dir segs ≡ reverse segs ++ dir
unfolding resolve
resolve_of_IsName dir [] h = refl
resolve_of_IsName dir (seg ∷ segs) h =
    ap (λ d. resolve d segs) (descend_of_IsName dir seg h.0)
    ∙ resolve_of_IsName (seg ∷ dir) segs h.1
    ∙ sym (append_assoc (reverse segs) (seg ∷ []) dir)
    ∙ ap (λ r. r ++ dir) (sym (reverse-cons seg segs))

-- Resolving the segments of a path that validate_path accepts, from any directory, only goes down:
-- it ends at that directory with all segments of the path below it.
pub resolve-validate_path :
    (dir : List Bytes) (path : Bytes)
    → validate_path path ≡ ok tt
    → resolve dir (split slash path) ≡ reverse (split slash path) ++ dir
resolve-validate_path dir path h =
    let t : Tests path = validate_path-Tests path h in
    resolve_of_IsName dir (split slash path) ((check_segments_iff (split slash path)).0 t.loop)
