-- ===== src/Paths/Safe.antt =====
-- Which paths `validate_path` of src/tree.rs accepts.
use soal.Base.{
  ℕ, ◌≡◌, refl, sym, ap, ◌∙◌, ◌≢◌, ◌↔◌, false, Bytes, List, [], ◌∷◌, ◌==◌, arith, All, ok,
  Bool-cases, inl, inr,
}
use soal.Paths.{
  slash, backslash, contains, split, push_front, is_empty, check_segments, starts_with, has_drive,
  validate_path,
}
use soal.Paths.Segments.{
  IsName, check_segments_iff, join, join-split, split-Lacks, split-join, join-Lacks, Lacks,
  split-ne-nil,
}

-- A logical path: names with no separator, NUL or backslash in them, joined by `/`, that do not
-- begin with a drive.
pub record IsLogical (path : Bytes) : Type 0 where
  pub segments : List Bytes
  pub nonempty : segments ≢ []
  pub joined : path ≡ join slash segments
  pub names : All IsName segments
  pub no_slash : All (Lacks slash) segments
  pub no_nul : All (Lacks 0) segments
  pub no_backslash : All (Lacks backslash) segments
  pub no_drive : has_drive path ≡ false

-- The tests of `validate_path` before the loop.
pub record Tests (path : Bytes) : Type 0 where
  pub nul : contains 0 path ≡ false
  pub back : contains backslash path ≡ false
  pub drive : has_drive path ≡ false
  pub loop : check_segments (split slash path) ≡ ok tt

pub validate_path-Tests : (path : Bytes) → validate_path path ≡ ok tt → Tests path
unfolding validate_path
validate_path-Tests path h = ground arith

pub starts_with-split :
    (path : Bytes)
    → check_segments (split slash path) ≡ ok tt
    → (is_empty path ≡ false) × (starts_with slash path ≡ false)
unfolding check_segments split is_empty starts_with
starts_with-split [] h = cc
starts_with-split (b ∷ s) h = elim (Bool-cases (b == slash)) [
  | inl p ↦ absurd (nil_fails (split slash s) (rw p at h))
  | inr p ↦ (refl, p)
]
  where
    nil_fails : (segs : List Bytes) → check_segments ([] ∷ segs) ≢ ok tt
    nil_fails segs e = cc

-- The first test and the fourth follow from the loop.
pub Tests-validate_path : (path : Bytes) → Tests path → validate_path path ≡ ok tt
unfolding validate_path
Tests-validate_path path t = ground (arith, starts_with-split path t.loop)

push_front-Lacks :
    (b c : ℕ) (segs : List Bytes)
    → (c == b) ≡ false
    → All (Lacks b) segs
    → All (Lacks b) (push_front c segs)
unfolding contains
push_front-Lacks b c [] p h = ground arith
push_front-Lacks b c (s ∷ r) p h = ground arith

-- A byte that the path lacks, its segments lack.
pub contains-Lacks : (b : ℕ) (s : Bytes) → Lacks b s → All (Lacks b) (split slash s)
unfolding split
contains-Lacks b [] h = (h, tt)
contains-Lacks b (c ∷ s) h =
    let (p, q) = parts b c s h in
    elim (Bool-cases (c == slash)) [
      | inl e ↦ rw e (unfold contains in refl, contains-Lacks b s q)
      | inr e ↦ rw e (push_front-Lacks b c (split slash s) p (contains-Lacks b s q))
    ]
  where
    parts : (b c : ℕ) (s : Bytes) → Lacks b (c ∷ s) → ((c == b) ≡ false) × Lacks b s
    parts b c s h = unfold contains in ground arith

-- validate_path accepts a path exactly if it is the join by slashes of one or more segments, none
-- of them empty, . or .., none with a slash, a backslash or a NUL byte in it, and the path does not
-- begin with a drive letter and a colon.
pub validate_path_iff : (path : Bytes) → (validate_path path ≡ ok tt) ↔ IsLogical path
validate_path_iff path = (to, from)
  where
    to : validate_path path ≡ ok tt → IsLogical path
    to h =
        let t : Tests path = validate_path-Tests path h in
        record {
          segments = split slash path;
          nonempty = split-ne-nil slash path;
          joined = sym (join-split slash path);
          names = (check_segments_iff (split slash path)).0 t.loop;
          no_slash = split-Lacks slash path;
          no_nul = contains-Lacks 0 path t.nul;
          no_backslash = contains-Lacks backslash path t.back;
          no_drive = t.drive;
        }

    from : IsLogical path → validate_path path ≡ ok tt
    from l =
        let e : split slash path ≡ l.segments =
          ap (split slash) l.joined ∙ split-join slash l.segments l.nonempty l.no_slash in
        Tests-validate_path path (record {
          nul = rw l.joined (join-Lacks slash 0 l.segments refl l.no_nul);
          back = rw l.joined (join-Lacks slash backslash l.segments refl l.no_backslash);
          drive = l.no_drive;
          loop = rw e ((check_segments_iff l.segments).1 l.names);
        })
