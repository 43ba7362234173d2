-- ===== src/Examples/Paths.antt =====
-- Logical paths at concrete values.
use soal.Base.{◌≡◌, refl, ◌↔◌, reverse, ok, Bytes, [], ◌∷◌, ◌++◌}
use soal.Content.{codes}
use soal.Paths.{slash, split, validate_path, normalize_and_validate}
use soal.Paths.Safe.{IsLogical, validate_path_iff}
use soal.Paths.Resolve.{resolve, resolve-validate_path}

abbrev path : Bytes
path = codes "docs/a.txt"

path-valid : validate_path path ≡ ok tt
unfolding validate_path soal.Paths.is_empty soal.Paths.contains soal.Paths.starts_with
    soal.Paths.has_drive soal.Paths.is_ascii_alphabetic soal.Paths.check_segments split
    soal.Content.bytes_eq
path-valid = refl

validate_path_iff_example : (validate_path path ≡ ok tt) ↔ IsLogical path
validate_path_iff_example = validate_path_iff path

resolve-validate_path_example :
    resolve (codes "vault" ∷ []) (split slash path)
    ≡ reverse (split slash path) ++ codes "vault" ∷ []
resolve-validate_path_example = resolve-validate_path (codes "vault" ∷ []) path path-valid
