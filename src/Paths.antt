-- ===== src/Paths.antt =====
-- src/tree.rs, lines 156 to 244: logical paths. A `str` is its bytes, which are well-formed UTF-8.
pub mod Segments
pub mod Trim
pub mod Safe
pub mod Resolve
use soal.Base.{
  ℕ, zero, suc, ◌+◌, Bool, true, false, not, ◌&&◌, ◌||◌, Bytes, List, [], ◌∷◌, ◌++◌, map, reverse,
  String, ltb, leb, ◌==◌, if◌then◌else◌, Option, none, some, take, drop, Result, ok, err, SoalError,
  Message, ◌>>=◌, ◌>>◌, reject,
}
use soal.Content.{codes, bytes_eq}

abbrev pub slash : ℕ
slash = b'/'

abbrev pub dot : ℕ
dot = b'.'

abbrev pub backslash : ℕ
backslash = 0x5c

unfoldable pub contains : ℕ → Bytes → Bool
contains b [] = false
contains b (a ∷ rest) = a == b || contains b rest

-- `s.split(sep)`: one more piece than there are separators.
abbrev pub push_front : ℕ → List Bytes → List Bytes
push_front b [] = (b ∷ []) ∷ []
push_front b (seg ∷ segs) = (b ∷ seg) ∷ segs

unfoldable pub split : ℕ → Bytes → List Bytes
split sep [] = [] ∷ []
split sep (b ∷ s) = let rest = split sep s in if b == sep then [] ∷ rest else push_front b rest

-- `s.trim_start_matches("./")`
unfoldable pub trim_start_dots : Bytes → Bytes
trim_start_dots [] = []
trim_start_dots (a ∷ []) = a ∷ []
trim_start_dots (a ∷ b ∷ s) =
    let rest = trim_start_dots s in if a == dot && b == slash then rest else a ∷ b ∷ s

unfoldable pub trim_start_slashes : Bytes → Bytes
trim_start_slashes [] = []
trim_start_slashes (a ∷ s) = let rest = trim_start_slashes s in if a == slash then rest else a ∷ s

-- `s.trim_matches('/')`
unfoldable pub trim_slashes : Bytes → Bytes
trim_slashes s = reverse (trim_start_slashes (reverse (trim_start_slashes s)))

unfoldable pub replace_backslash : ℕ → ℕ
replace_backslash b = if b == backslash then slash else b

unfoldable pub normalize_path : Bytes → Bytes
normalize_path path =
    let s = map replace_backslash path in let s' = trim_start_dots s in trim_slashes s'

unfoldable pub is_ascii_alphabetic : ℕ → Bool
is_ascii_alphabetic b = (leb b'A' b && leb b b'Z') || (leb b'a' b && leb b b'z')

-- `bytes.len() >= 2 && bytes[1] == b':' && bytes[0].is_ascii_alphabetic()`
unfoldable pub has_drive : Bytes → Bool
has_drive (a ∷ b ∷ s) = b == b':' && is_ascii_alphabetic a
has_drive _ = false

unfoldable pub starts_with : ℕ → Bytes → Bool
starts_with b [] = false
starts_with b (a ∷ s) = a == b

unfoldable pub is_empty : Bytes → Bool
is_empty [] = true
is_empty (a ∷ s) = false

abbrev pub invalid : String → SoalError
invalid m = SoalError.invalid_path (Message.text m)

-- The loop of `validate_path`.
unfoldable pub check_segments : List Bytes → Result (Unit {0})
check_segments [] = ok tt
check_segments (seg ∷ segs) = do
  reject (is_empty seg) (invalid "empty path segment")
  reject (bytes_eq seg (codes ".") || bytes_eq seg (codes ".."))
      (SoalError.invalid_path (Message.about "illegal segment '{seg}'" seg))
  check_segments segs

unfoldable pub validate_path : Bytes → Result (Unit {0})
validate_path path = do
  reject (is_empty path) (invalid "empty path")
  reject (contains 0 path) (invalid "NUL in path")
  reject (contains backslash path) (invalid "backslash not allowed")
  reject (starts_with slash path) (invalid "absolute path not allowed")
  reject (has_drive path) (invalid "drive-absolute path not allowed")
  check_segments (split slash path)

unfoldable pub normalize_and_validate : Bytes → Result Bytes
normalize_and_validate path = do
  reject (contains 0 path) (invalid "NUL in path")
  reject (contains backslash path) (invalid "backslash not allowed")
  let n = normalize_path path
  validate_path n
  ok n

-- `s.rfind(c)`
unfoldable pub rfind : ℕ → Bytes → Option ℕ
rfind c [] = none
rfind c (b ∷ s) = elim (rfind c s) [
  | some i ↦ some (suc i)
  | none ↦ if b == c then some 0 else none
]

-- `(&path[..=i], &path[i + 1..])`
unfoldable pub split_dir : Bytes → Bytes × Bytes
split_dir path = elim (rfind slash path) [
  | some i ↦ (take (i + 1) path, drop (i + 1) path)
  | none ↦ ([], path)
]

-- The stem and the extension; a dot at the start of the name begins no extension.
unfoldable pub split_ext : Bytes → Bytes × Bytes
split_ext file = elim (rfind dot file) [
  | some i ↦ if ltb 0 i then (take i file, drop i file) else (file, [])
  | none ↦ (file, [])
]

unfoldable pub conflict_path_name : Bytes → Bytes → Bytes
conflict_path_name path from_label =
    let (dir, file) = split_dir path in
    let (stem, ext) = split_ext file in
    dir ++ (stem ++ (codes " (conflict from " ++ (from_label ++ (codes ")" ++ ext))))

unfoldable pub label_byte : ℕ → Bool
label_byte b = is_ascii_alphabetic b || (leb b'0' b && leb b b'9') || b == b'-' || b == b'_'

-- A character of `str` is a byte below 0x80, or a first byte with the bytes 0x80 to 0xbf behind it.
unfoldable pub label_chars : Bytes → Bytes
label_chars [] = []
label_chars (b ∷ s) =
    let rest = label_chars s in
    if leb 0x80 b && leb b 0xbf then rest else (if label_byte b then b else b'_') ∷ rest

unfoldable pub sanitize_conflict_label : Bytes → Bytes
sanitize_conflict_label label =
    let s = take 32 (label_chars label) in if is_empty s then codes "remote" else s
