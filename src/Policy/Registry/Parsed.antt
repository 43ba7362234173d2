-- ===== src/Policy/Registry/Parsed.antt =====
-- The JSON files of src/policy.rs and src/replication.rs: reading what a file holds, and what was
-- saved, where no call fails.
use soal.Base.{◌≡◌, refl, ap, ◌∙◌, true, false, Bytes, none, some, ok, err}
use soal.Map.{lookup}
use soal.Disk.{◌>>=◌, bind_at, lift, exists, call, contents, attempt, quiet, replace, io_error}
use soal.Disk.Triples.{Files}
use soal.Disk.Replace.{replace-quiet, replaced, lookup-insert_same}
use soal.Policy.Registry.{Json, tmp_of, parse_file, from_json}

contents-quiet :
    (name text : Bytes) (m : Files)
    → lookup name m ≡ some text
    → contents name (quiet m) ≡ (ok text, quiet m)
unfolding contents lookup
contents-quiet name text m e = rw e refl

contents-absent :
    (name : Bytes) (m : Files)
    → lookup name m ≡ none
    → contents name (quiet m) ≡ (err io_error, quiet m)
unfolding contents lookup
contents-absent name m e = rw e refl

module _ {A : Type 0} (json : Json A) (name : Bytes) where
  pub parse_file-some :
      (text : Bytes) (m : Files)
      → lookup name m ≡ some text
      → parse_file json name (quiet m) ≡ (from_json (json.from_str text), quiet m)
  unfolding parse_file ◌>>=◌ bind_at lift call attempt
  parse_file-some text m e = rw (contents-quiet name text m e) refl

  pub parse_file-none :
      (m : Files) → lookup name m ≡ none → parse_file json name (quiet m) ≡ (err io_error, quiet m)
  unfolding parse_file ◌>>=◌ bind_at call attempt
  parse_file-none m e = rw (contents-absent name m e) refl

  -- The files after the value is saved.
  abbrev pub saved : A → Files → Files
  saved a m = replaced (tmp_of name) name (json.to_string a) m

  pub save-quiet :
      (a : A) (m : Files)
      → replace (tmp_of name) name (json.to_string a) (quiet m) ≡ (ok tt, quiet (saved a m))
  save-quiet a m = replace-quiet (tmp_of name) name (json.to_string a) m

  lookup-saved : (a : A) (m : Files) → lookup name (saved a m) ≡ some (json.to_string a)
  lookup-saved a m = lookup-insert_same name (json.to_string a) _

  pub parse_file-saved :
      (a : A) (m : Files)
      → json.from_str (json.to_string a) ≡ some a
      → parse_file json name (quiet (saved a m)) ≡ (ok a, quiet (saved a m))
  parse_file-saved a m e =
      parse_file-some (json.to_string a) (saved a m) (lookup-saved a m)
      ∙ ap (λ o. (from_json o, quiet (saved a m))) e

  pub exists-some :
      (text : Bytes) (m : Files) → lookup name m ≡ some text → exists name (quiet m) ≡ true
  unfolding exists lookup
  exists-some text m e = rw e refl

  pub exists-none : (m : Files) → lookup name m ≡ none → exists name (quiet m) ≡ false
  unfolding exists lookup
  exists-none m e = rw e refl

  pub exists-saved : (a : A) (m : Files) → exists name (quiet (saved a m)) ≡ true
  exists-saved a m = exists-some (json.to_string a) (saved a m) (lookup-saved a m)
