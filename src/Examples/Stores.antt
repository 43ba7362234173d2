-- ===== src/Examples/Stores.antt =====
-- The chunk store at concrete values: a put whose rename fails, one that succeeds, and a get.
use soal.Base.{Bytes, [], ◌∷◌, replicate, none, some}
use soal.Content.{ContentHash}
use soal.Examples.Crates.{hex, blake3, sum_hash-IsArray}
use soal.Map.{lookup}
use soal.Disk.{Disk}
use soal.Disk.Triples.{After}
use soal.Store.{tmp_for, put_verified}
use soal.Store.Put.{PutDone, Elsewhere, put_verified-PutDone}
use soal.Store.Sound.{IsSound, put_verified-IsSound}

abbrev chunk : Bytes
chunk = 10 ∷ 20 ∷ 30 ∷ []

abbrev name : ContentHash
name = 3 ∷ replicate 31 0

-- The fourth call of a put is the move.
abbrev failing : Disk
failing = record { files = []; faults = none ∷ none ∷ none ∷ some 0 ∷ [] }

put_verified-PutDone_example :
    After
      (PutDone hex blake3 name chunk failing)
      (Elsewhere (tmp_for hex blake3 name) [])
      (put_verified hex blake3 name chunk failing)
put_verified-PutDone_example = put_verified-PutDone hex blake3 name chunk failing

no_files-IsSound : IsSound hex blake3 []
unfolding lookup
no_files-IsSound h bytes a e = absurd cc

put_verified-IsSound_example :
    IsSound hex blake3 (put_verified hex blake3 name chunk failing).1.files
put_verified-IsSound_example =
    put_verified-IsSound hex blake3 name chunk failing (sum_hash-IsArray chunk) no_files-IsSound
