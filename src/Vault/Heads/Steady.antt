-- ===== src/Vault/Heads/Steady.antt =====
-- src/vault.rs, `head`: it never aborts.
use soal.Base.{Bytes, none, some, Bool, true, false, not, SoalError, reject, arith}
use soal.Content.Hex.{HexCrate, from_hex, decode_hash}
use soal.Content.Text.{trim}
use soal.Codec.Utf8.{is_utf8}
use soal.Disk.{exists, io_error}
use soal.Disk.Steady.{
  IsAnswer, IsSteady, pure-IsSteady, lift-IsSteady, if-IsSteady, >>=-IsSteady, read_file-IsSteady,
}
use soal.Vault.{Crates}
use soal.Vault.Heads.{head_file, head, read_head, read_to_string}

reject-IsAnswer : (b : Bool) (e : SoalError) → IsAnswer (reject b e)
reject-IsAnswer true e = tt
reject-IsAnswer false e = tt

from_hex-IsAnswer : (hex : HexCrate) (s : Bytes) → IsAnswer (from_hex hex s)
unfolding from_hex decode_hash
from_hex-IsAnswer hex s = ground arith

read_to_string-IsSteady : (name : Bytes) → IsSteady (read_to_string name)
unfolding read_to_string
read_to_string-IsSteady name = >>=-IsSteady _ _ (read_file-IsSteady name) (λ text.
    >>=-IsSteady _ _
      (lift-IsSteady (reject (not (is_utf8 text)) io_error)
        (reject-IsAnswer (not (is_utf8 text)) io_error))
      (λ u. pure-IsSteady text))

pub head-IsSteady : (crates : Crates) → IsSteady (head crates)
unfolding head read_head soal.Disk.pure
head-IsSteady crates =
    if-IsSteady (λ d. not (exists head_file d)) _ _ (pure-IsSteady none)
      (>>=-IsSteady _ _ (read_to_string-IsSteady head_file) (λ text.
        >>=-IsSteady _ _
          (lift-IsSteady (from_hex crates.hex (trim text))
            (from_hex-IsAnswer crates.hex (trim text)))
          (λ h. pure-IsSteady (some h))))
