-- ===== src/Network.antt =====
-- src/network.rs, lines 107 to 141 and 456 to 492: the check of a received head announcement, and the
-- last sequence number of each node, which is kept in a file.
pub mod Decimal
pub mod Replay
use soal.Base.{
  ℕ, zero, suc, ◌+◌, ◌-◌, ◌*◌, ◌/◌, ◌%◌, ◌^◌, Bool, true, false, not, ◌&&◌, ◌||◌, Bytes, List, [],
  ◌∷◌, ◌++◌, ltb, leb, ◌==◌, if◌then◌else◌, Option, none, some, Result, ok, err, panic, SoalError,
  Message, reject,
}
use soal.Content.{codes, bytes_eq}
use soal.Content.Text.{trim}
use soal.Content.Hex.{HexCrate}
use soal.Codec.Fields.{verify}
use soal.Codec.HeadWire.{HeadAnnouncement}
use soal.Disk.{Disk, Io, ◌>>=◌, ◌>>◌, pure, lift, read_file, call, replace}
use soal.Identity.{Keys, verify_head_announcement, check_head_skew}
use soal.Invite.{to_ascii_lowercase, lists_member, vault_id_from_hex}
use soal.Paths.{is_empty}
use soal.Base

-- `seq.to_string()`: a `u64` has at most 20 digits.
unfoldable pub digits_of : ℕ → ℕ → Bytes
digits_of zero n = []
digits_of (suc fuel) n =
    let front = digits_of fuel (n / 10) in
    if ltb n 10 then (b'0' + n) ∷ [] else front ++ ((b'0' + n % 10) ∷ [])

unfoldable pub u64_to_string : ℕ → Bytes
u64_to_string n = digits_of 20 n

unfoldable pub is_digit : ℕ → Bool
is_digit b = leb b'0' b && leb b b'9'

-- `x.checked_mul(10)?.checked_add(d)?`
unfoldable pub next_digit : ℕ → ℕ → Option ℕ
next_digit n b =
    if is_digit b && ltb (n * 10 + (b - b'0')) (2 ^ 64) then some (n * 10 + (b - b'0')) else none

abbrev pub and_then : Option ℕ → (ℕ → Option ℕ) → Option ℕ
and_then none f = none
and_then (some n) f = f n

unfoldable pub parse_digits : ℕ → Bytes → Option ℕ
parse_digits n [] = some n
parse_digits n (b ∷ s) = and_then (next_digit n b) (λ m. parse_digits m s)

unfoldable pub parse_unsigned : Bytes → Option ℕ
parse_unsigned [] = none
parse_unsigned (b ∷ s) = parse_digits 0 (b ∷ s)

-- `s.parse::<u64>()`, which takes a plus sign in front.
unfoldable pub parse_u64 : Bytes → Option ℕ
parse_u64 [] = none
parse_u64 (b ∷ s) = if b == b'+' then parse_unsigned s else parse_digits 0 (b ∷ s)

abbrev pub seq_dir : Bytes
seq_dir = codes "seq/"

unfoldable pub last_recv_seq_path : Bytes → Bytes → Bytes
last_recv_seq_path vault_id_hex node_id_hex =
    seq_dir ++ (vault_id_hex ++ (codes "/" ++ (node_id_hex ++ codes ".seq")))

-- `path.with_extension("seq.tmp")`
unfoldable pub tmp_path : Bytes → Bytes → Bytes
tmp_path vault_id_hex node_id_hex = last_recv_seq_path vault_id_hex node_id_hex ++ codes ".tmp"

unfoldable pub seq_or_zero : Option ℕ → ℕ
seq_or_zero none = 0
seq_or_zero (some n) = n

-- `.ok().and_then(|s| s.trim().parse().ok()).unwrap_or(0)`
unfoldable pub recovered : Result Bytes × Disk → Result ℕ × Disk
recovered (ok text, d) = (ok (seq_or_zero (parse_u64 (trim text))), d)
recovered (err e, d) = (ok 0, d)
recovered (panic, d) = (panic, d)

unfoldable pub load_last_recv_seq : Bytes → Bytes → Io ℕ
load_last_recv_seq vault_id_hex node_id_hex d =
    recovered (read_file (last_recv_seq_path vault_id_hex node_id_hex) d)

unfoldable pub store_last_recv_seq : Bytes → Bytes → ℕ → Io (Unit {0})
store_last_recv_seq vault_id_hex node_id_hex seq = do
  call
  replace (tmp_path vault_id_hex node_id_hex) (last_recv_seq_path vault_id_hex node_id_hex)
      (u64_to_string seq)

-- The fields of a `Vault` and its config that the check reads (src/vault.rs).
pub record AnnouncedVault : Type 0 where
  pub vault_id : Bytes
  pub members : List Bytes

unfoldable pub announced_id : HexCrate → AnnouncedVault → Result Bytes
announced_id hex v =
    if is_empty v.vault_id
    then err (SoalError.other (Message.text "vault_id missing (recreate vault or run migration)"))
    else vault_id_from_hex hex v.vault_id

unfoldable pub is_member : Bytes → List Bytes → Bool
is_member node_id_hex [] = true
is_member node_id_hex (m ∷ members) = lists_member (to_ascii_lowercase node_id_hex) (m ∷ members)

module _ (keys : Keys) (hex : HexCrate) where
  unfoldable pub check_vault : HeadAnnouncement → Option AnnouncedVault → Result (Unit {0})
  check_vault ann none = ok tt
  check_vault ann (some v) = Base.◌>>=◌ (announced_id hex v) λ local_id.
      Base.◌>>◌ (reject (not (bytes_eq local_id ann.vault_id)) (verify "vault_id mismatch")) (
        reject (not (is_member (hex.encode ann.node_id) v.members))
          (verify "announcer not a vault member"))

  unfoldable pub check_replay : HeadAnnouncement → Io (Unit {0})
  check_replay ann = do
    last ← load_last_recv_seq (hex.encode ann.vault_id) (hex.encode ann.node_id)
    lift (
        reject (leb ann.seq last) (
          SoalError.verify (Message.numbers "replay: seq {} <= last {last}" (ann.seq ∷ last ∷ []))))
    store_last_recv_seq (hex.encode ann.vault_id) (hex.encode ann.node_id) ann.seq

  -- `now` is the clock's time.
  unfoldable pub validate_announcement :
      HeadAnnouncement → Option AnnouncedVault → ℕ → Io (Unit {0})
  validate_announcement ann vault now = do
    lift (verify_head_announcement keys ann)
    lift (check_head_skew ann now)
    lift (check_vault ann vault)
    check_replay ann
