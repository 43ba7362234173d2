-- ===== src/Examples/Announcements.antt =====
-- The check of a received announcement at concrete values.
use soal.Base.{◌≡◌, ◌≢◌, refl, [], none, ok, arith}
use soal.Examples.Crates.{hex}
use soal.Examples.Signatures.{keys, signed_head}
use soal.Codec.HeadWire.{HeadAnnouncement}
use soal.Disk.{Disk, quiet}
use soal.Network.{validate_announcement, parse_u64, u64_to_string}
use soal.Network.Replay.{validate_announcement-replay}

abbrev accepted : Disk
accepted = (validate_announcement keys hex signed_head none 1000 (quiet [])).1

accepts_first : validate_announcement keys hex signed_head none 1000 (quiet []) ≡ (ok tt, accepted)
unfolding validate_announcement soal.Disk.◌>>=◌ soal.Disk.bind_at soal.Disk.lift
    soal.Identity.verify_head_announcement soal.Codec.HeadWire.is_signed soal.Content.bytes_eq
    soal.Content.bytes_ltb soal.Codec.HeadWire.head_sign_message
    soal.Codec.HeadWire.encode_head_sign_body soal.Identity.check_head_skew soal.Identity.abs_diff
    soal.Network.check_vault soal.Network.check_replay soal.Network.load_last_recv_seq
    soal.Network.recovered soal.Disk.read_file soal.Disk.call soal.Disk.attempt soal.Disk.contents
    soal.Disk.create soal.Disk.move_to soal.Disk.rename soal.Disk.replace soal.Disk.write_all
    soal.Disk.write_file soal.Map.insert soal.Map.lookup soal.Network.last_recv_seq_path
    soal.Network.tmp_path soal.Network.store_last_recv_seq soal.Examples.Crates.encode
accepts_first = refl

abbrev older : HeadAnnouncement
older = record signed_head { seq = 3 }

validate_announcement-replay_example :
    (validate_announcement keys hex older none 1100 (quiet accepted.files)).0 ≢ ok tt
validate_announcement-replay_example =
    validate_announcement-replay keys hex signed_head older none none 1000 1100 (quiet []) accepted
      accepts_first (omega arith) refl refl (omega arith)
