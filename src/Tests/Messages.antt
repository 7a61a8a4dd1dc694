-- ===== src/Tests/Messages.antt =====
-- The buffer of src/iw_syslog.c with room for 40 bytes.
use insta_works.Base.{◌+◌, ◌≡◌, refl, true, some, [], ◌∷◌, arith, replicate}
use insta_works.Syslog.{Syslog, syslog_add}
use insta_works.Syslog.Ends.{Enters, syslog_add_overruns, syslog_add-Enters}

abbrev empty : Syslog
empty = record {
  msg_buff = some (replicate 40 0);
  buff_size = 40;
  read_pos = 0;
  write_pos = 0;
  first_msg = true;
}

syslog_add_overruns_example :
    (syslog_add 41 empty (replicate 16 1) (replicate 20 65)).write_pos ≡ 40 + 1
syslog_add_overruns_example =
    syslog_add_overruns 41 empty (replicate 16 1) (replicate 20 65) refl (omega arith) refl

syslog_add-Enters_example :
    Enters 41 empty
      (replicate 16 1)
      (65 ∷ [])
      refl
      22
      (syslog_add 41 empty (replicate 16 1) (65 ∷ []))
syslog_add-Enters_example =
    syslog_add-Enters 41 empty (replicate 16 1) (65 ∷ []) refl refl refl (omega arith) (omega arith)
