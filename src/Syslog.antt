-- ===== src/Syslog.antt =====
-- src/iw_syslog.c: the buffer of the last messages. A position is an offset into the buffer; a
-- remainder that is negative counts as 0, which the code makes of it. A message is its text after
-- formatting, and a timestamp 16 bytes. The call of vsyslog and the display are left out.
pub mod Ends
use insta_works.Base.{
  ℕ, zero, suc, ◌+◌, ◌-◌, ◌*◌, ◌/◌, ◌%◌, Bool, true, false, ◌||◌, Option, none, some, List, [], ◌∷◌,
  ◌++◌, ◌==◌, leb, ltb, if◌then◌else◌, length, take, set, get_or, replicate,
}

pub record Syslog : Type 0 where
  pub msg_buff : Option (List ℕ)
  pub buff_size : ℕ
  pub read_pos : ℕ
  pub write_pos : ℕ
  pub first_msg : Bool

abbrev pub def_buff_size : ℕ
def_buff_size = 10000

-- sizeof(length) + sizeof(*tv)
abbrev pub hdr_len : ℕ
hdr_len = 20

abbrev pub bytes_of : Option (List ℕ) → List ℕ
bytes_of none = []
bytes_of (some b) = b

-- Bytes are written at an offset; those behind the end of the buffer are not kept.
unfoldable pub write_at : List ℕ → ℕ → List ℕ → List ℕ
write_at buff off [] = buff
write_at buff off (c ∷ cs) = write_at (set buff off c) (suc off) cs

-- htonl of a length, as bytes, and ntohl of four bytes.
abbrev pub to_bytes : ℕ → List ℕ
to_bytes n = n / 16777216 % 256 ∷ n / 65536 % 256 ∷ n / 256 % 256 ∷ n % 256 ∷ []

abbrev pub read_length : List ℕ → ℕ → ℕ
read_length buff off =
    get_or buff off 0 * 16777216
    + get_or buff (off + 1) 0 * 65536
    + get_or buff (off + 2) 0 * 256
    + get_or buff (off + 3) 0

-- What a try to write an entry gives: the length of the entry, and whether it was written.
pub data Entry : Type 0 where
  wrote : ℕ → Syslog → Entry
  too_long : ℕ → Syslog → Entry

-- vsnprintf into `avail` bytes.
abbrev pub printed : ℕ → List ℕ → List ℕ
printed zero msg = []
printed (suc n) msg = take n msg ++ 0 ∷ []

abbrev pub entry_length : List ℕ → ℕ
entry_length msg = length msg + (1 + hdr_len)

abbrev pub with_text : Syslog → ℕ → ℕ → List ℕ → Syslog
with_text s start avail msg = record s {
  msg_buff = some (write_at (bytes_of s.msg_buff) (start + hdr_len) (printed avail msg));
}

abbrev pub with_header : Syslog → ℕ → List ℕ → List ℕ → Syslog
with_header s start tv msg = record s {
  msg_buff = some (write_at (bytes_of s.msg_buff) start (to_bytes (entry_length msg) ++ tv));
  first_msg = false;
}

unfoldable pub write_entry : Syslog → (start buff_len : ℕ) → (tv msg : List ℕ) → Entry
unfolding write_at
write_entry s start buff_len tv msg =
    let avail = buff_len - hdr_len in
    let s' = with_text s start avail msg in
    if ltb avail (length msg)
    then too_long (entry_length msg) s'
    else wrote (entry_length msg) (with_header s' start tv msg)

-- The loop that clears old messages, on `k` rounds.
unfoldable pub clear_old : ℕ → Syslog → ℕ → Syslog
clear_old zero s len = s
clear_old (suc k) s len =
    let msg_len = read_length (bytes_of s.msg_buff) s.read_pos in
    let rest = clear_old k (record s { read_pos = s.read_pos + msg_len }) len in
    if leb (s.write_pos + len) s.read_pos
    then s
    else if ltb s.buff_size (s.read_pos + 4)
    then record s { read_pos = 0 }
    else if msg_len == 0
    then record s { read_pos = 0 }
    else if leb (s.read_pos + msg_len) s.buff_size
    then rest
    else s

abbrev pub advanced : Entry → Syslog
advanced (wrote n s) = record s { write_pos = s.write_pos + n }
advanced (too_long n s) = s

-- The end is marked with up to four zeros, and both positions go to the start.
abbrev pub wrapped : Syslog → Syslog
wrapped s =
    let marker = if ltb 4 (s.buff_size - s.write_pos) then 4 else s.buff_size - s.write_pos in
    record s {
      msg_buff = some (write_at (bytes_of s.msg_buff) s.write_pos (replicate marker 0));
      write_pos = 0;
      read_pos = 0;
    }

-- The second try, behind the clearing of old messages.
unfoldable pub write_again : ℕ → Syslog → ℕ → (tv msg : List ℕ) → Syslog
unfolding clear_old write_entry
write_again rounds s len tv msg =
    let c = clear_old rounds s len in
    let left = if c.read_pos == 0 then c.buff_size - c.write_pos else c.read_pos - c.write_pos in
    advanced (write_entry c c.write_pos left tv msg)

unfoldable pub add_second : ℕ → (tv msg : List ℕ) → Entry → Syslog
unfolding write_again write_at
add_second rounds tv msg (wrote n s) = record s { write_pos = s.write_pos + n }
add_second rounds tv msg (too_long len s) =
    if leb s.buff_size len
    then s
    else if ltb s.buff_size (s.write_pos + len)
    then write_again rounds (wrapped s) len tv msg
    else write_again rounds s len tv msg

unfoldable pub syslog_add : ℕ → Syslog → (tv msg : List ℕ) → Syslog
unfolding write_entry add_second
syslog_add rounds s tv msg =
    let left =
      if ltb s.read_pos s.write_pos || s.first_msg
      then s.buff_size - s.write_pos
      else s.read_pos - s.write_pos in
    add_second rounds tv msg (write_entry s s.write_pos left tv msg)

abbrev pub size_or_default : ℕ → ℕ
size_or_default n = if n == 0 then def_buff_size else n

-- `mem` is the allocation of the buffer, whose failure is not looked at here.
unfoldable pub reinit : (mem : Bool) → Syslog → ℕ → Syslog
reinit mem s buff_size =
    let size = size_or_default buff_size in
    record {
      msg_buff = if mem then some (replicate size 0) else none;
      buff_size = size;
      read_pos = 0;
      write_pos = 0;
      first_msg = true;
    }

unfoldable pub syslog_exit : Syslog → Syslog
syslog_exit s = record s { msg_buff = none }

-- memset of NULL is `none`.
abbrev pub cleared : Syslog → Option (List ℕ) → Option Syslog
cleared s none = none
cleared s (some buff) = some (record s {
  read_pos = 0;
  write_pos = 0;
  first_msg = true;
  msg_buff = some (replicate s.buff_size 0);
})

unfoldable pub clear : Syslog → Option Syslog
clear s = cleared s s.msg_buff
