-- ===== src/Syslog/Ends.antt =====
-- Where an entry that iw_syslog_add of src/iw_syslog.c writes ends.
use insta_works.Base.{
  ℕ, suc, ◌+◌, ◌-◌, ◌≤◌, ◌<◌, ◌≡◌, refl, ap, ◌∙◌, true, false, ◌||◌, List, [], ◌∷◌, arith, ◌==◌,
  ltb, length, get_or, set, get_or-set, length-set, ◌++◌, ◌/◌, ◌%◌, ◌^◌, ==_refl,
}
use insta_works.Syslog.{
  Syslog, write_at, to_bytes, hdr_len, bytes_of, read_length, entry_length, with_text, printed,
  write_entry, add_second, syslog_add,
}

length-write_at : (b cs : List ℕ) (off : ℕ) → length (write_at b off cs) ≡ length b
unfolding write_at
length-write_at b [] off = refl
length-write_at b (c ∷ cs) off = length-write_at (set b off c) cs (suc off) ∙ length-set b off c

-- Bytes before the offset are as they were.
write_at-before :
    (b cs : List ℕ) (off j : ℕ)
    → j < off
    → off + length cs ≤ length b
    → get_or (write_at b off cs) j 0 ≡ get_or b j 0
unfolding write_at
write_at-before b [] off j lt fits = refl
write_at-before b (c ∷ cs) off j lt fits =
    let same = length-set b off c in
    let rest =
      write_at-before (set b off c) cs (suc off) j (omega arith) (omega (arith, same, fits)) in
    let apart : (off == j) ≡ false = ground arith in
    rest ∙ get_or-set b off j c 0 (omega arith) ∙ rw apart refl

write_at-first :
    (b cs : List ℕ) (c off : ℕ)
    → off + suc (length cs) ≤ length b
    → get_or (write_at b off (c ∷ cs)) off 0 ≡ c
unfolding write_at
write_at-first b cs c off fits =
    let same = length-set b off c in
    write_at-before (set b off c) cs (suc off) off (omega arith) (omega (arith, same, fits))
    ∙ get_or-set b off off c 0 (omega arith)
    ∙ rw (==_refl off) refl

-- A length that was written is read back.
length_read :
    (b tv : List ℕ) (off n : ℕ)
    → off + (4 + length tv) ≤ length b
    → n < 2 ^ 32
    → read_length (write_at b off (to_bytes n ++ tv)) off ≡ n
unfolding write_at
length_read b tv off n fits lt =
    let c0 = n / 16777216 % 256 in
    let c1 = n / 65536 % 256 in
    let c2 = n / 256 % 256 in
    let c3 = n % 256 in
    let b1 = set b off c0 in
    let b2 = set b1 (suc off) c1 in
    let b3 = set b2 (suc (suc off)) c2 in
    let l1 = length-set b off c0 in
    let l2 = length-set b1 (suc off) c1 in
    let l3 = length-set b2 (suc (suc off)) c2 in
    let d0 = write_at-first b (c1 ∷ c2 ∷ c3 ∷ tv) c0 off (omega (arith, fits)) in
    let d1 = write_at-first b1 (c2 ∷ c3 ∷ tv) c1 (suc off) (omega (arith, fits, l1)) in
    let d2 = write_at-first b2 (c3 ∷ tv) c2 (suc (suc off)) (omega (arith, fits, l1, l2)) in
    let d3 = write_at-first b3 tv c3 (suc (suc (suc off))) (omega (arith, fits, l1, l2, l3)) in
    let w = write_at b off (to_bytes n ++ tv) in
    let at : (i j : ℕ) → i ≡ j → get_or w i 0 ≡ get_or w j 0 = λ i j e. ap (λ x. get_or w x 0) e in
    let e0 : get_or w off 0 ≡ c0 = d0 in
    let e1 : get_or w (off + 1) 0 ≡ c1 = at (off + 1) (suc off) (omega arith) ∙ d1 in
    let e2 : get_or w (off + 2) 0 ≡ c2 = at (off + 2) (suc (suc off)) (omega arith) ∙ d2 in
    let e3 : get_or w (off + 3) 0 ≡ c3 = at (off + 3) (suc (suc (suc off))) (omega arith) ∙ d3 in
    rw (e0, e1, e2, e3) (omega (arith, lt))

module _ (rounds : ℕ) (s : Syslog) (tv msg : List ℕ)
    (straight : (ltb s.read_pos s.write_pos || s.first_msg) ≡ true) where
  abbrev space : ℕ
  space = s.buff_size - s.write_pos

  first_try :
      syslog_add rounds s tv msg ≡ add_second rounds tv msg (write_entry s s.write_pos space tv msg)
  unfolding syslog_add
  first_try = rw (syslog_add, straight) refl

  -- A message that is not longer than the space behind the header.
  taken :
      length msg ≤ space - hdr_len
      → (syslog_add rounds s tv msg).write_pos ≡ s.write_pos + entry_length msg
  unfolding write_entry add_second
  taken le =
      let short : ltb (space - hdr_len) (length msg) ≡ false = ground arith in
      rw (first_try, write_entry, short) refl

  -- If the space between the write position and the end of the buffer is used, and a message is exactly
  -- as long as what the header leaves of it, then iw_syslog_add writes the entry without room for its
  -- end, and the write position comes to stand one byte behind the end of the buffer.
  pub syslog_add_overruns :
      hdr_len ≤ space
      → length msg ≡ space - hdr_len
      → (syslog_add rounds s tv msg).write_pos ≡ s.buff_size + 1
  syslog_add_overruns room full = omega (arith, taken (omega (arith, full)), full, room)

  -- What an entry of `n` bytes leaves: the write position behind it, and its length in front of it.
  pub record Enters (n : ℕ) (r : Syslog) : Type 0 where
    pub ends : r.write_pos ≡ s.write_pos + n
    pub inside : r.write_pos ≤ s.buff_size
    pub steps : read_length (bytes_of r.msg_buff) s.write_pos ≡ n
    pub old : r.read_pos ≡ s.read_pos

  -- If the space between the write position and the end of the buffer is used, and an entry fits with
  -- its header and its end, then iw_syslog_add puts the write position right behind it, inside the
  -- buffer, writes the length that leads a reader from the entry to that position, and clears no old
  -- message. The buffer is smaller than 4 GiB.
  pub syslog_add-Enters :
      length (bytes_of s.msg_buff) ≡ s.buff_size
      → length tv ≡ 16
      → s.buff_size < 2 ^ 32
      → s.write_pos + entry_length msg ≤ s.buff_size
      → Enters (entry_length msg) (syslog_add rounds s tv msg)
  unfolding write_entry add_second
  syslog_add-Enters whole stamp small room =
      let short : ltb (space - hdr_len) (length msg) ≡ false = ground arith in
      let b = bytes_of (with_text s s.write_pos (space - hdr_len) msg).msg_buff in
      let kept : length b ≡ s.buff_size =
        length-write_at (bytes_of s.msg_buff) (printed (space - hdr_len) msg)
          (s.write_pos + hdr_len)
        ∙ whole in
      rw (first_try, write_entry, short)
        (record {
          ends = refl;
          inside = room;
          steps =
              length_read b tv s.write_pos (entry_length msg) (omega (arith, kept, stamp, room))
                (omega (arith, room, small));
          old = refl;
        })
