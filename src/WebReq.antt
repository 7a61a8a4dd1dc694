-- ===== src/WebReq.antt =====
-- src/iw_web_req.c and includes/iw_web_req.h: the data of an HTTP request, URL decoding and HTML
-- escaping. The children have the request parser and the proofs.
pub mod Url
pub mod Escape
pub mod Words
pub mod Request
use insta_works.Base.{
  ℕ, zero, suc, ◌+◌, ◌-◌, ◌%◌, ◌^◌, Bool, true, false, ◌&&◌, ◌||◌, Option, none, some, List, [],
  ◌∷◌, ◌++◌, ◌==◌, if◌then◌else◌, u32, ltb, leb, length, get_or, take, drop,
}
use insta_works.Base.Int.{ℤ, pos, negsuc}
use insta_works.Buff.{write_at}
use insta_works.Util.{util_strtoll}

-- The conversion of a `long long` to a byte.
abbrev pub to_byte : ℤ → ℕ
to_byte (pos n) = n % 256
to_byte (negsuc n) = 255 - n % 256

abbrev pub cons_some : ℕ → Option (List ℕ) → Option (List ℕ)
cons_some c none = none
cons_some c (some cs) = some (c ∷ cs)

-- What follows the conversion of the two characters behind a percent sign.
unfoldable pub put_ascii : Bool × ℤ → Option (List ℕ) → Option (List ℕ)
put_ascii (false, ascii) rest = none
put_ascii (true, ascii) rest = cons_some (to_byte ascii) rest

-- The loop of iw_web_req_urldecode on `k` rounds: what it writes from here on, or NULL. `str` runs on
-- behind its `len` bytes, as the buffer does.
unfoldable pub urldecode_loop : List ℕ → ℕ → ℕ → ℕ → Option (List ℕ)
unfolding put_ascii
urldecode_loop str len zero str_idx = some []
urldecode_loop str len (suc k) str_idx = elim (ltb str_idx len) [
  | false ↦ some []
  | true ↦
      let c = get_or str str_idx 0 in
      let after_hex = urldecode_loop str len k (u32 (str_idx + 3)) in
      let after_char = urldecode_loop str len k (u32 (str_idx + 1)) in
      elim (c == b'%') [
        | true ↦
            let buff = get_or str (str_idx + 1) 0 ∷ get_or str (str_idx + 2) 0 ∷ [] in
            put_ascii (util_strtoll buff 16) after_hex
        | false ↦ cons_some (if c == b'+' then b' ' else c) after_char
      ]
]

-- `mem` says whether the copy's memory is there.
unfoldable pub urldecode : (mem : Bool) → List ℕ → ℕ → Option (List ℕ)
unfolding urldecode_loop
urldecode false str len = none
urldecode true str len = urldecode_loop str len len 0

-- The text that one character of iw_web_req_sanitize's input becomes.
unfoldable pub escape_char : ℕ → List ℕ
escape_char c =
    if c == b'<'
    then b'&' ∷ b'l' ∷ b't' ∷ b';' ∷ []
    else if c == b'>'
    then b'&' ∷ b'g' ∷ b't' ∷ b';' ∷ []
    else if c == 39
    then b'&' ∷ b'#' ∷ b'3' ∷ b'9' ∷ b';' ∷ []
    else if c == 34
    then b'&' ∷ b'q' ∷ b'u' ∷ b'o' ∷ b't' ∷ b';' ∷ []
    else if c == b'&'
    then b'&' ∷ b'a' ∷ b'm' ∷ b'p' ∷ b';' ∷ []
    else c ∷ []

-- The state of its loop: the buffer's bytes, `idx2`, and whether a write went past the buffer.
pub record Escaping : Type 0 where
  pub buff : List ℕ
  pub idx2 : ℕ
  pub overrun : Bool

-- `snprintf(buff+idx2, buff_len-idx2, text)`: it writes the text, cut off to leave room for a NUL, if
-- the size is not zero, and adds the whole length to `idx2`. A negative `buff_len-idx2` becomes a
-- `size_t` that cuts nothing off.
unfoldable pub print_text : ℕ → List ℕ → Escaping → Escaping
unfolding write_at
print_text buff_len text s =
    if ltb buff_len s.idx2
    then record s { idx2 = s.idx2 + length text; overrun = true }
    else if s.idx2 == buff_len
    then record s { idx2 = s.idx2 + length text }
    else record s {
      buff = write_at s.idx2 (take (buff_len - s.idx2 - 1) text ++ 0 ∷ []) s.buff;
      idx2 = s.idx2 + length text;
    }

unfoldable pub sanitize_loop : ℕ → List ℕ → Escaping → Escaping
unfolding escape_char print_text
sanitize_loop buff_len [] s = s
sanitize_loop buff_len (c ∷ cs) s =
    sanitize_loop buff_len cs (print_text buff_len (escape_char c) s)

-- The result, and the state in which the loop ends. `buff` is what the buffer holds before.
unfoldable pub sanitize : List ℕ → List ℕ → Bool × Escaping
unfolding sanitize_loop
sanitize value buff =
    let s = sanitize_loop (length buff) value (record { buff = buff; idx2 = 0; overrun = false }) in
    (ltb s.idx2 (length buff), s)
