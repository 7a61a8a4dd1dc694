-- ===== src/WebReq/Escape.antt =====
-- iw_web_req_sanitize against the escaped text as a list.
use mathlib.Core.List.{append_assoc, append-nil}
use insta_works.Base.{
  ℕ, zero, suc, ◌+◌, ◌-◌, ◌≤◌, ◌<◌, ◌≡◌, ◌≢◌, refl, sym, ap, ◌∙◌, true, false, List, [], ◌∷◌, ◌++◌,
  arith, ◌==◌, if◌then◌else◌, codes, ltb, length, length-append, take,
}
use insta_works.Buff.Bounds.{length-write_at, take-write_at, take-append, take-take}
use insta_works.Buff.{write_at}
use insta_works.WebReq.{Escaping, escape_char, print_text, sanitize_loop, sanitize}

-- The character references of HTML for the five characters that includes/iw_web_req.h lists.
abbrev references : List (ℕ × List ℕ)
references =
    (b'&', codes "&amp;")
    ∷ (b'<', codes "&lt;")
    ∷ (b'>', codes "&gt;")
    ∷ (b'"', codes "&quot;")
    ∷ (39, codes "&#39;")
    ∷ []

abbrev reference_in : List (ℕ × List ℕ) → ℕ → List ℕ
reference_in [] c = c ∷ []
reference_in ((d, text) ∷ rs) c = if c == d then text else reference_in rs c

-- The whole escaped text, by that table.
unfoldable pub escaped : List ℕ → List ℕ
escaped [] = []
escaped (c ∷ cs) = reference_in references c ++ escaped cs

-- The same by the escapes of the code.
unfoldable escapes : List ℕ → List ℕ
unfolding escape_char
escapes [] = []
escapes (c ∷ cs) = escape_char c ++ escapes cs

escape_char-reference : (c : ℕ) → escape_char c ≡ reference_in references c
unfolding escape_char
escape_char-reference c = ground arith

escapes-escaped : (value : List ℕ) → escapes value ≡ escaped value
unfolding escapes escaped
escapes-escaped [] = refl
escapes-escaped (c ∷ cs) =
    ap (λ a. a ++ escapes cs) (escape_char-reference c)
    ∙ ap (λ b. reference_in references c ++ b) (escapes-escaped cs)

abbrev pub AllBytes : (ℕ → Type 0) → List ℕ → Type 0
AllBytes P [] = Unit
AllBytes P (c ∷ cs) = P c × AllBytes P cs

-- A byte that neither opens nor closes a tag or a quoted attribute.
abbrev pub IsInert : ℕ → Type 0
IsInert c = (c ≢ b'<') × (c ≢ b'>') × (c ≢ 39) × (c ≢ 34)

AllBytes-append :
    (xs ys : List ℕ) → AllBytes IsInert xs → AllBytes IsInert ys → AllBytes IsInert (xs ++ ys)
AllBytes-append [] ys hx hy = hy
AllBytes-append (x ∷ xs) ys hx hy = (hx.0, AllBytes-append xs ys hx.1 hy)

escape_char-IsInert : (c : ℕ) → AllBytes IsInert (escape_char c)
unfolding escape_char
escape_char-IsInert c = ground arith

escapes-IsInert : (value : List ℕ) → AllBytes IsInert (escapes value)
unfolding escapes
escapes-IsInert [] = tt
escapes-IsInert (c ∷ cs) =
    AllBytes-append (escape_char c) (escapes cs) (escape_char-IsInert c) (escapes-IsInert cs)

-- No byte of the escaped text is an angle bracket or a quote.
pub escaped-IsInert : (value : List ℕ) → AllBytes IsInert (escaped value)
escaped-IsInert value = rw (← escapes-escaped value) (escapes-IsInert value)

idx2-print_text :
    (n : ℕ) (text : List ℕ) (s : Escaping) → (print_text n text s).idx2 ≡ s.idx2 + length text
unfolding print_text
idx2-print_text n text s = ground arith

idx2-sanitize_loop :
    (n : ℕ) (value : List ℕ) (s : Escaping)
    → (sanitize_loop n value s).idx2 ≡ s.idx2 + length (escapes value)
unfolding sanitize_loop escapes
idx2-sanitize_loop n [] s = omega arith
idx2-sanitize_loop n (c ∷ cs) s =
    idx2-sanitize_loop n cs (print_text n (escape_char c) s)
    ∙ omega (arith, idx2-print_text n (escape_char c) s, length-append (escape_char c) (escapes cs))

overrun-print_text :
    (n : ℕ) (text : List ℕ) (s : Escaping) → s.overrun ≡ true → (print_text n text s).overrun ≡ true
unfolding print_text
overrun-print_text n text s h = ground arith

overrun-sanitize_loop :
    (n : ℕ) (value : List ℕ) (s : Escaping)
    → s.overrun ≡ true
    → (sanitize_loop n value s).overrun ≡ true
unfolding sanitize_loop
overrun-sanitize_loop n [] s h = h
overrun-sanitize_loop n (c ∷ cs) s h =
    overrun-sanitize_loop n cs (print_text n (escape_char c) s)
      (overrun-print_text n (escape_char c) s h)

past_the_end :
    (n : ℕ) (v w : List ℕ) (c : ℕ) (s : Escaping)
    → n < s.idx2 + length (escapes v)
    → (sanitize_loop n (v ++ (c ∷ w)) s).overrun ≡ true
unfolding sanitize_loop escapes
past_the_end n [] w c s lt =
    let wide : ltb n s.idx2 ≡ true = ground arith in
    let over : (print_text n (escape_char c) s).overrun ≡ true = rw (print_text, wide) in
    overrun-sanitize_loop n w (print_text n (escape_char c) s) over
past_the_end n (d ∷ v) w c s lt =
    past_the_end n v w c (print_text n (escape_char d) s) (
      omega (arith, idx2-print_text n (escape_char d) s, length-append (escape_char d) (escapes v)))

-- As soon as the escaped text of a proper prefix is longer than the buffer, the next character is
-- written behind the buffer's end.
pub sanitize_overruns :
    (v w : List ℕ) (c : ℕ) (buff : List ℕ)
    → length buff < length (escaped v)
    → ((sanitize (v ++ (c ∷ w)) buff).1).overrun ≡ true
unfolding sanitize
sanitize_overruns v w c buff lt =
    past_the_end (length buff) v w c _ (omega (arith, ap length (escapes-escaped v)))

-- What has been written: the bytes `text`, then a NUL if anything was written at all.
pub record Wrote (n : ℕ) (text : List ℕ) (s : Escaping) : Type 0 where
  pub room : length s.buff ≡ n
  pub index : s.idx2 ≡ length text
  pub bytes : take (length text) s.buff ≡ text
  pub ended : text ≢ [] → take (length text + 1) s.buff ≡ text ++ 0 ∷ []
  pub inside : s.overrun ≡ false

take-long : (n : ℕ) (l : List ℕ) → length l ≤ n → take n l ≡ l
take-long zero [] le = refl
take-long zero (x ∷ l) le = absurd (omega arith)
take-long (suc n) [] le = refl
take-long (suc n) (x ∷ l) le = ap (λ t. x ∷ t) (take-long n l (omega arith))

print_text-Wrote :
    (n : ℕ) (text more : List ℕ) (s : Escaping)
    → Wrote n text s
    → length text + length more < n
    → Wrote n (text ++ more) (print_text n more s)
unfolding print_text
print_text-Wrote n text more s w lt =
    let wide : ltb n s.idx2 ≡ false = ground (arith, w.index) in
    let short : (s.idx2 == n) ≡ false = ground (arith, w.index) in
    let cut : take (n - s.idx2 - 1) more ≡ more =
      take-long (n - s.idx2 - 1) more (omega (arith, w.index)) in
    let sum = length-append text more in
    let last = length-append more (0 ∷ []) in
    let k = length text + length more in
    let x = write_at (length text) (more ++ 0 ∷ []) s.buff in
    let all : take (k + 1) x ≡ (text ++ more) ++ 0 ∷ [] =
      take-write_at (length text) (k + 1) (more ++ 0 ∷ []) s.buff (omega arith)
        (omega (arith, w.room))
      ∙ ap (λ t. t ++ (more ++ 0 ∷ [])) w.bytes
      ∙ sym (append_assoc text more (0 ∷ [])) in
    let front : take k x ≡ text ++ more =
      sym (take-take k (k + 1) x (omega arith))
      ∙ ap (take k) all
      ∙ take-append k (text ++ more) (0 ∷ []) (omega arith)
      ∙ take-long k (text ++ more) (omega arith) in
    rw (print_text, wide, short, cut, w.index)
      (record {
        room = length-write_at (length text) (more ++ 0 ∷ []) s.buff ∙ w.room;
        index = omega arith;
        bytes = rw sum front;
        ended = λ _. rw sum all;
        inside = w.inside;
      })

sanitize_loop-Wrote :
    (n : ℕ) (value text : List ℕ) (s : Escaping)
    → Wrote n text s
    → length text + length (escapes value) < n
    → Wrote n (text ++ escapes value) (sanitize_loop n value s)
unfolding sanitize_loop escapes
sanitize_loop-Wrote n [] text s w lt = rw append-nil w
sanitize_loop-Wrote n (c ∷ cs) text s w lt =
    let sum = length-append (escape_char c) (escapes cs) in
    let front = length-append text (escape_char c) in
    rw (← append_assoc) (
      sanitize_loop-Wrote n cs (text ++ escape_char c) (print_text n (escape_char c) s)
        (print_text-Wrote n text (escape_char c) s w (omega arith)) (omega arith))

wrote :
    (value buff : List ℕ)
    → length (escapes value) < length buff
    → ((sanitize value buff).0 ≡ true) × Wrote (length buff) (escapes value) (sanitize value buff).1
unfolding sanitize
wrote value buff lt =
    let s : Escaping = record { buff = buff; idx2 = 0; overrun = false } in
    let start : Wrote (length buff) [] s = record {
      room = refl;
      index = refl;
      bytes = refl;
      ended = λ ne. absurd (ne refl);
      inside = refl;
    } in
    (
      ground (arith, idx2-sanitize_loop (length buff) value s),
      sanitize_loop-Wrote (length buff) value [] s start (omega arith),
    )

-- When the escaped text and a NUL fit the buffer, iw_web_req_sanitize returns true, never writes
-- behind the buffer, and leaves the escaped text in it; unless that is empty, a NUL follows it.
pub sanitize-Wrote :
    (value buff : List ℕ)
    → length (escaped value) < length buff
    → ((sanitize value buff).0 ≡ true) × Wrote (length buff) (escaped value) (sanitize value buff).1
sanitize-Wrote value buff lt =
    rw (← escapes-escaped value)
      (wrote value buff (omega (arith, ap length (escapes-escaped value))))

-- iw_web_req_sanitize returns true exactly if the escaped text and a NUL fit the buffer.
pub sanitize-fits :
    (value buff : List ℕ) → (sanitize value buff).0 ≡ ltb (length (escaped value)) (length buff)
unfolding sanitize
sanitize-fits value buff =
    let s : Escaping = record { buff = buff; idx2 = 0; overrun = false } in
    ground (arith, idx2-sanitize_loop (length buff) value s, ap length (escapes-escaped value))
