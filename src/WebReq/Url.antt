-- ===== src/WebReq/Url.antt =====
-- iw_web_req_urldecode inverts URL encoding.
use insta_works.Base.{
  ℕ, zero, suc, ◌+◌, ◌*◌, ◌%◌, ◌^◌, ◌≤◌, ◌<◌, ◌≡◌, ◌≢◌, refl, true, false, some, List, [], ◌∷◌,
  ◌++◌, arith, ◌==◌, u32, ltb, length, get_or,
}
use insta_works.Util.Number.{HexDigit, strtoll-hex}
use insta_works.WebReq.{urldecode_loop, urldecode}

-- `url` is a URL encoding of `text`: any byte may be written as a percent sign and two hexadecimal
-- digits, a space as a plus, and any byte but the percent sign and the plus as itself.
pub data Encodes : List ℕ → List ℕ → Type 0 where
  done : Encodes [] []
  plain :
      {url text : List ℕ} (c : ℕ)
      → c ≢ b'%'
      → c ≢ b'+'
      → Encodes url text
      → Encodes (c ∷ url) (c ∷ text)
  plus : {url text : List ℕ} → Encodes url text → Encodes (b'+' ∷ url) (b' ' ∷ text)
  percent :
      {url text : List ℕ} {h l a b : ℕ}
      → HexDigit h a
      → HexDigit l b
      → Encodes url text
      → Encodes (b'%' ∷ h ∷ l ∷ url) ((a * 16 + b) ∷ text)

HexDigit-lt : {h a : ℕ} → HexDigit h a → a < 16
HexDigit-lt (HexDigit.decimal v p) = omega arith
HexDigit-lt (HexDigit.lower_case v p) = omega arith
HexDigit-lt (HexDigit.upper_case v p) = omega arith

-- From the index `i` on the string reads as `l`.
record ReadsAs (str : List ℕ) (i : ℕ) (l : List ℕ) : Type 0 where
  bytes : (j : ℕ) → get_or str (i + j) 0 ≡ get_or l j 0

module _ {str : List ℕ} {i c : ℕ} {l : List ℕ} (r : ReadsAs str i (c ∷ l)) where
  reads_head : get_or str i 0 ≡ c
  reads_head = let same : i + 0 ≡ i = omega arith in rw same at (r.bytes 0)

  reads_tail : ReadsAs str (i + 1) l
  reads_tail = record {
    bytes = λ j. let next : i + 1 + j ≡ i + suc j = omega arith in rw next (r.bytes (suc j));
  }

-- The loop at the index `i`, where an encoding stands and anything may follow it.
loop-Encodes :
    (str : List ℕ) (len k i : ℕ) {url text : List ℕ} (after : List ℕ)
    → Encodes url text
    → ReadsAs str i (url ++ after)
    → i + length url ≡ len
    → len ≤ i + k
    → len + 3 < 2 ^ 32
    → urldecode_loop str len k i ≡ some text
unfolding urldecode_loop
loop-Encodes str len zero i after done r total fuel small = refl
loop-Encodes str len (suc k) i after done r total fuel small =
    let test : ltb i len ≡ false = ground arith in rw (urldecode_loop, test)
loop-Encodes str len zero i after (plain c np ns url) r total fuel small = absurd (omega arith)
loop-Encodes str len (suc k) i after (plain c np ns url) r total fuel small =
    let test : ltb i len ≡ true = ground arith in
    let percents : (c == b'%') ≡ false = ground arith in
    let pluses : (c == b'+') ≡ false = ground arith in
    let next : u32 (i + 1) ≡ i + 1 = omega arith in
    let rest =
      loop-Encodes str len k (i + 1) after url (reads_tail r) (omega arith) (omega arith) small in
    rw (urldecode_loop, test, reads_head r, percents, reads_head r, pluses, next, rest)
loop-Encodes str len zero i after (plus url) r total fuel small = absurd (omega arith)
loop-Encodes str len (suc k) i after (plus url) r total fuel small =
    let test : ltb i len ≡ true = ground arith in
    let next : u32 (i + 1) ≡ i + 1 = omega arith in
    let rest =
      loop-Encodes str len k (i + 1) after url (reads_tail r) (omega arith) (omega arith) small in
    rw (urldecode_loop, test, reads_head r, reads_head r, next, rest)
loop-Encodes str len zero i after (percent h l url) r total fuel small = absurd (omega arith)
loop-Encodes str len (suc k) i after (percent {a} {b} h l url) r total fuel small =
    let test : ltb i len ≡ true = ground arith in
    let next : u32 (i + 3) ≡ i + 1 + 1 + 1 = omega arith in
    let two : i + 2 ≡ i + 1 + 1 = omega arith in
    let byte : (a * 16 + b) % 256 ≡ a * 16 + b = omega (arith, HexDigit-lt h, HexDigit-lt l) in
    let r' = reads_tail (reads_tail r) in
    let rest =
      loop-Encodes str len k (i + 1 + 1 + 1) after url (reads_tail r') (omega arith) (omega arith)
        small in
    rw (
      urldecode_loop,
      test,
      reads_head r,
      two,
      reads_head (reads_tail r),
      reads_head r',
      strtoll-hex h l,
      next,
      byte,
      rest,
    )

-- iw_web_req_urldecode of a URL encoding of less than 2^32 - 3 bytes, with memory for the copy, is the text that was encoded, whatever follows the encoding
-- in the buffer.
pub urldecode-Encodes :
    {url text : List ℕ} (after : List ℕ)
    → Encodes url text
    → length url + 3 < 2 ^ 32
    → urldecode true (url ++ after) (length url) ≡ some text
unfolding urldecode
urldecode-Encodes {url} after e small =
    let start : ReadsAs (url ++ after) 0 (url ++ after) = record {
      bytes = λ j. let same : 0 + j ≡ j = omega arith in rw same;
    } in
    loop-Encodes (url ++ after) (length url) (length url) 0 after e start (omega arith)
      (omega arith) small
