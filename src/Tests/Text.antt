-- ===== src/Tests/Text.antt =====
-- The parser, the buffer and the text functions of src/iw_parse.c, src/iw_buff.c, src/iw_util.c and
-- src/iw_web_req.c on small inputs.
use insta_works.Base.{ℕ, ◌<◌, ◌≡◌, true, some, List, [], ◌∷◌, ◌++◌, arith, length}
use insta_works.Buff.{Buff, create, add_data}
use insta_works.Buff.Queue.{Contains, create-Contains, Adds, add_data-Adds}
use insta_works.Parse.{ParseIndex, read_to_token, space}
use insta_works.Parse.Scan.{IsString}
use insta_works.Parse.Read.{Reads, read_to_token-Reads}
use insta_works.Util.Number.{decimal, lower_case}
use insta_works.WebReq.{urldecode, sanitize}
use insta_works.WebReq.Url.{Encodes, urldecode-Encodes}
use insta_works.WebReq.Escape.{escaped, Wrote, sanitize-Wrote}

abbrev line : List ℕ
line = b'G' ∷ b'E' ∷ b'T' ∷ b' ' ∷ b'/' ∷ b'\r' ∷ b'\n' ∷ []

read_to_token-Reads_example : Reads line 7 0 space true (read_to_token line 7 0 space true)
read_to_token-Reads_example = read_to_token-Reads line 7 0 space true (omega arith) (omega arith)

abbrev slash : ParseIndex
slash = record { start = 4; len = 1 }

slash-IsString : IsString (b'/' ∷ [])
slash-IsString = (omega arith, tt)

abbrev start : Buff
start = (create true 2 10).1

add_data-Adds_example :
    Adds start [] (1 ∷ 2 ∷ 3 ∷ []) true (add_data true (9 ∷ 9 ∷ 9 ∷ []) start (1 ∷ 2 ∷ 3 ∷ []))
unfolding create
add_data-Adds_example =
    add_data-Adds true (9 ∷ 9 ∷ 9 ∷ []) start [] (1 ∷ 2 ∷ 3 ∷ [])
      (create-Contains 2 10 (omega arith)) (omega arith) (omega arith)

abbrev filled : Buff
filled = (add_data true (9 ∷ 9 ∷ 9 ∷ []) start (1 ∷ 2 ∷ 3 ∷ [])).1

filled-Contains : Contains filled (1 ∷ 2 ∷ 3 ∷ [])
unfolding create
filled-Contains =
    let a =
      add_data-Adds true (9 ∷ 9 ∷ 9 ∷ []) start [] (1 ∷ 2 ∷ 3 ∷ [])
        (create-Contains 2 10 (omega arith)) (omega arith) (omega arith) in
    rw a.returns at a.contains

urldecode-Encodes_example :
    urldecode true ((b'a' ∷ b'%' ∷ b'2' ∷ b'f' ∷ b'+' ∷ []) ++ (b'&' ∷ [])) 5
    ≡ some (b'a' ∷ 47 ∷ b' ' ∷ [])
urldecode-Encodes_example =
    urldecode-Encodes (b'&' ∷ [])
      (Encodes.plain b'a' (λ e. omega arith) (λ e. omega arith)
        (Encodes.percent (decimal 2 (omega arith)) (lower_case 5 (omega arith))
          (Encodes.plus Encodes.done)))
      (omega arith)

abbrev tag : List ℕ
tag = b'<' ∷ b'b' ∷ []

short_enough : length (escaped tag) < 8
unfolding escaped
short_enough = omega arith

sanitize-Wrote_example :
    ((sanitize tag (0 ∷ 0 ∷ 0 ∷ 0 ∷ 0 ∷ 0 ∷ 0 ∷ 0 ∷ [])).0 ≡ true)
    × Wrote 8 (escaped tag) (sanitize tag (0 ∷ 0 ∷ 0 ∷ 0 ∷ 0 ∷ 0 ∷ 0 ∷ 0 ∷ [])).1
sanitize-Wrote_example = sanitize-Wrote tag (0 ∷ 0 ∷ 0 ∷ 0 ∷ 0 ∷ 0 ∷ 0 ∷ 0 ∷ []) short_enough

too_long : 1 < length (escaped (b'<' ∷ []))
unfolding escaped
too_long = omega arith
