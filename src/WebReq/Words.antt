-- ===== src/WebReq/Words.antt =====
-- The strings that src/iw_web_req.c compares the parts of a request with.
use insta_works.Base.{ℕ, List, [], ◌∷◌}

abbrev pub get_text : List ℕ
get_text = b'G' ∷ b'E' ∷ b'T' ∷ []

abbrev pub head_text : List ℕ
head_text = b'H' ∷ b'E' ∷ b'A' ∷ b'D' ∷ []

abbrev pub post_text : List ℕ
post_text = b'P' ∷ b'O' ∷ b'S' ∷ b'T' ∷ []

abbrev pub put_text : List ℕ
put_text = b'P' ∷ b'U' ∷ b'T' ∷ []

abbrev pub delete_text : List ℕ
delete_text = b'D' ∷ b'E' ∷ b'L' ∷ b'E' ∷ b'T' ∷ b'E' ∷ []

abbrev pub trace_text : List ℕ
trace_text = b'T' ∷ b'R' ∷ b'A' ∷ b'C' ∷ b'E' ∷ []

abbrev pub connect_text : List ℕ
connect_text = b'C' ∷ b'O' ∷ b'N' ∷ b'N' ∷ b'E' ∷ b'C' ∷ b'T' ∷ []

abbrev pub content_length_text : List ℕ
content_length_text =
    b'C' ∷ b'o' ∷ b'n' ∷ b't' ∷ b'e' ∷ b'n' ∷ b't' ∷ b'-' ∷ b'L' ∷ b'e' ∷ b'n' ∷ b'g' ∷ b't' ∷ b'h'
    ∷ []

abbrev pub content_type_text : List ℕ
content_type_text =
    b'C' ∷ b'o' ∷ b'n' ∷ b't' ∷ b'e' ∷ b'n' ∷ b't' ∷ b'-' ∷ b'T' ∷ b'y' ∷ b'p' ∷ b'e' ∷ []

abbrev pub form_text : List ℕ
form_text =
    b'a' ∷ b'p' ∷ b'p' ∷ b'l' ∷ b'i' ∷ b'c' ∷ b'a' ∷ b't' ∷ b'i' ∷ b'o' ∷ b'n' ∷ b'/' ∷ b'x' ∷ b'-'
    ∷ b'w' ∷ b'w' ∷ b'w' ∷ b'-' ∷ b'f' ∷ b'o' ∷ b'r' ∷ b'm' ∷ b'-' ∷ b'u' ∷ b'r' ∷ b'l' ∷ b'e'
    ∷ b'n' ∷ b'c' ∷ b'o' ∷ b'd' ∷ b'e' ∷ b'd' ∷ []
