-- ===== src/Tests/Web.antt =====
-- The request parser of src/iw_web_req.c on a small request, and on a form whose last name has no
-- value.
use insta_works.Base.{
  ℕ, ◌+◌, ◌≡◌, refl, Bool, true, Option, none, some, List, [], ◌∷◌, ◌++◌, arith, u32,
}
use insta_works.Parse.{
  equal, find_token, is_token, read_to_token, scan, token_at, strncmp_eq, strncasecmp_eq, cmp,
  casecmp, index_of, trim_start, trim_end,
}
use insta_works.Parse.Scan.{IsFirst}
use insta_works.Util.{util_strtoll, strtoll, read_sign, read_prefix, read_digits, skip_space}
use insta_works.WebReq.{urldecode, urldecode_loop}
use insta_works.WebReq.Words.{content_type_text, content_length_text, form_text}
use insta_works.WebReq.Request.{
  WebReq, WebParse, Method, received, next, and_then, method_of, add_header, going_on,
  add_parameter, add_pair, query_loop, parse_query, header_in, get_header, parse_complete,
  method_get,
}
use insta_works.WebReq.Request.Line.{
  parse_version, parse_path, parse_uri, set_method, parse_method, parse_request_line,
}
use insta_works.WebReq.Request.Fields.{
  put_length, set_length, header_value, header_line, headers_loop, parse_headers,
}
use insta_works.WebReq.Request.Parser.{parse_content, is_form, parse_form, finish, parse}
use insta_works.WebReq.Request.Whole.{Parsed, received-IsBounded, parse-Parsed}
use insta_works.WebReq.Request.Forms.{before_form, parse-faults}

abbrev plenty : ℕ → Bool
plenty n = true

abbrev get_line : List ℕ
get_line =
    b'G' ∷ b'E' ∷ b'T' ∷ b' ' ∷ b'/' ∷ b'?' ∷ b'a' ∷ b'=' ∷ b'1' ∷ b' ' ∷ b'H' ∷ b'\r' ∷ b'\n'
    ∷ b'\r' ∷ b'\n' ∷ []

abbrev outcome : Option (WebParse × WebReq) → Option (WebParse × Method × ℕ)
outcome none = none
outcome (some r) = some (r.0, r.1.method, r.1.parse_point)

get_outcome : outcome (parse plenty (received get_line)) ≡ some (parse_complete, method_get, 15)
unfolding parse received parse_request_line parse_headers parse_content parse_form finish and_then
    find_token is_token read_to_token scan token_at strncmp_eq index_of trim_start trim_end
    method_of cmp set_method parse_method parse_uri parse_path parse_version parse_query query_loop
    add_pair going_on add_parameter urldecode urldecode_loop headers_loop header_line get_header
    header_in is_form
get_outcome = refl

abbrev got : Option (WebParse × WebReq) → WebParse × WebReq
got none = (parse_complete, received [])
got (some r) = r

get_returns : parse plenty (received get_line) ≡ some (got (parse plenty (received get_line)))
unfolding parse received parse_request_line parse_headers parse_content parse_form finish and_then
    find_token is_token read_to_token scan token_at strncmp_eq index_of trim_start trim_end
    method_of cmp set_method parse_method parse_uri parse_path parse_version parse_query query_loop
    add_pair going_on add_parameter urldecode urldecode_loop headers_loop header_line get_header
    header_in is_form
get_returns = refl

parse-Parsed_example : Parsed (got (parse plenty (received get_line)))
unfolding received
parse-Parsed_example =
    parse-Parsed plenty (received get_line) (got (parse plenty (received get_line)))
      (received-IsBounded plenty get_line (omega arith)) get_returns

abbrev form_request : List ℕ
form_request =
    (b'P' ∷ b'O' ∷ b'S' ∷ b'T' ∷ b' ' ∷ b'/' ∷ b' ' ∷ b'H' ∷ b'\r' ∷ b'\n' ∷ [])
    ++ content_type_text
    ++ (b':' ∷ b' ' ∷ [])
    ++ form_text
    ++ (b'\r' ∷ b'\n' ∷ [])
    ++ content_length_text
    ++ (b':' ∷ b'2' ∷ b'\r' ∷ b'\n' ∷ b'\r' ∷ b'\n' ∷ b'a' ∷ b'=' ∷ [])

form_faults : parse plenty (received form_request) ≡ none
unfolding parse received parse_request_line parse_headers parse_content parse_form finish and_then
    find_token is_token read_to_token scan token_at strncmp_eq index_of trim_start trim_end
    method_of cmp set_method parse_method parse_uri parse_path parse_version parse_query query_loop
    add_pair going_on add_parameter urldecode urldecode_loop headers_loop header_line get_header
    header_in is_form strncasecmp_eq casecmp header_value set_length put_length add_header
    util_strtoll strtoll read_sign read_prefix read_digits skip_space
form_faults = refl

parse-faults_example :
    (req' : WebReq) × (before_form plenty (received form_request) ≡ next req')
    × (is_form plenty req' (get_header req' (some content_type_text)) ≡ true)
    × (parse_query plenty req' req'.content.start (u32 (req'.content.start + req'.content.len))
        ≡ none)
unfolding received
parse-faults_example =
    parse-faults plenty (received form_request)
      (received-IsBounded plenty form_request (omega arith)) form_faults

abbrev name_only : WebReq
name_only = record (received (b'a' ∷ b'=' ∷ [])) { parse_point = 2 }

equal-IsFirst : IsFirst name_only.buff (1 + 1) equal 0 1
unfolding received token_at strncmp_eq
equal-IsFirst = record {
  after = omega arith;
  within = omega arith;
  there = refl;
  first = λ q a b. let start : q ≡ 0 = omega arith in rw start refl;
}
