-- ===== src/WebReq/Request/Fields.antt =====
-- src/iw_web_req.c: the loop over the headers in iw_web_req_parse.
use insta_works.Base.{ℕ, zero, suc, ◌+◌, Bool, true, false, none, some, if◌then◌else◌, drop}
use insta_works.Base.Int.{ℤ}
use insta_works.Parse.{ParseIndex, crlf, colon, find_token, is_token, read_to_token, casecmp}
use insta_works.Util.{util_strtoll}
use insta_works.WebReq.Words.{content_length_text}
use insta_works.WebReq.Request.{
  WebReq, Parsing, and_then, to_u32, add_header, parse_incomplete, parse_error, next, returns,
}

-- Whether the n-th call of the allocator gives memory.
module _ (mem : ℕ → Bool) where
  unfoldable pub put_length : Bool × ℤ → WebReq → WebReq
  put_length (true, content_length) req = record req { content_length = to_u32 content_length }
  put_length (false, content_length) req = req

  unfoldable pub set_length : ParseIndex → ParseIndex → WebReq → WebReq
  unfolding casecmp put_length
  set_length name value req =
      if casecmp content_length_text req.buff name
      then put_length (util_strtoll (drop value.start req.buff) 10) req
      else req

  unfoldable pub header_value : ParseIndex → WebReq → Parsing
  unfolding read_to_token set_length add_header
  header_value name req = elim (read_to_token req.buff req.len req.parse_point crlf true) [
    | none ↦ returns parse_error req
    | some r ↦
        next
          (add_header mem (set_length name r.1 (record req { parse_point = r.0 })) name (some r.1))
  ]

  unfoldable pub header_line : WebReq → Parsing
  unfolding read_to_token find_token header_value
  header_line req = elim (find_token req.buff req.len req.parse_point crlf) [
    | none ↦ returns parse_incomplete req
    | some _ ↦ elim (read_to_token req.buff req.len req.parse_point colon true) [
      | none ↦ returns parse_error req
      | some r ↦ header_value r.1 (record req { parse_point = r.0 })
    ]
  ]

  -- The loop over the headers, on `k` rounds.
  unfoldable pub headers_loop : ℕ → WebReq → Parsing
  unfolding is_token header_line and_then
  headers_loop zero req = next req
  headers_loop (suc k) req = elim req.headers_complete [
    | true ↦ next req
    | false ↦ elim (is_token req.buff req.len req.parse_point crlf) [
      | some point ↦ next (record req { parse_point = point; headers_complete = true })
      | none ↦ and_then (header_line req) (λ req'. headers_loop k req')
    ]
  ]

  unfoldable pub parse_headers : WebReq → Parsing
  unfolding headers_loop
  parse_headers req = headers_loop (req.len + 1) req
