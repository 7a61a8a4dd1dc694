-- ===== src/WebReq/Request/Line.antt =====
-- src/iw_web_req.c: the request line in iw_web_req_parse.
use insta_works.Base.{ℕ, ◌+◌, Bool, true, false, Option, none, some, if◌then◌else◌, u32}
use insta_works.Parse.{crlf, space, query, find_token, read_to_token}
use insta_works.WebReq.Request.{
  Method, WebReq, Parsing, and_then, method_of, is_none, parse_query, parse_incomplete, parse_error,
  next, returns, faults,
}

-- Whether the n-th call of the allocator gives memory.
module _ (mem : ℕ → Bool) where
  abbrev pub or_fault : Option WebReq → Parsing
  or_fault none = faults
  or_fault (some req) = next req

  unfoldable pub parse_version : WebReq → Parsing
  unfolding read_to_token
  parse_version req = elim (read_to_token req.buff req.len req.parse_point crlf true) [
    | none ↦ returns parse_error req
    | some r ↦ next (record req { parse_point = r.0; version = r.1 })
  ]

  -- The path and the parameters of the URI, which begins behind `offset`.
  unfoldable pub parse_path : ℕ → WebReq → Parsing
  unfolding read_to_token parse_query
  parse_path offset req =
      let end = u32 (req.uri.start + req.uri.len) in
      elim (read_to_token req.buff end offset query false) [
        | none ↦ next (record req { path = req.uri })
        | some r ↦ or_fault (parse_query mem (record req { path = r.1 }) r.0 end)
      ]

  unfoldable pub parse_uri : WebReq → Parsing
  unfolding read_to_token and_then parse_path parse_version
  parse_uri req = elim (read_to_token req.buff req.len req.parse_point space true) [
    | none ↦ returns parse_error req
    | some r ↦
        and_then (parse_path req.parse_point (record req { parse_point = r.0; uri = r.1 }))
          parse_version
  ]

  unfoldable pub set_method : Method → WebReq → Parsing
  unfolding parse_uri
  set_method m req =
      if is_none m then returns parse_error req else parse_uri (record req { method = m })

  unfoldable pub parse_method : WebReq → Parsing
  unfolding read_to_token method_of set_method
  parse_method req = elim (read_to_token req.buff req.len req.parse_point space true) [
    | none ↦ returns parse_error req
    | some r ↦ set_method (method_of req.buff r.1) (record req { parse_point = r.0 })
  ]

  unfoldable pub parse_request_line : WebReq → Parsing
  unfolding find_token parse_method
  parse_request_line req =
      if is_none req.method
      then elim (find_token req.buff req.len 0 crlf) [
        | none ↦ returns parse_incomplete req
        | some _ ↦ parse_method req
      ]
      else next req
