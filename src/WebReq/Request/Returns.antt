-- ===== src/WebReq/Request/Returns.antt =====
-- The parts of iw_web_req_parse before the body never dereference NULL.
use insta_works.Base.{
  ℕ, zero, suc, ◌≤◌, ◌≡◌, ◌≢◌, Bool, true, Bool-cases, Option-cases, inl, inr, some, arith,
}
use insta_works.Parse.{ParseIndex, crlf, space, colon, find_token, is_token, read_to_token}
use insta_works.WebReq.Request.{
  WebReq, Method, next, returns, faults, method_of, is_none, add_header, parse_incomplete,
  parse_error,
}
use insta_works.WebReq.Request.Line.{set_method, parse_method, parse_request_line}
use insta_works.WebReq.Request.Fields.{set_length, header_value, header_line, headers_loop}
use insta_works.WebReq.Request.Parser.{parse_content}
use insta_works.WebReq.Request.Bounds.{IsBounded, read-Fits}
use insta_works.WebReq.Request.Faults.{and_then-returns, parse_uri-returns}

module _ (mem : ℕ → Bool) where
  with_method :
      (req : WebReq) (point : ℕ) (m : Method)
      → IsBounded req
      → point ≤ req.len
      → IsBounded (record req { parse_point = point; method = m })
  with_method req point m b le = record {
    small = b.small;
    held = b.held;
    point = le;
    version = b.version;
    uri = b.uri;
    path = b.path;
    content = b.content;
    headers = b.headers;
  }

  set_method-returns :
      (m : Method) (req : WebReq)
      → IsBounded (record req { method = m })
      → set_method mem m req ≢ faults
  unfolding set_method
  set_method-returns m req b e = elim (Bool-cases (is_none m)) [
    | inl n ↦ let done : returns parse_error req ≡ faults = rw (set_method, n) at e in absurd cc
    | inr n ↦ parse_uri-returns mem (record req { method = m }) b (rw (set_method, n) at e)
  ]

  parse_method-returns : (req : WebReq) → IsBounded req → parse_method mem req ≢ faults
  unfolding parse_method
  parse_method-returns req b e =
      elim (Option-cases (read_to_token req.buff req.len req.parse_point space true)) [
        | inl h ↦
            let done : returns parse_error req ≡ faults = rw (parse_method, h) at e in absurd cc
        | inr (r, h) ↦
            let f =
              read-Fits req.buff req.len req.parse_point space true r (omega (arith, b.small))
                (omega (arith, b.small, b.point)) h in
            set_method-returns (method_of req.buff r.1) (record req { parse_point = r.0 })
              (with_method req r.0 (method_of req.buff r.1) b f.point) (rw (parse_method, h) at e)
      ]

  pub request_line-returns : (req : WebReq) → IsBounded req → parse_request_line mem req ≢ faults
  unfolding parse_request_line
  request_line-returns req b e = elim (Bool-cases (is_none req.method)) [
    | inr m ↦ let done : next req ≡ faults = rw (parse_request_line, m) at e in absurd cc
    | inl n ↦ elim (Option-cases (find_token req.buff req.len 0 crlf)) [
      | inl h ↦
          let done : returns parse_incomplete req ≡ faults = rw (parse_request_line, n, h) at e in
          absurd cc
      | inr (r, h) ↦ parse_method-returns req b (rw (parse_request_line, n, h) at e)
    ]
  ]

  header_value-returns : (name : ParseIndex) (req : WebReq) → header_value mem name req ≢ faults
  unfolding header_value
  header_value-returns name req e =
      elim (Option-cases (read_to_token req.buff req.len req.parse_point crlf true)) [
        | inl h ↦
            let done : returns parse_error req ≡ faults = rw (header_value, h) at e in absurd cc
        | inr (r, h) ↦
            let done : next (
                  add_header mem (set_length mem name r.1 (record req { parse_point = r.0 })) name
                    (some r.1))
                ≡ faults =
              rw (header_value, h) at e in
            absurd cc
      ]

  header_line-returns : (req : WebReq) → header_line mem req ≢ faults
  unfolding header_line
  header_line-returns req e =
      elim (Option-cases (find_token req.buff req.len req.parse_point crlf)) [
        | inl h ↦
            let done : returns parse_incomplete req ≡ faults = rw (header_line, h) at e in absurd cc
        | inr (o, h) ↦
            elim (Option-cases (read_to_token req.buff req.len req.parse_point colon true)) [
              | inl n ↦
                  let done : returns parse_error req ≡ faults = rw (header_line, h, n) at e in
                  absurd cc
              | inr (r, n) ↦
                  header_value-returns r.1 (record req { parse_point = r.0 })
                    (rw (header_line, h, n) at e)
            ]
      ]

  pub headers_loop-returns : (k : ℕ) (req : WebReq) → headers_loop mem k req ≢ faults
  unfolding headers_loop
  headers_loop-returns zero req e = cc
  headers_loop-returns (suc k) req e = elim (Bool-cases req.headers_complete) [
    | inl c ↦ let done : next req ≡ faults = rw (headers_loop, c) at e in absurd cc
    | inr c ↦ elim (Option-cases (is_token req.buff req.len req.parse_point crlf)) [
      | inr (o, h) ↦
          let done : next (record req { parse_point = o; headers_complete = true }) ≡ faults =
            rw (headers_loop, c, h) at e in
          absurd cc
      | inl h ↦
          and_then-returns mem (header_line mem req) (headers_loop mem k) (header_line-returns req)
            (λ req' q. headers_loop-returns k req') (rw (headers_loop, c, h) at e)
    ]
  ]

  pub parse_content-returns : (req : WebReq) → parse_content mem req ≢ faults
  unfolding parse_content
  parse_content-returns req e = ground arith
