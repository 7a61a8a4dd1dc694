-- ===== src/WebReq/Request/Headers.antt =====
-- The loop over the headers of iw_web_req_parse: it ends within its rounds, at the empty line.
use insta_works.Base.{
  ℕ, zero, suc, ◌+◌, ◌≤◌, ◌<◌, ◌≡◌, refl, Bool, true, false, Bool-cases, Option-cases, inl, inr,
  some, arith, if◌then◌else◌, drop,
}
use insta_works.Base.Int.{ℤ}
use insta_works.Parse.{ParseIndex, crlf, colon, find_token, is_token, read_to_token, casecmp}
use insta_works.Util.{util_strtoll}
use insta_works.WebReq.Request.{WebReq, add_header}
use insta_works.WebReq.Request.Fields.{
  put_length, set_length, header_value, header_line, headers_loop, parse_headers,
}
use insta_works.WebReq.Words.{content_length_text}
use insta_works.WebReq.Request.Bounds.{
  Within, HeadersWithin-append, IsBounded, read-Fits, Kept, Kept-and_then, HasMethod, at_point,
}

module _ (mem : ℕ → Bool) where
  -- The request line and the empty line were read.
  abbrev pub HeadersRead : WebReq → Type 0
  HeadersRead req = HasMethod mem req × (req.headers_complete ≡ true)

  -- What a header's line does to the request.
  record Advances (req req' : WebReq) : Type 0 where
    pub bounded : IsBounded req'
    pub method : req'.method ≡ req.method
    pub forward : req.parse_point < req'.parse_point
    pub len : req'.len ≡ req.len

  set_length_only :
      (name value : ParseIndex) (req : WebReq)
      → (n : ℕ) × (set_length mem name value req ≡ record req { content_length = n })
  unfolding set_length put_length
  set_length_only name value req =
      put (casecmp content_length_text req.buff name) (util_strtoll (drop value.start req.buff) 10)
    where
      put :
          (c : Bool) (r : Bool × ℤ)
          → (n : ℕ) × ((if c then put_length mem r req else req)
              ≡ record req { content_length = n })
      put false r = (req.content_length, refl)
      put true (false, z) = (req.content_length, refl)
      put true (true, z) = (_, refl)

  add_header-Advances :
      (req : WebReq) (n point : ℕ) (name value : ParseIndex)
      → IsBounded req
      → req.parse_point < point
      → point ≤ req.len
      → Within req.len name
      → Within req.len value
      → Advances req (
          add_header mem (record req { parse_point = point; content_length = n }) name (some value))
  unfolding add_header
  add_header-Advances req n point name value b less le in_name in_value =
      elim (Bool-cases (mem req.allocs)) [
        | inl m ↦
            rw (add_header, m)
              (record {
                bounded = record {
                  small = b.small;
                  held = b.held;
                  point = le;
                  version = b.version;
                  uri = b.uri;
                  path = b.path;
                  content = b.content;
                  headers = HeadersWithin-append req.len req.headers _ b.headers in_name in_value;
                };
                method = refl;
                forward = less;
                len = refl;
              })
        | inr m ↦
            rw (add_header, m)
              (record {
                bounded = record {
                  small = b.small;
                  held = b.held;
                  point = le;
                  version = b.version;
                  uri = b.uri;
                  path = b.path;
                  content = b.content;
                  headers = b.headers;
                };
                method = refl;
                forward = less;
                len = refl;
              })
      ]

  header_line-Kept : (req : WebReq) → IsBounded req → Kept (Advances req) (header_line mem req)
  unfolding Kept header_line header_value
  header_line-Kept req b = elim (Option-cases (find_token req.buff req.len req.parse_point crlf)) [
    | inl e ↦ rw (header_line, e) (b, λ q. absurd cc)
    | inr (o, e) ↦ elim (Option-cases (read_to_token req.buff req.len req.parse_point colon true)) [
      | inl n ↦ rw (header_line, e, n) (b, λ q. absurd cc)
      | inr (r, n) ↦
          let f =
            read-Fits req.buff req.len req.parse_point colon true r (omega (arith, b.small))
              (omega (arith, b.small, b.point)) n in
          elim (Option-cases (read_to_token req.buff req.len r.0 crlf true)) [
            | inl v ↦
                rw (header_line, e, n, header_value, v)
                  (at_point mem req r.0 b f.point, λ q. absurd cc)
            | inr (s, v) ↦
                let g =
                  read-Fits req.buff req.len r.0 crlf true s (omega (arith, b.small))
                    (omega (arith, b.small, f.point)) v in
                let (k, set) = set_length_only r.1 s.1 (record req { parse_point = s.0 }) in
                let a =
                  add_header-Advances req k s.0 r.1 s.1 b (omega (arith, f.forward, g.forward))
                    g.point (omega (arith, f.within, f.point)) (omega (arith, g.within, g.point)) in
                rw (header_line, e, n, header_value, v, set) (a.bounded, a)
          ]
    ]
  ]

  completed : {req : WebReq} → IsBounded req → IsBounded (record req { headers_complete = true })
  completed b = record {
    small = b.small;
    held = b.held;
    point = b.point;
    version = b.version;
    uri = b.uri;
    path = b.path;
    content = b.content;
    headers = b.headers;
  }

  token_end :
      (req : WebReq) (o : ℕ) → is_token req.buff req.len req.parse_point crlf ≡ some o → o ≤ req.len
  unfolding is_token
  token_end req o e = ground arith

  headers_loop-Kept :
      (k : ℕ) (req : WebReq)
      → IsBounded req
      → HasMethod mem req
      → req.len < req.parse_point + k
      → Kept HeadersRead (headers_loop mem k req)
  unfolding Kept headers_loop
  headers_loop-Kept zero req b m fuel = absurd (omega (arith, b.point))
  headers_loop-Kept (suc k) req b m fuel = elim (Bool-cases req.headers_complete) [
    | inl c ↦ rw (headers_loop, c) (b, (m, c))
    | inr c ↦ elim (Option-cases (is_token req.buff req.len req.parse_point crlf)) [
      | inr (o, e) ↦
          rw (headers_loop, c, e) (completed (at_point mem req o b (token_end req o e)), (m, refl))
      | inl e ↦
          rw (headers_loop, c, e)
            (Kept-and_then (Advances req) HeadersRead (header_line mem req) (headers_loop mem k)
              (header_line-Kept req b)
              (λ req' b' a.
                headers_loop-Kept k req' b' (rw a.method m) (omega (arith, a.forward, a.len))))
    ]
  ]

  pub parse_headers-Kept :
      (req : WebReq) → IsBounded req → HasMethod mem req → Kept HeadersRead (parse_headers mem req)
  unfolding parse_headers
  parse_headers-Kept req b m = headers_loop-Kept (req.len + 1) req b m (omega arith)
