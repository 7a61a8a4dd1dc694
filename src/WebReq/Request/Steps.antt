-- ===== src/WebReq/Request/Steps.antt =====
-- iw_web_req_parse as a whole keeps every index that it stores inside the bytes that were received.
use insta_works.Base.{
  ℕ, ◌+◌, ◌≤◌, ◌≡◌, refl, Bool, true, false, Bool-cases, Option-cases, inl, inr, Option, none, some,
  arith, u32,
}
use insta_works.Parse.{ParseIndex, crlf, space, query, find_token, read_to_token}
use insta_works.WebReq.Request.{WebReq, Method, method_of, is_none, parse_query}
use insta_works.WebReq.Request.Line.{
  or_fault, parse_version, parse_path, parse_uri, set_method, parse_method, parse_request_line,
}
use insta_works.WebReq.Request.Bounds.{
  Within, IsBounded, read-Fits, Kept, Kept-and_then, HasMethod, at_point, parse_version-Kept,
}
use insta_works.WebReq.Request.Queries.{Only, query-Only}

module _ (mem : ℕ → Bool) where
  Only-IsBounded : (req req' : WebReq) → Only mem req req' → IsBounded req → IsBounded req'
  Only-IsBounded req req' (ps, n, e) b = rw e (record {
    small = b.small;
    held = b.held;
    point = b.point;
    version = b.version;
    uri = b.uri;
    path = b.path;
    content = b.content;
    headers = b.headers;
  })

  Only-method : (req req' : WebReq) → Only mem req req' → req'.method ≡ req.method
  Only-method req req' (ps, n, e) = rw e

  pub or_fault-Kept :
      (P : WebReq → Type 0) (req : WebReq) (o : Option WebReq)
      → IsBounded req
      → P req
      → ((req' : WebReq) → o ≡ some req' → Only mem req req')
      → ((req' : WebReq) → Only mem req req' → P req → P req')
      → Kept P (or_fault mem o)
  unfolding Kept
  or_fault-Kept P req none b p only keep = tt
  or_fault-Kept P req (some req') b p only keep =
      (Only-IsBounded req req' (only req' refl) b, keep req' (only req' refl) p)

  with_path :
      (req : WebReq) (i : ParseIndex)
      → IsBounded req
      → Within req.len i
      → IsBounded (record req { path = i })
  with_path req i b w = record {
    small = b.small;
    held = b.held;
    point = b.point;
    version = b.version;
    uri = b.uri;
    path = w;
    content = b.content;
    headers = b.headers;
  }

  pub keeps_method :
      (req req' : WebReq) → Only mem req req' → HasMethod mem req → HasMethod mem req'
  keeps_method req req' o m = rw (Only-method req req' o) m

  parse_path-Kept :
      (offset : ℕ) (req : WebReq)
      → IsBounded req
      → HasMethod mem req
      → offset ≤ req.len
      → Kept (HasMethod mem) (parse_path mem offset req)
  unfolding Kept parse_path parse_query
  parse_path-Kept offset req b m le =
      let end : u32 (req.uri.start + req.uri.len) ≡ req.uri.start + req.uri.len =
        omega (arith, b.small, b.uri) in
      elim (Option-cases
        (read_to_token req.buff (req.uri.start + req.uri.len) offset query false)) [
          | inl e ↦ rw (parse_path, end, e) (with_path req req.uri b b.uri, m)
          | inr (r, e) ↦
              let f =
                read-Fits req.buff (req.uri.start + req.uri.len) offset query false r
                  (omega (arith, b.small, b.uri)) (omega (arith, b.small, le)) e in
              let inside : r.1.start + r.1.len ≤ req.len =
                omega (arith, f.point, f.within, b.uri) in
              let req' : WebReq = record req { path = r.1 } in
              rw (parse_path, end, e, end)
                (or_fault-Kept (HasMethod mem) req'
                  (parse_query mem req' r.0 (req.uri.start + req.uri.len))
                  (with_path req r.1 b inside) m
                  (query-Only mem (req.uri.start + req.uri.len + 1) req'
                    (req.uri.start + req.uri.len) r.0)
                  (keeps_method req'))
        ]

  parse_uri-Kept :
      (req : WebReq) → IsBounded req → HasMethod mem req → Kept (HasMethod mem) (parse_uri mem req)
  unfolding Kept parse_uri
  parse_uri-Kept req b m =
      elim (Option-cases (read_to_token req.buff req.len req.parse_point space true)) [
        | inl e ↦ rw (parse_uri, e) (b, λ q. absurd cc)
        | inr (r, e) ↦
            let f =
              read-Fits req.buff req.len req.parse_point space true r (omega (arith, b.small))
                (omega (arith, b.small, b.point)) e in
            let req' : WebReq = record req { parse_point = r.0; uri = r.1 } in
            let b' : IsBounded req' = record {
              small = b.small;
              held = b.held;
              point = f.point;
              version = b.version;
              uri = omega (arith, f.point, f.within);
              path = b.path;
              content = b.content;
              headers = b.headers;
            } in
            rw (parse_uri, e)
              (Kept-and_then (HasMethod mem) (HasMethod mem) (parse_path mem req.parse_point req')
                (parse_version mem) (parse_path-Kept req.parse_point req' b' m b.point)
                (parse_version-Kept mem))
      ]

  parse_method-Kept : (req : WebReq) → IsBounded req → Kept (HasMethod mem) (parse_method mem req)
  unfolding Kept parse_method
  parse_method-Kept req b =
      elim (Option-cases (read_to_token req.buff req.len req.parse_point space true)) [
        | inl e ↦ rw (parse_method, e) (b, λ q. absurd cc)
        | inr (r, e) ↦
            let f =
              read-Fits req.buff req.len req.parse_point space true r (omega (arith, b.small))
                (omega (arith, b.small, b.point)) e in
            let b' = at_point mem req r.0 b f.point in
            elim (Bool-cases (is_none (method_of req.buff r.1))) [
              | inl n ↦ rw (parse_method, e, set_method, n) (b', λ q. absurd cc)
              | inr n ↦
                  rw (parse_method, e, set_method, n)
                    (parse_uri-Kept
                      (record req { parse_point = r.0; method = method_of req.buff r.1 })
                      (with_method b') n)
            ]
      ]
    where
      with_method :
          {req : WebReq} {m : Method} → IsBounded req → IsBounded (record req { method = m })
      with_method b = record {
        small = b.small;
        held = b.held;
        point = b.point;
        version = b.version;
        uri = b.uri;
        path = b.path;
        content = b.content;
        headers = b.headers;
      }

  pub parse_request_line-Kept :
      (req : WebReq) → IsBounded req → Kept (HasMethod mem) (parse_request_line mem req)
  unfolding Kept parse_request_line
  parse_request_line-Kept req b = elim (Bool-cases (is_none req.method)) [
    | inr m ↦ rw (parse_request_line, m) (b, m)
    | inl n ↦ elim (Option-cases (find_token req.buff req.len 0 crlf)) [
      | inl e ↦ rw (parse_request_line, n, e) (b, λ q. absurd cc)
      | inr (r, e) ↦ rw (parse_request_line, n, e) (parse_method-Kept req b)
    ]
  ]
