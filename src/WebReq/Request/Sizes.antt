-- ===== src/WebReq/Request/Sizes.antt =====
-- iw_web_req_parse of src/iw_web_req.c leaves the length of the request as the caller has set it.
use insta_works.Base.{
  ℕ, zero, suc, ◌+◌, ◌≡◌, refl, sym, subst, ◌∙◌, ap, Bool, true, false, Bool-cases, Option-cases,
  inl, inr, Option, some, ◌==◌, u32, ◌-◌, ◌^◌, ltb, drop,
}
use insta_works.Base.Int.{ℤ}
use insta_works.Util.{util_strtoll}
use insta_works.Parse.{
  ParseIndex, crlf, space, colon, query, find_token, is_token, read_to_token, casecmp,
}
use insta_works.WebReq.Words.{content_length_text, content_type_text}
use insta_works.WebReq.Request.{
  WebReq, WebParse, Method, Parsing, next, returns, faults, and_then, method_of, is_none,
  add_header, parse_query, get_header,
}
use insta_works.WebReq.Request.Line.{
  or_fault, parse_version, parse_path, parse_uri, set_method, parse_method, parse_request_line,
}
use insta_works.WebReq.Request.Fields.{
  put_length, set_length, header_value, header_line, headers_loop, parse_headers,
}
use insta_works.WebReq.Request.Parser.{parse_content, is_form, parse_form, finish, parse}
use insta_works.WebReq.Request.Queries.{query-Only}

-- The length of the request with which a part of the parse ends.
unfoldable Sized : ℕ → Parsing → Type 0
Sized n (next req) = req.len ≡ n
Sized n (returns p req) = req.len ≡ n
Sized n faults = Unit

Sized-and_then :
    (n : ℕ) (p : Parsing) (f : WebReq → Parsing)
    → Sized n p
    → ((req : WebReq) → Sized req.len (f req))
    → Sized n (and_then p f)
unfolding Sized and_then
Sized-and_then n (next req) f s h = subst (λ k. Sized k (f req)) s (h req)
Sized-and_then n (returns p req) f s h = s
Sized-and_then n faults f s h = s

module _ (mem : ℕ → Bool) where
  parse_version-Sized : (req : WebReq) → Sized req.len (parse_version mem req)
  unfolding Sized parse_version
  parse_version-Sized req =
      elim (Option-cases (read_to_token req.buff req.len req.parse_point crlf true)) [
        | inl e ↦ rw (parse_version, e) refl
        | inr (r, e) ↦ rw (parse_version, e) refl
      ]

  parse_query-Sized :
      (req : WebReq) (start end : ℕ) → Sized req.len (or_fault mem (parse_query mem req start end))
  unfolding Sized parse_query
  parse_query-Sized req start end = elim (Option-cases (parse_query mem req start end)) [
    | inl e ↦ rw (parse_query, e) tt
    | inr (req', e) ↦
        let (ps, n, same) = query-Only mem (end + 1) req end start req' e in
        rw (parse_query, e) (ap (λ r. r.len) same)
  ]

  parse_path-Sized : (offset : ℕ) (req : WebReq) → Sized req.len (parse_path mem offset req)
  unfolding Sized parse_path
  parse_path-Sized offset req =
      elim (Option-cases
        (read_to_token req.buff (u32 (req.uri.start + req.uri.len)) offset query false)) [
          | inl e ↦ rw (parse_path, e) refl
          | inr (r, e) ↦
              rw (parse_path, e)
                (parse_query-Sized (record req { path = r.1 }) r.0
                  (u32 (req.uri.start + req.uri.len)))
        ]

  parse_uri-Sized : (req : WebReq) → Sized req.len (parse_uri mem req)
  unfolding Sized parse_uri
  parse_uri-Sized req =
      elim (Option-cases (read_to_token req.buff req.len req.parse_point space true)) [
        | inl e ↦ rw (parse_uri, e) refl
        | inr (r, e) ↦
            let req' = record req { parse_point = r.0; uri = r.1 } in
            rw (parse_uri, e)
              (Sized-and_then req.len (parse_path mem req.parse_point req') (parse_version mem)
                (parse_path-Sized req.parse_point req') parse_version-Sized)
      ]

  set_method-Sized : (m : Method) (req : WebReq) → Sized req.len (set_method mem m req)
  unfolding Sized set_method
  set_method-Sized m req = elim (Bool-cases (is_none m)) [
    | inl e ↦ rw (set_method, e) refl
    | inr e ↦ rw (set_method, e) (parse_uri-Sized (record req { method = m }))
  ]

  parse_method-Sized : (req : WebReq) → Sized req.len (parse_method mem req)
  unfolding Sized parse_method
  parse_method-Sized req =
      elim (Option-cases (read_to_token req.buff req.len req.parse_point space true)) [
        | inl e ↦ rw (parse_method, e) refl
        | inr (r, e) ↦
            rw (parse_method, e)
              (set_method-Sized (method_of req.buff r.1) (record req { parse_point = r.0 }))
      ]

  parse_request_line-Sized : (req : WebReq) → Sized req.len (parse_request_line mem req)
  unfolding Sized parse_request_line
  parse_request_line-Sized req = elim (Bool-cases (is_none req.method)) [
    | inr e ↦ rw (parse_request_line, e) refl
    | inl e ↦ elim (Option-cases (find_token req.buff req.len 0 crlf)) [
      | inl f ↦ rw (parse_request_line, e, f) refl
      | inr (i, f) ↦ rw (parse_request_line, e, f) (parse_method-Sized req)
    ]
  ]

  put_length-len : (r : Bool × ℤ) (req : WebReq) → (put_length mem r req).len ≡ req.len
  unfolding put_length
  put_length-len (true, n) req = refl
  put_length-len (false, n) req = refl

  set_length-len :
      (name value : ParseIndex) (req : WebReq) → (set_length mem name value req).len ≡ req.len
  unfolding set_length
  set_length-len name value req = elim (Bool-cases (casecmp content_length_text req.buff name)) [
    | inr e ↦ rw (set_length, e) refl
    | inl e ↦ rw (set_length, e) (put_length-len (util_strtoll (drop value.start req.buff) 10) req)
  ]

  add_header-len :
      (req : WebReq) (name : ParseIndex) (value : Option ParseIndex)
      → (add_header mem req name value).len ≡ req.len
  unfolding add_header
  add_header-len req name value = elim (Bool-cases (mem req.allocs)) [
    | inl e ↦ rw (add_header, e) refl
    | inr e ↦ rw (add_header, e) refl
  ]

  header_value-Sized :
      (name : ParseIndex) (req : WebReq) → Sized req.len (header_value mem name req)
  unfolding Sized header_value
  header_value-Sized name req =
      elim (Option-cases (read_to_token req.buff req.len req.parse_point crlf true)) [
        | inl e ↦ rw (header_value, e) refl
        | inr (r, e) ↦
            let req' = record req { parse_point = r.0 } in
            rw (header_value, e)
              (add_header-len (set_length mem name r.1 req') name (some r.1)
                ∙ set_length-len name r.1 req')
      ]

  header_line-Sized : (req : WebReq) → Sized req.len (header_line mem req)
  unfolding Sized header_line
  header_line-Sized req = elim (Option-cases (find_token req.buff req.len req.parse_point crlf)) [
    | inl e ↦ rw (header_line, e) refl
    | inr (i, e) ↦ elim (Option-cases (read_to_token req.buff req.len req.parse_point colon true)) [
      | inl f ↦ rw (header_line, e, f) refl
      | inr (r, f) ↦
          rw (header_line, e, f) (header_value-Sized r.1 (record req { parse_point = r.0 }))
    ]
  ]

  headers_loop-Sized : (k : ℕ) (req : WebReq) → Sized req.len (headers_loop mem k req)
  unfolding Sized headers_loop
  headers_loop-Sized zero req = refl
  headers_loop-Sized (suc k) req = elim (Bool-cases req.headers_complete) [
    | inl c ↦ rw (headers_loop, c) refl
    | inr c ↦ elim (Option-cases (is_token req.buff req.len req.parse_point crlf)) [
      | inr (i, e) ↦ rw (headers_loop, c, e) refl
      | inl e ↦
          rw (headers_loop, c, e)
            (Sized-and_then req.len (header_line mem req) (λ req'. headers_loop mem k req')
              (header_line-Sized req) (headers_loop-Sized k))
    ]
  ]

  parse_content-Sized : (req : WebReq) → Sized req.len (parse_content mem req)
  unfolding Sized parse_content
  parse_content-Sized req = elim (Bool-cases (req.content_length == 0)) [
    | inl e ↦ rw (parse_content, e) refl
    | inr e ↦
        elim (Bool-cases (ltb (u32 (req.len + (2 ^ 32 - req.parse_point))) req.content_length)) [
          | inl f ↦ rw (parse_content, e, f) refl
          | inr f ↦ rw (parse_content, e, f) refl
        ]
  ]

  parse_form-Sized : (req : WebReq) → Sized req.len (parse_form mem req)
  unfolding Sized parse_form
  parse_form-Sized req =
      elim (Bool-cases (is_form mem req (get_header req (some content_type_text)))) [
        | inr e ↦ rw (parse_form, e) refl
        | inl e ↦
            rw (parse_form, e)
              (parse_query-Sized req req.content.start (u32 (req.content.start + req.content.len)))
      ]

  finish-len :
      (n : ℕ) (p : Parsing) (r : WebParse × WebReq)
      → Sized n p
      → finish mem p ≡ some r
      → r.1.len ≡ n
  unfolding Sized finish
  finish-len n (next req) r s e = let same : req.len ≡ r.1.len = cc in sym same ∙ s
  finish-len n (returns p req) r s e = let same : req.len ≡ r.1.len = cc in sym same ∙ s
  finish-len n faults r s e = cc

  -- A call of iw_web_req_parse that returns leaves the request's length as it was.
  pub parse-len :
      (req : WebReq) (r : WebParse × WebReq) → parse mem req ≡ some r → r.1.len ≡ req.len
  unfolding parse parse_headers
  parse-len req r e =
      let line = parse_request_line-Sized req in
      let heads =
        Sized-and_then req.len (parse_request_line mem req) (parse_headers mem) line
          (λ q. headers_loop-Sized (q.len + 1) q) in
      let body = Sized-and_then req.len _ (parse_content mem) heads parse_content-Sized in
      let form = Sized-and_then req.len _ (parse_form mem) body parse_form-Sized in
      finish-len req.len _ r form e
