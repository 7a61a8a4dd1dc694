-- ===== src/WebReq/Request/Whole.antt =====
-- iw_web_req_parse as a whole: what it stores, and when it says that the request is complete.
use insta_works.Base.{
  ℕ, ◌+◌, ◌-◌, ◌^◌, ◌≤◌, ◌<◌, ◌≡◌, refl, Bool, true, false, Bool-cases, inl, inr, some, List, arith,
  ◌==◌, u32, ltb, length,
}
use insta_works.WebReq.Request.{
  WebReq, WebParse, Parsing, next, returns, faults, is_none, parse_query, get_header, received,
  parse_complete,
}
use insta_works.WebReq.Request.Line.{parse_request_line}
use insta_works.WebReq.Request.Fields.{parse_headers}
use insta_works.WebReq.Request.Parser.{parse_content, is_form, parse_form, finish, parse}
use insta_works.WebReq.Words.{content_type_text}
use insta_works.WebReq.Request.Bounds.{HeadersWithin, IsBounded, Kept, Kept-and_then, HasMethod}
use insta_works.WebReq.Request.Queries.{Only, query-Only}
use insta_works.WebReq.Request.Steps.{or_fault-Kept, parse_request_line-Kept}
use insta_works.WebReq.Request.Headers.{HeadersRead, parse_headers-Kept}

-- What a call leaves: every index in the received bytes; and after a complete request the method and
-- the end of the headers were read.
pub record Parsed (r : WebParse × WebReq) : Type 0 where
  pub bounded : IsBounded r.1
  pub method : r.0 ≡ parse_complete → is_none r.1.method ≡ false
  pub headers : r.0 ≡ parse_complete → r.1.headers_complete ≡ true
  pub complete : r.0 ≡ parse_complete → r.1.complete ≡ true

module _ (mem : ℕ → Bool) where
  parse_content-Kept :
      (req : WebReq)
      → IsBounded req
      → HeadersRead mem req
      → Kept (HeadersRead mem) (parse_content mem req)
  unfolding Kept parse_content
  parse_content-Kept req b h = elim (Bool-cases (req.content_length == 0)) [
    | inl z ↦ rw (parse_content, z) (b, h)
    | inr z ↦
        elim (Bool-cases (ltb (u32 (req.len + (2 ^ 32 - req.parse_point))) req.content_length)) [
          | inl l ↦ rw (parse_content, z, l) (b, λ q. absurd cc)
          | inr l ↦
              let fits : req.parse_point + req.content_length ≤ req.len =
                ground (arith, b.point, b.small) in
              let sum : u32 (req.parse_point + req.content_length)
                  ≡ req.parse_point + req.content_length =
                omega (arith, b.small) in
              rw (parse_content, z, l, sum)
                (
                  record {
                    small = b.small;
                    held = b.held;
                    point = fits;
                    version = b.version;
                    uri = b.uri;
                    path = b.path;
                    content = fits;
                    headers = b.headers;
                  },
                  h,
                )
        ]
  ]

  keeps_headers :
      (req req' : WebReq) → Only mem req req' → HeadersRead mem req → HeadersRead mem req'
  keeps_headers req req' (ps, n, e) h = rw e h

  parse_form-Kept :
      (req : WebReq)
      → IsBounded req
      → HeadersRead mem req
      → Kept (HeadersRead mem) (parse_form mem req)
  unfolding parse_form Kept parse_query
  parse_form-Kept req b h =
      elim (Bool-cases (is_form mem req (get_header req (some content_type_text)))) [
        | inr f ↦ rw (parse_form, f) (b, h)
        | inl f ↦
            let end = u32 (req.content.start + req.content.len) in
            rw (parse_form, f)
              (or_fault-Kept mem (HeadersRead mem) req (parse_query mem req req.content.start end) b
                h (query-Only mem (end + 1) req end req.content.start) (keeps_headers req))
      ]

  finish-Parsed :
      (p : Parsing) (r : WebParse × WebReq)
      → Kept (HeadersRead mem) p
      → finish mem p ≡ some r
      → Parsed r
  unfolding Kept finish
  finish-Parsed (next req) r k e =
      let same : (parse_complete, record req { complete = true }) ≡ r = cc in
      rw (← same) (record {
        bounded = finished k.0;
        method = λ q. k.1.0;
        headers = λ q. k.1.1;
        complete = λ q. refl;
      })
    where
      finished : {req : WebReq} → IsBounded req → IsBounded (record req { complete = true })
      finished b = record {
        small = b.small;
        held = b.held;
        point = b.point;
        version = b.version;
        uri = b.uri;
        path = b.path;
        content = b.content;
        headers = b.headers;
      }
  finish-Parsed (returns p req) r k e =
      let same : (p, req) ≡ r = cc in
      rw (← same) (record {
        bounded = k.0;
        method = λ q. absurd (k.1 q);
        headers = λ q. absurd (k.1 q);
        complete = λ q. absurd (k.1 q);
      })
  finish-Parsed faults r k e = absurd cc

  -- A call of iw_web_req_parse on a request of fewer than 2^31 - 3 bytes, whose indices and parse point
  -- lie in the received bytes,
  -- leaves them there, whatever it returns and whichever allocations fail; and where it returns
  -- IW_WEB_PARSE_COMPLETE, the method is set, the end of the headers was read, and the request is
  -- marked as complete.
  pub parse-Parsed :
      (req : WebReq) (r : WebParse × WebReq) → IsBounded req → parse mem req ≡ some r → Parsed r
  unfolding parse
  parse-Parsed req r b e =
      let line = parse_request_line-Kept mem req b in
      let heads =
        Kept-and_then (HasMethod mem) (HeadersRead mem) (parse_request_line mem req)
          (parse_headers mem) line (parse_headers-Kept mem) in
      let body =
        Kept-and_then (HeadersRead mem) (HeadersRead mem) _ (parse_content mem) heads
          parse_content-Kept in
      let form =
        Kept-and_then (HeadersRead mem) (HeadersRead mem) _ (parse_form mem) body parse_form-Kept in
      finish-Parsed _ r form e

  -- Right after iw_web_req_init, the indices lie in the bytes that the caller received, if these are
  -- no more than 2^31 - 4.
  pub received-IsBounded : (buff : List ℕ) → length buff + 3 < 2 ^ 31 → IsBounded (received buff)
  unfolding received HeadersWithin
  received-IsBounded buff small = record {
    small = small;
    held = omega arith;
    point = omega arith;
    version = omega arith;
    uri = omega arith;
    path = omega arith;
    content = omega arith;
    headers = tt;
  }
