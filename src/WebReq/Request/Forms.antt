-- ===== src/WebReq/Request/Forms.antt =====
-- Where iw_web_req_parse dereferences NULL: only in the body of a POST request that is read as a form,
-- at a last name without a value.
use insta_works.Base.{
  ℕ, suc, ◌+◌, ◌^◌, ◌≤◌, ◌<◌, ◌≡◌, ◌≢◌, refl, Bool, true, false, Bool-cases, inl, inr, Option, none,
  some, arith, u32, ltb,
}
use insta_works.Parse.{equal}
use insta_works.Parse.Scan.{IsFirst}
use insta_works.Parse.Read.{read_first, read_past}
use insta_works.WebReq.Request.{
  WebReq, WebParse, Parsing, next, returns, faults, and_then, add_parameter, add_pair, query_loop,
  parse_query, get_header,
}
use insta_works.WebReq.Request.Line.{or_fault, parse_request_line}
use insta_works.WebReq.Request.Fields.{parse_headers}
use insta_works.WebReq.Request.Parser.{parse_content, is_form, parse_form, finish, parse}
use insta_works.WebReq.Words.{content_type_text}
use insta_works.WebReq.Request.Bounds.{IsBounded}
use insta_works.WebReq.Request.Faults.{and_then-returns}
use insta_works.WebReq.Request.Returns.{
  request_line-returns, headers_loop-returns, parse_content-returns,
}

module _ (mem : ℕ → Bool) where
  -- The call up to the place where the body is looked at.
  abbrev pub before_form : WebReq → Parsing
  before_form req =
      and_then (and_then (parse_request_line mem req) (parse_headers mem)) (parse_content mem)

  before_form-returns : (req : WebReq) → IsBounded req → before_form req ≢ faults
  unfolding parse_headers
  before_form-returns req b =
      and_then-returns mem _ (parse_content mem)
        (and_then-returns mem (parse_request_line mem req) (parse_headers mem)
          (request_line-returns mem req b) (λ req' q. headers_loop-returns mem (req'.len + 1) req'))
        (λ req' q. parse_content-returns mem req')

  parse_form-faults :
      (req : WebReq)
      → parse_form mem req ≡ faults
      → (is_form mem req (get_header req (some content_type_text)) ≡ true)
        × (parse_query mem req req.content.start (u32 (req.content.start + req.content.len)) ≡ none)
  unfolding parse_form
  parse_form-faults req e =
      elim (Bool-cases (is_form mem req (get_header req (some content_type_text)))) [
        | inr f ↦ let done : next req ≡ faults = rw (parse_form, f) at e in absurd cc
        | inl f ↦ (f, faulted _ (rw (parse_form, f) at e))
      ]
    where
      faulted : (o : Option WebReq) → or_fault mem o ≡ faults → o ≡ none
      faulted none e = refl
      faulted (some req) e = absurd cc

  unfinished : (p : Parsing) → finish mem p ≡ none → p ≡ faults
  unfolding finish
  unfinished (next req) e = absurd cc
  unfinished (returns p req) e = absurd cc
  unfinished faults e = refl

  unreturned : (p : WebParse) (req : WebReq) → finish mem (returns p req) ≢ none
  unfolding finish
  unreturned p req e = cc

  -- If the indices and the parse point lie in the received bytes, iw_web_req_parse dereferences NULL
  -- in one place only: in the query of a body, after the request line, the headers and the content
  -- were read without a fault, and only if the request passes the test for a POST form.
  pub parse-faults :
      (req : WebReq)
      → IsBounded req
      → parse mem req ≡ none
      → (req' : WebReq) × (before_form req ≡ next req')
        × (is_form mem req' (get_header req' (some content_type_text)) ≡ true)
        × (parse_query mem req' req'.content.start (u32 (req'.content.start + req'.content.len))
            ≡ none)
  unfolding parse
  parse-faults req b e = reached (before_form req) refl (before_form-returns req b) e
    where
      reached :
          (p : Parsing)
          → before_form req ≡ p
          → p ≢ faults
          → finish mem (and_then p (parse_form mem)) ≡ none
          → (req' : WebReq) × (before_form req ≡ next req')
            × (is_form mem req' (get_header req' (some content_type_text)) ≡ true)
            × (parse_query mem req' req'.content.start (u32 (req'.content.start + req'.content.len))
                ≡ none)
      reached (next req') q n h =
          let form = parse_form-faults req' (unfinished _ h) in (req', q, form.0, form.1)
      reached (returns p req') q n h = absurd (unreturned p req' h)
      reached faults q n h = absurd (n refl)

  -- A query that ends behind its only equal sign, at or behind the parse point, makes the call
  -- dereference NULL as soon as there is memory for the parameter.
  pub parse_query-faults :
      (req : WebReq) (start p : ℕ)
      → p + 3 < 2 ^ 32
      → IsFirst req.buff (p + 1) equal start p
      → req.parse_point ≤ p + 1
      → mem req.allocs ≡ true
      → parse_query mem req start (p + 1) ≡ none
  unfolding parse_query
  parse_query-faults req start p small first behind m =
      let name =
        read_first req.buff (p + 1) start p equal false (omega arith) first
          (omega (arith, first.after)) in
      let past = read_past req.buff (p + 1) b'&' (omega arith) in
      let test : ltb (p + 1) req.parse_point ≡ false = ground arith in
      let fuel : p + 1 + 1 ≡ suc (p + 1) = omega arith in
      rw (parse_query, fuel, query_loop, name, past, add_pair, test, add_parameter, m) refl
