-- ===== src/WebReq/Request/Faults.antt =====
-- Where iw_web_req_parse dereferences NULL: only in the body of a form, at a last name without a value.
use insta_works.Base.{
  ℕ, zero, suc, ◌+◌, ◌-◌, ◌^◌, ◌≤◌, ◌<◌, ◌≡◌, ◌≢◌, refl, Bool, true, false, Option-cases, inl, inr,
  Option, none, some, arith, u32, ltb,
}
use insta_works.Parse.{ParseIndex, crlf, space, query, equal, ampersand, read_to_token}
use insta_works.WebReq.Request.{
  WebReq, Parsing, next, returns, faults, and_then, add_parameter, going_on, add_pair, query_loop,
  parse_query, parse_error,
}
use insta_works.WebReq.Request.Line.{or_fault, parse_version, parse_path, parse_uri}
use insta_works.WebReq.Request.Bounds.{IsBounded, read-Fits}
use insta_works.WebReq.Request.Queries.{Only, pair-Only}

module _ (mem : ℕ → Bool) where
  pub and_then-returns :
      (p : Parsing) (f : WebReq → Parsing)
      → p ≢ faults
      → ((req : WebReq) → p ≡ next req → f req ≢ faults)
      → and_then p f ≢ faults
  unfolding and_then
  and_then-returns (next req) f n h = h req refl
  and_then-returns (returns p req) f n h = λ e. cc
  and_then-returns faults f n h = n

  add_parameter-returns :
      (req : WebReq) (name value : ParseIndex) → add_parameter mem req name (some value) ≢ none
  unfolding add_parameter
  add_parameter-returns req name value e = ground arith

  add_pair-returns :
      (req : WebReq) (end offset : ℕ) (name : ParseIndex) (r : Option (ℕ × ParseIndex))
      → offset < req.parse_point
      → add_pair mem req end offset name r ≢ none
  unfolding add_pair going_on
  add_pair-returns req end offset name (some r) less e =
      elim (Option-cases (add_parameter mem req name (some r.1))) [
        | inl n ↦ add_parameter-returns req name r.1 n
        | inr (req', n) ↦
            let done : ◌≡◌ {A = Option (WebReq × ℕ)} (some (req', r.0)) none =
              rw (add_pair, n) at e in
            absurd cc
      ]
  add_pair-returns req end offset name none less e =
      let test : ltb offset req.parse_point ≡ true = ground arith in
      let rest : ParseIndex = record { start = offset; len = end - offset } in
      elim (Option-cases (add_parameter mem req name (some rest))) [
        | inl n ↦ add_parameter-returns req name rest n
        | inr (req', n) ↦
            let done : ◌≡◌ {A = Option (WebReq × ℕ)} (some (req', offset)) none =
              rw (add_pair, test, n) at e in
            absurd cc
      ]

  Only-point : (req req' : WebReq) → Only mem req req' → req'.parse_point ≡ req.parse_point
  Only-point req req' (ps, n, e) = rw e

  pub going_on-offset :
      (offset : ℕ) (o : Option WebReq) (s : WebReq × ℕ) → going_on offset o ≡ some s → s.1 ≡ offset
  unfolding going_on
  going_on-offset offset none s e = absurd cc
  going_on-offset offset (some req) s e = cc

  pub pair_end :
      (req : WebReq) (end offset : ℕ) (name : ParseIndex) (r : Option (ℕ × ParseIndex))
      (s : WebReq × ℕ)
      → offset ≤ end
      → ((q : ℕ × ParseIndex) → r ≡ some q → q.0 ≤ end)
      → add_pair mem req end offset name r ≡ some s
      → s.1 ≤ end
  unfolding add_pair
  pair_end req end offset name (some q) s le bound e =
      omega (arith, going_on-offset q.0 _ s e, bound q refl)
  pair_end req end offset name none s le bound e = omega (arith, going_on-offset offset _ s e)

  -- A query that ends before the parse point is read without a fault.
  query_loop-returns :
      (k : ℕ) (req : WebReq) (end offset : ℕ)
      → end + 3 < 2 ^ 32
      → end < req.parse_point
      → offset ≤ end
      → query_loop mem k req end offset ≢ none
  unfolding query_loop
  query_loop-returns zero req end offset small less le e = cc
  query_loop-returns (suc k) req end offset small less le e =
      elim (Option-cases (read_to_token req.buff end offset equal false)) [
        | inl n ↦ let done : some req ≡ none = rw (query_loop, n) at e in absurd cc
        | inr (r, n) ↦
            let f = read-Fits req.buff end offset equal false r (omega arith) (omega arith) n in
            let after = read_to_token req.buff end r.0 ampersand false in
            elim (Option-cases (add_pair mem req end r.0 r.1 after)) [
              | inl a ↦ add_pair-returns req end r.0 r.1 after (omega (arith, f.point)) a
              | inr (s, a) ↦
                  let point = Only-point req s.0 (pair-Only mem req end r.0 r.1 after s a) in
                  query_loop-returns k s.0 end s.1 small (omega (arith, point))
                    (pair_end req end r.0 r.1 after s f.point
                      (λ q h.
                        (read-Fits req.buff end r.0 ampersand false q (omega arith)
                          (omega (arith, f.point)) h).point)
                      a)
                    (rw (query_loop, n, a) at e)
            ]
      ]

  parse_version-returns : (req : WebReq) → parse_version mem req ≢ faults
  unfolding parse_version
  parse_version-returns req e =
      elim (Option-cases (read_to_token req.buff req.len req.parse_point crlf true)) [
        | inl h ↦
            let done : returns parse_error req ≡ faults = rw (parse_version, h) at e in absurd cc
        | inr (r, h) ↦
            let done : next (record req { parse_point = r.0; version = r.1 }) ≡ faults =
              rw (parse_version, h) at e in
            absurd cc
      ]

  or_fault-returns : (o : Option WebReq) → o ≢ none → or_fault mem o ≢ faults
  or_fault-returns none n = absurd (n refl)
  or_fault-returns (some req) n = λ e. cc

  parse_path-returns :
      (offset : ℕ) (req : WebReq)
      → req.len + 3 < 2 ^ 32
      → req.uri.start + req.uri.len < req.parse_point
      → req.parse_point ≤ req.len
      → offset < req.parse_point
      → parse_path mem offset req ≢ faults
  unfolding parse_path parse_query
  parse_path-returns offset req small less point start e =
      let end : u32 (req.uri.start + req.uri.len) ≡ req.uri.start + req.uri.len = omega arith in
      elim (Option-cases
        (read_to_token req.buff (req.uri.start + req.uri.len) offset query false)) [
          | inl n ↦
              let done : next (record req { path = req.uri }) ≡ faults =
                rw (parse_path, end, n) at e in
              absurd cc
          | inr (r, n) ↦
              let f =
                read-Fits req.buff (req.uri.start + req.uri.len) offset query false r (omega arith)
                  (omega arith) n in
              or_fault-returns
                (parse_query mem (record req { path = r.1 }) r.0 (req.uri.start + req.uri.len))
                (query_loop-returns (req.uri.start + req.uri.len + 1) (record req { path = r.1 })
                  (req.uri.start + req.uri.len) r.0 (omega arith) less f.point)
                (rw (parse_path, end, n, end) at e)
        ]

  pub parse_uri-returns : (req : WebReq) → IsBounded req → parse_uri mem req ≢ faults
  unfolding parse_uri
  parse_uri-returns req b e =
      elim (Option-cases (read_to_token req.buff req.len req.parse_point space true)) [
        | inl h ↦ let done : returns parse_error req ≡ faults = rw (parse_uri, h) at e in absurd cc
        | inr (r, h) ↦
            let f =
              read-Fits req.buff req.len req.parse_point space true r (omega (arith, b.small))
                (omega (arith, b.small, b.point)) h in
            let req' : WebReq = record req { parse_point = r.0; uri = r.1 } in
            and_then-returns (parse_path mem req.parse_point req') (parse_version mem)
              (parse_path-returns req.parse_point req' (omega (arith, b.small))
                (omega (arith, f.within)) f.point (omega (arith, f.forward)))
              (λ next_req q. parse_version-returns next_req) (rw (parse_uri, h) at e)
      ]
