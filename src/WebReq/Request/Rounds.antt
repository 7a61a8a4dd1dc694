-- ===== src/WebReq/Request/Rounds.antt =====
-- The loop of iw_web_req_parse_query ends within the rounds that it is given.
use insta_works.Base.{
  ℕ, zero, suc, ◌+◌, ◌^◌, ◌≤◌, ◌<◌, ◌≡◌, refl, Bool, false, Option, Option-cases, inl, inr, none,
  some, arith,
}
use insta_works.Parse.{ParseIndex, equal, ampersand, read_to_token}
use insta_works.WebReq.Request.{WebReq, add_pair, query_loop}
use insta_works.WebReq.Request.Bounds.{Fits, read-Fits}
use insta_works.WebReq.Request.Faults.{going_on-offset, pair_end}

module _ (mem : ℕ → Bool) where
  pair_start :
      (req : WebReq) (end offset : ℕ) (name : ParseIndex) (r : Option (ℕ × ParseIndex))
      (s : WebReq × ℕ)
      → ((q : ℕ × ParseIndex) → r ≡ some q → offset ≤ q.0)
      → add_pair mem req end offset name r ≡ some s
      → offset ≤ s.1
  unfolding add_pair
  pair_start req end offset name (some q) s bound e =
      omega (arith, going_on-offset mem q.0 _ s e, bound q refl)
  pair_start req end offset name none s bound e = omega (arith, going_on-offset mem offset _ s e)

  -- The loop of iw_web_req_parse_query from an offset up to an end below 2^32 - 3, on more rounds than
  -- there are bytes between them: further rounds change nothing.
  pub query_loop_rounds :
      (k more : ℕ) (req : WebReq) (end offset : ℕ)
      → end + 3 < 2 ^ 32
      → offset ≤ end
      → end < offset + k
      → query_loop mem (k + more) req end offset ≡ query_loop mem k req end offset
  unfolding query_loop
  query_loop_rounds zero more req end offset small le enough = absurd (omega arith)
  query_loop_rounds (suc k) more req end offset small le enough =
      let fuel : suc k + more ≡ suc (k + more) = omega arith in
      elim (Option-cases (read_to_token req.buff end offset equal false)) [
        | inl n ↦ rw (fuel, query_loop, n) refl
        | inr (r, n) ↦
            let f = read-Fits req.buff end offset equal false r (omega arith) (omega arith) n in
            let after = read_to_token req.buff end r.0 ampersand false in
            let fits : (q : ℕ × ParseIndex) → after ≡ some q → Fits end r.0 ampersand q = λ q h.
              read-Fits req.buff end r.0 ampersand false q (omega arith) (omega (arith, f.point))
                h in
            elim (Option-cases (add_pair mem req end r.0 r.1 after)) [
              | inl a ↦ rw (fuel, query_loop, n, a) refl
              | inr (s, a) ↦
                  let low =
                    pair_start req end r.0 r.1 after s (λ q h. omega (arith, (fits q h).forward))
                      a in
                  let high =
                    pair_end mem req end r.0 r.1 after s f.point (λ q h. (fits q h).point) a in
                  rw (fuel, query_loop, n, a)
                    (query_loop_rounds k more s.0 end s.1 small high
                      (omega (arith, f.forward, low)))
            ]
      ]
