-- ===== src/WebReq/Request/Queries.antt =====
-- iw_web_req_parse_query adds parameters to the request and changes nothing else.
use insta_works.Base.{
  ℕ, zero, suc, ◌+◌, ◌-◌, ◌≡◌, Bool, false, Bool-cases, Option-cases, inl, inr, Option, none, some,
  List, [], ◌∷◌, ◌++◌, arith, if◌then◌else◌, ltb, drop,
}
use insta_works.WebReq.{urldecode}
use insta_works.Parse.{ParseIndex, equal, ampersand, read_to_token}
use insta_works.WebReq.Request.{WebReq, Parameter, add_parameter, going_on, add_pair, query_loop}

module _ (mem : ℕ → Bool) where
  -- A request that differs in its parameters and the allocations only.
  abbrev pub Only : WebReq → WebReq → Type 0
  Only req req' =
      (ps : List Parameter) × (n : ℕ) × (req' ≡ record req { parameters = ps; allocs = n })

  Only-trans : (a b c : WebReq) → Only a b → Only b c → Only a c
  Only-trans a b c (ps, n, e) (ps', n', e') = (ps', n', rw (e', e))

  parameter-Only :
      (req : WebReq) (name : ParseIndex) (value : Option ParseIndex) (req' : WebReq)
      → add_parameter mem req name value ≡ some req'
      → Only req req'
  unfolding add_parameter
  parameter-Only req name none req' e = elim (Bool-cases (mem req.allocs)) [
    | inl m ↦ absurd (ground arith)
    | inr m ↦
        let done : some (record req { allocs = req.allocs + 1 }) ≡ some req' =
          rw (add_parameter, m) at e in
        (req.parameters, req.allocs + 1, cc)
  ]
  parameter-Only req name (some value) req' e = elim (Bool-cases (mem req.allocs)) [
    | inl m ↦
        let param : Parameter = record {
          name = urldecode (mem (req.allocs + 1)) (drop name.start req.buff) name.len;
          value = urldecode (mem (req.allocs + 2)) (drop value.start req.buff) value.len;
        } in
        let done : some
              (record req { parameters = req.parameters ++ param ∷ []; allocs = req.allocs + 3 })
            ≡ some req' =
          rw (add_parameter, m) at e in
        (req.parameters ++ param ∷ [], req.allocs + 3, cc)
    | inr m ↦
        let done : some (record req { allocs = req.allocs + 1 }) ≡ some req' =
          rw (add_parameter, m) at e in
        (req.parameters, req.allocs + 1, cc)
  ]

  offered :
      (offset : ℕ) (o : Option WebReq) (s : WebReq × ℕ) → going_on offset o ≡ some s → o ≡ some s.0
  unfolding going_on
  offered offset none s e = absurd cc
  offered offset (some req) s e = cc

  pub pair-Only :
      (req : WebReq) (end offset : ℕ) (name : ParseIndex) (r : Option (ℕ × ParseIndex))
      (s : WebReq × ℕ)
      → add_pair mem req end offset name r ≡ some s
      → Only req s.0
  unfolding add_pair
  pair-Only req end offset name (some r) s e =
      parameter-Only req name (some r.1) s.0
        (offered r.0 (add_parameter mem req name (some r.1)) s e)
  pair-Only req end offset name none s e =
      let value : Option ParseIndex =
        if ltb offset req.parse_point
        then some (record { start = offset; len = end - offset })
        else none in
      parameter-Only req name value s.0 (offered offset (add_parameter mem req name value) s e)

  pub query-Only :
      (k : ℕ) (req : WebReq) (end offset : ℕ) (req' : WebReq)
      → query_loop mem k req end offset ≡ some req'
      → Only req req'
  unfolding query_loop
  query-Only zero req end offset req' e = (req.parameters, req.allocs, cc)
  query-Only (suc k) req end offset req' e =
      elim (Option-cases (read_to_token req.buff end offset equal false)) [
        | inl miss ↦
            let done : some req ≡ some req' = rw (query_loop, miss) at e in
            (req.parameters, req.allocs, cc)
        | inr (r, hit) ↦
            let pair =
              add_pair mem req end r.0 r.1 (read_to_token req.buff end r.0 ampersand false) in
            elim (Option-cases pair) [
              | inl fault ↦
                  let done : none ≡ some req' = rw (query_loop, hit, fault) at e in absurd cc
              | inr (s, added) ↦
                  let rest : query_loop mem k s.0 end s.1 ≡ some req' =
                    rw (query_loop, hit, added) at e in
                  Only-trans req s.0 req'
                    (pair-Only req end r.0 r.1 (read_to_token req.buff end r.0 ampersand false) s
                      added)
                    (query-Only k s.0 end s.1 req' rest)
            ]
      ]
