-- ===== src/WebReq/Request/Access.antt =====
-- The attribute access of src/iw_web_req.c. A pointer to a header or a parameter of a request is its
-- place in the list.
use insta_works.Base.{
  ℕ, suc, ◌+◌, Bool, Option, none, some, List, [], ◌∷◌, if◌then◌else◌, length, drop,
}
use insta_works.Parse.{strncasecmp_eq}
use insta_works.WebReq.Request.{WebReq, Header, Parameter, header_in}

unfoldable pub get_next_header : WebReq → Option (List ℕ) → Option ℕ → Option Header
unfolding header_in
get_next_header req name none = none
get_next_header req name (some hdr) = header_in req.buff name (drop (suc hdr) req.headers)

-- `strcasecmp(a, b) == 0`.
unfoldable pub strcasecmp_eq : List ℕ → List ℕ → Bool
unfolding strncasecmp_eq
strcasecmp_eq a b = strncasecmp_eq (length a + length b + 1) a b

-- What the loop over the parameters finds; `none` where it hands the NULL name of a parameter, which
-- could not be decoded, to strcasecmp.
unfoldable pub parameter_in : Option (List ℕ) → List Parameter → Option (Option Parameter)
unfolding strcasecmp_eq
parameter_in name [] = some none
parameter_in none (param ∷ params) = some (some param)
parameter_in (some text) (param ∷ params) =
    let rest = parameter_in (some text) params in
    elim param.name [
      | none ↦ none
      | some other ↦ if strcasecmp_eq text other then some (some param) else rest
    ]

unfoldable pub get_parameter : WebReq → Option (List ℕ) → Option (Option Parameter)
unfolding parameter_in
get_parameter req name = parameter_in name req.parameters

unfoldable pub get_next_parameter : WebReq → Option (List ℕ) → Option ℕ → Option (Option Parameter)
unfolding parameter_in
get_next_parameter req name none = some none
get_next_parameter req name (some param) = parameter_in name (drop (suc param) req.parameters)
