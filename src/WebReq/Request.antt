-- ===== src/WebReq/Request.antt =====
-- src/iw_web_req.c and includes/iw_web_req.h: the request object and what iw_web_req_parse calls; the
-- parse itself is in the children Line, Fields and Parser. A list of headers or parameters is the
-- list of its nodes, in order. The log of a parsed request is left out: it changes no state.
pub mod Line
pub mod Fields
pub mod Parser
pub mod Bounds
pub mod Queries
pub mod Steps
pub mod Headers
pub mod Whole
pub mod Faults
pub mod Returns
pub mod Forms
pub mod Access
pub mod Rounds
pub mod Sizes
pub mod Methods
use insta_works.Base.{
  ℕ, zero, suc, ◌+◌, ◌-◌, ◌%◌, ◌^◌, Bool, true, false, ◌&&◌, ◌||◌, Option, none, some, List, [],
  ◌∷◌, ◌++◌, ◌==◌, if◌then◌else◌, u32, ltb, leb, length, drop,
}
use insta_works.Base.Int.{ℤ, pos, negsuc}
use insta_works.Parse.{
  ParseIndex, crlf, space, colon, query, equal, ampersand, find_token, is_token, read_to_token, cmp,
  casecmp, strncasecmp_eq,
}
use insta_works.Util.{util_strtoll}
use insta_works.WebReq.{urldecode}
use insta_works.WebReq.Words.{
  get_text, head_text, post_text, put_text, delete_text, trace_text, connect_text,
  content_length_text, content_type_text, form_text,
}

pub data Method : Type 0 where
  method_none : Method
  method_get : Method
  method_head : Method
  method_post : Method
  method_put : Method
  method_delete : Method
  method_trace : Method
  method_connect : Method

pub data WebParse : Type 0 where
  parse_complete : WebParse
  parse_incomplete : WebParse
  parse_error : WebParse

pub record Header : Type 0 where
  pub name : ParseIndex
  pub value : ParseIndex

-- `none` is a NULL pointer.
pub record Parameter : Type 0 where
  pub name : Option (List ℕ)
  pub value : Option (List ℕ)

-- struct iw_web_req. `allocs` counts the calls of the allocator, for the parameter `mem` below.
pub record WebReq : Type 0 where
  pub parse_point : ℕ
  pub buff : List ℕ
  pub len : ℕ
  pub complete : Bool
  pub method : Method
  pub version : ParseIndex
  pub uri : ParseIndex
  pub path : ParseIndex
  pub parameters : List Parameter
  pub headers : List Header
  pub headers_complete : Bool
  pub content_length : ℕ
  pub content : ParseIndex
  pub allocs : ℕ

abbrev pub zeroed : ParseIndex
zeroed = record { start = 0; len = 0 }

-- iw_web_req_init, and the buffer and its length, which the caller sets.
unfoldable pub received : List ℕ → WebReq
received buff = record {
  parse_point = 0;
  buff = buff;
  len = length buff;
  complete = false;
  method = method_none;
  version = zeroed;
  uri = zeroed;
  path = zeroed;
  parameters = [];
  headers = [];
  headers_complete = false;
  content_length = 0;
  content = zeroed;
  allocs = 0;
}

-- How a part of iw_web_req_parse ends: it goes on, it returns, or it dereferences NULL.
pub data Parsing : Type 0 where
  next : WebReq → Parsing
  returns : WebParse → WebReq → Parsing
  faults : Parsing

unfoldable pub and_then : Parsing → (WebReq → Parsing) → Parsing
and_then (next req) f = f req
and_then (returns p req) f = returns p req
and_then faults f = faults

-- The conversion of a `long long` to an `unsigned int`.
abbrev pub to_u32 : ℤ → ℕ
to_u32 (pos n) = n % 2 ^ 32
to_u32 (negsuc n) = 2 ^ 32 - 1 - n % 2 ^ 32

unfoldable pub method_of : List ℕ → ParseIndex → Method
unfolding cmp
method_of buff idx =
    if cmp get_text buff idx
    then method_get
    else if cmp head_text buff idx
    then method_head
    else if cmp post_text buff idx
    then method_post
    else if cmp put_text buff idx
    then method_put
    else if cmp delete_text buff idx
    then method_delete
    else if cmp trace_text buff idx
    then method_trace
    else if cmp connect_text buff idx
    then method_connect
    else method_none

abbrev pub is_none : Method → Bool
is_none method_none = true
is_none _ = false

abbrev pub is_post : Method → Bool
is_post method_post = true
is_post _ = false

-- iw_web_req_get_header: the first header of that name. NULL stands for any name.
unfoldable pub header_in : List ℕ → Option (List ℕ) → List Header → Option Header
unfolding casecmp
header_in buff name [] = none
header_in buff none (hdr ∷ hdrs) = some hdr
header_in buff (some text) (hdr ∷ hdrs) =
    if casecmp text buff hdr.name then some hdr else header_in buff (some text) hdrs

unfoldable pub get_header : WebReq → Option (List ℕ) → Option Header
unfolding header_in
get_header req name = header_in req.buff name req.headers

unfoldable pub get_method : WebReq → Method
get_method req = if req.complete then req.method else method_none

unfoldable pub going_on : ℕ → Option WebReq → Option (WebReq × ℕ)
going_on offset none = none
going_on offset (some req) = some (req, offset)

-- Whether the n-th call of the allocator gives memory.
module _ (mem : ℕ → Bool) where
  unfoldable pub add_header : WebReq → ParseIndex → Option ParseIndex → WebReq
  add_header req name value =
      if mem req.allocs
      then record req {
        headers =
            req.headers
            ++ record { name = name; value = elim value [ none ↦ zeroed | some v ↦ v ] } ∷ [];
        allocs = req.allocs + 1;
      }
      else record req { allocs = req.allocs + 1 }

  -- `none`: the NULL value is dereferenced.
  unfoldable pub add_parameter : WebReq → ParseIndex → Option ParseIndex → Option WebReq
  unfolding urldecode
  add_parameter req name none =
      if mem req.allocs then none else some (record req { allocs = req.allocs + 1 })
  add_parameter req name (some value) =
      if mem req.allocs
      then some (record req {
        parameters =
            req.parameters
            ++ record {
              name = urldecode (mem (req.allocs + 1)) (drop name.start req.buff) name.len;
              value = urldecode (mem (req.allocs + 2)) (drop value.start req.buff) value.len;
            }
              ∷ [];
        allocs = req.allocs + 3;
      })
      else some (record req { allocs = req.allocs + 1 })

  -- What iw_web_req_parse_query does about a name, when it has looked for the ampersand: the request
  -- and the offset it goes on with. The offset is at most `end`, so that `end - offset` does not wrap.
  unfoldable pub add_pair :
      WebReq → ℕ → ℕ → ParseIndex → Option (ℕ × ParseIndex) → Option (WebReq × ℕ)
  unfolding add_parameter going_on
  add_pair req end offset name (some r) = going_on r.0 (add_parameter req name (some r.1))
  add_pair req end offset name none =
      let value : Option ParseIndex =
        if ltb offset req.parse_point
        then some (record { start = offset; len = end - offset })
        else none in
      going_on offset (add_parameter req name value)

  -- Its loop, on `k` rounds. `none`: NULL is dereferenced.
  unfoldable pub query_loop : ℕ → WebReq → ℕ → ℕ → Option WebReq
  unfolding read_to_token add_pair
  query_loop zero req end offset = some req
  query_loop (suc k) req end offset = elim (read_to_token req.buff end offset equal false) [
    | none ↦ some req
    | some r ↦ elim (add_pair req end r.0 r.1 (read_to_token req.buff end r.0 ampersand false)) [
      | none ↦ none
      | some s ↦ query_loop k s.0 end s.1
    ]
  ]

  unfoldable pub parse_query : WebReq → ℕ → ℕ → Option WebReq
  unfolding query_loop
  parse_query req start end = query_loop (end + 1) req end start
