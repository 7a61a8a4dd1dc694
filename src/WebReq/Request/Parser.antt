-- ===== src/WebReq/Request/Parser.antt =====
-- src/iw_web_req.c: the content of a request, and iw_web_req_parse as a whole.
use insta_works.Base.{
  ℕ, ◌+◌, ◌-◌, ◌^◌, Bool, true, false, ◌&&◌, Option, none, some, ◌==◌, if◌then◌else◌, u32, ltb,
}
use insta_works.Parse.{casecmp}
use insta_works.WebReq.Words.{content_type_text, form_text}
use insta_works.WebReq.Request.{
  WebParse, Header, WebReq, Parsing, and_then, is_post, get_header, parse_query, parse_complete,
  parse_incomplete, next, returns, faults,
}
use insta_works.WebReq.Request.Line.{or_fault, parse_request_line}
use insta_works.WebReq.Request.Fields.{parse_headers}

-- Whether the n-th call of the allocator gives memory.
module _ (mem : ℕ → Bool) where
  unfoldable pub parse_content : WebReq → Parsing
  parse_content req =
      if req.content_length == 0
      then next req
      else if ltb (u32 (req.len + (2 ^ 32 - req.parse_point))) req.content_length
      then returns parse_incomplete req
      else next (record req {
        content = record { start = req.parse_point; len = req.content_length };
        parse_point = u32 (req.parse_point + req.content_length);
      })

  unfoldable pub is_form : WebReq → Option Header → Bool
  unfolding casecmp
  is_form req none = false
  is_form req (some hdr) = is_post req.method && casecmp form_text req.buff hdr.value

  unfoldable pub parse_form : WebReq → Parsing
  unfolding is_form get_header parse_query
  parse_form req =
      if is_form req (get_header req (some content_type_text))
      then or_fault mem
          (parse_query mem req req.content.start (u32 (req.content.start + req.content.len)))
      else next req

  -- What the call returns, with the request as it leaves it; `none` where it dereferences NULL.
  unfoldable pub finish : Parsing → Option (WebParse × WebReq)
  finish (next req) = some (parse_complete, record req { complete = true })
  finish (returns p req) = some (p, req)
  finish faults = none

  unfoldable pub parse : WebReq → Option (WebParse × WebReq)
  unfolding and_then parse_request_line parse_headers parse_content parse_form finish
  parse req = finish (
      and_then (and_then (and_then (parse_request_line mem req) (parse_headers mem)) parse_content)
        parse_form)
