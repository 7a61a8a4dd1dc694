-- ===== src/WebSrv.antt =====
-- src/iw_web_srv.c: the web server, from the sockets to the response. What the callback writes to its
-- memory stream is its result with the page; `print` is `%ld`. A socket's recv gives NULL for an error
-- and no bytes for a connection that was closed. The log, usleep and the closing of the client's file
-- are left out.
pub mod Requests
pub mod Serves
pub mod Stale
pub mod Sockets
use insta_works.Base.{
  ℕ, suc, ◌+◌, ◌*◌, Bool, true, false, ◌&&◌, not, Option, none, some, List, [], ◌∷◌, ◌++◌, ◌==◌,
  if◌then◌else◌, length, codes,
}
use insta_works.Buff.{Buff, create, destroy, reserve_data, write_block, commit_data, remove_data}
use insta_works.Parse.{crlf}
use insta_works.WebReq.Request.{
  WebReq, WebParse, received, parse_complete, parse_incomplete, parse_error,
}
use insta_works.WebReq.Request.Parser.{parse}
use insta_works.Ip.{Ip, ipv4_to_addr, set_port, open_server_socket, without}

abbrev pub buff_size : ℕ
buff_size = 1024

abbrev pub not_found : List ℕ
not_found = codes "HTTP/1.1 404 Not found" ++ crlf ++ crlf

abbrev pub found_head : List ℕ
found_head = codes "HTTP/1.1 200 Ok" ++ crlf ++ codes "Content-Length: "

-- The text of a string up to its NUL.
unfoldable pub c_text : List ℕ → List ℕ
c_text [] = []
c_text (c ∷ cs) = let rest = c_text cs in if c == 0 then [] else c ∷ rest

abbrev pub cut_block : Option (List ℕ) → List ℕ
cut_block none = []
cut_block (some m) = m

-- The response that is written to the client.
unfoldable pub response : (print : ℕ → List ℕ) → Bool × List ℕ → List ℕ
unfolding c_text
response print (false, page) = not_found
response print (true, page) =
    found_head ++ print (length (c_text page)) ++ crlf ++ crlf ++ c_text page ++ crlf

-- The request gets the buffer and its size.
abbrev pub with_buff : WebReq → Buff → WebReq
with_buff req b = record req { buff = cut_block b.buff; len = b.size }

module _ (print : ℕ → List ℕ) (callback : WebReq → Bool × List ℕ) where
  -- `stream` says whether open_memstream succeeds, `out` whether there is a file to write to. `none`:
  -- the response is written to the file NULL.
  unfoldable pub respond : (stream out : Bool) → WebReq → Option (Bool × List ℕ)
  unfolding response
  respond false out req = some (false, [])
  respond true false req = none
  respond true true req = some ((callback req).0, response print (callback req))

-- The request that the response is for, what was sent, and the buffer. `stale` says whether the
-- request's `buff` is still the block that was there before the buffer's last realloc.
pub record Served : Type 0 where
  pub req : WebReq
  pub stale : Bool
  pub found : Bool
  pub out : List ℕ
  pub buff : Buff

-- The request points to the buffer as it was when it had the size `len`.
abbrev pub is_stale : Buff → WebReq → Bool
is_stale b req = not (req.len == 0) && not (req.len == b.size)

-- `mem` is the allocator of the parser, `more` and `fresh` the reallocations of the buffer.
module _ (mem : ℕ → Bool) where
  -- What follows iw_web_req_parse; `go_on` is the next round of the loop.
  abbrev pub parsed :
      (go_on : Buff → WebReq → Option (Buff × WebReq))
      → Buff
      → Option (WebParse × WebReq)
      → Option (Buff × WebReq)
  parsed go_on b none = none
  parsed go_on b (some (parse_error, req)) = some (b, req)
  parsed go_on b (some (parse_complete, req)) = some (b, req)
  parsed go_on b (some (parse_incomplete, req)) = go_on b req

  -- What follows iw_buff_reserve_data, with the result of recv.
  unfoldable pub reserved :
      (go_on : Buff → WebReq → Option (Buff × WebReq))
      → WebReq
      → Option (List ℕ)
      → Bool × Option ℕ × Buff
      → Option (Buff × WebReq)
  unfolding parse commit_data write_block
  reserved go_on req recv (false, ptr, b) = some (b, req)
  reserved go_on req recv (true, none, b) = some (b, req)
  reserved go_on req none (true, some ptr, b) = some (b, req)
  reserved go_on req (some []) (true, some ptr, b) = some (b, req)
  reserved go_on req (some (c ∷ cs)) (true, some ptr, b) =
      let b' = commit_data (write_block b ptr (c ∷ cs)) (length (c ∷ cs)) in
      parsed go_on b' (parse mem (with_buff req b'))

  -- The loop of iw_web_srv_process_request over what recv gives: the buffer and the request at `done`.
  -- When nothing is left, recv gives 0. `none`: iw_web_req_parse dereferences NULL.
  unfoldable pub receive_loop :
      (more : ℕ → Bool) (fresh : ℕ → List ℕ)
      → List (Option (List ℕ))
      → ℕ
      → Buff
      → WebReq
      → Option (Buff × WebReq)
  unfolding reserve_data reserved
  receive_loop more fresh [] n b req = some ((reserve_data (more n) (fresh n) b buff_size).2, req)
  receive_loop more fresh (recv ∷ recvs) n b req =
      reserved (receive_loop more fresh recvs (suc n)) req recv
        (reserve_data (more n) (fresh n) b buff_size)

  unfoldable pub answered : Buff → WebReq → Option (Bool × List ℕ) → Option Served
  unfolding remove_data destroy
  answered b req none = none
  answered b req (some r) = some (record {
    req = req;
    stale = is_stale b req;
    found = r.0;
    out = r.1;
    buff = destroy (remove_data b req.parse_point);
  })

  -- `freed` says what a block reads as that realloc has freed: it need not be what it was.
  module _ (freed : List ℕ → List ℕ) (print : ℕ → List ℕ) (callback : WebReq → Bool × List ℕ)
      (stream : Bool) where
    -- The request as the callback reads it.
    abbrev pub read_now : Buff → WebReq → WebReq
    read_now b req = if is_stale b req then record req { buff = freed req.buff } else req

    unfoldable pub at_done : (out : Bool) → Option (Buff × WebReq) → Option Served
    unfolding respond answered
    at_done out none = none
    at_done out (some r) = answered r.0 r.1 (respond print callback stream out (read_now r.0 r.1))

    unfoldable pub created :
        (more : ℕ → Bool) (fresh : ℕ → List ℕ) (opened : Bool)
        → List (Option (List ℕ))
        → Bool × Buff
        → Option Served
    unfolding receive_loop at_done received
    created more fresh opened recvs (false, b) = at_done false (some (b, received []))
    created more fresh opened recvs (true, b) =
        at_done opened (receive_loop more fresh recvs 0 b (received []))

    -- iw_web_srv_process_request; `opened` says whether fdopen succeeds.
    unfoldable pub process_request :
        (buff_mem : Bool) (more : ℕ → Bool) (fresh : ℕ → List ℕ) (opened : Bool)
        → List (Option (List ℕ))
        → Option Served
    unfolding create created
    process_request buff_mem more fresh opened recvs =
        created more fresh opened recvs (create buff_mem buff_size (10 * buff_size))
