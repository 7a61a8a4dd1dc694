-- ===== src/Tests/Servers.antt =====
-- The servers of src/iw_web_srv.c and src/iw_cmd_srv.c and the client of src/iw_cmd_clnt.c.
use insta_works.Base.{
  ℕ, ◌≡◌, refl, Bool, true, false, Option, none, some, List, [], ◌∷◌, ◌++◌, length-replicate, codes,
  replicate,
}
use insta_works.Buff.{create, destroy}
use insta_works.Parse.{find_token, scan, token_at, strncmp_eq}
use insta_works.WebReq.Request.{WebReq, received, parse_incomplete, and_then}
use insta_works.WebReq.Request.Line.{parse_request_line}
use insta_works.WebReq.Request.Parser.{finish, parse}
use insta_works.WebSrv.{Served, process_request}
use insta_works.WebSrv.Serves.{Serves}
use insta_works.WebSrv.Stale.{process_request_dangles}
use insta_works.WebSrv.Sockets.{Sockets, Inits, srv_init, srv_init-Inits}

abbrev plenty : ℕ → Bool
plenty n = true

-- What is left of a block that was freed.
abbrev scrambled : List ℕ → List ℕ
scrambled bytes = []

abbrev digits : ℕ → List ℕ
digits n = b'0' ∷ []

abbrev page : WebReq → Bool × List ℕ
page req = (true, codes "ok")

abbrev fresh : ℕ → List ℕ
fresh n = replicate 1024 0

-- A whole request.
abbrev some_bytes : List (Option (List ℕ))
some_bytes = some (codes "GET /?a=1 HTTP" ++ b'\r' ∷ b'\n' ∷ b'\r' ∷ b'\n' ∷ []) ∷ []

abbrev made : Option Served → Served
made none = record {
  req = received [];
  stale = false;
  found = false;
  out = [];
  buff = destroy (create true 0 0).1;
}
made (some s) = s

abbrev run : Option Served
run = process_request plenty scrambled digits page true true plenty fresh true some_bytes

abbrev letters : List ℕ
letters = replicate 1024 b'a'

letters_incomplete : parse plenty (received letters) ≡ some (parse_incomplete, received letters)
unfolding parse parse_request_line and_then finish find_token scan token_at strncmp_eq received
letters_incomplete = refl

process_request_dangles_example :
    (s : Served) × (process_request plenty scrambled digits page true true plenty fresh true
        (some letters ∷ [])
      ≡ some s)
    × (s.req ≡ received letters)
    × (s.stale ≡ true)
process_request_dangles_example =
    process_request_dangles plenty scrambled digits page plenty fresh letters (received letters)
      (length-replicate {A = ℕ} 1024 b'a') refl letters_incomplete

abbrev idle : Sockets
idle = record { fds = 3 ∷ []; servers = 0 }

srv_init-Inits_example : Inits idle (srv_init true (some 4) true true true none 8080 idle)
srv_init-Inits_example = srv_init-Inits true (some 4) true true true none 8080 idle
