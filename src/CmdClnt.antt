-- ===== src/CmdClnt.antt =====
-- src/iw_cmd_clnt.c: the command line client. `ok` says whether the n-th call of send succeeds; one
-- that does sends all its bytes. What goes to stderr is left out.
pub mod Talks
pub mod Reaches
use insta_works.Base.{
  ℕ, suc, Bool, true, false, Option, none, some, List, [], ◌∷◌, ◌++◌, if◌then◌else◌, member,
}
use insta_works.Ip.{open_client_socket, without}
use insta_works.WebSrv.{c_text}

-- The calls that send the arguments from `arg` on, and the line end: whether all of them succeed, and
-- the bytes that were sent.
abbrev pub then_send : Bool → List ℕ → Bool × List ℕ → Bool × List ℕ
then_send true bytes rest = (rest.0, bytes ++ rest.1)
then_send false bytes rest = (false, [])

unfoldable pub send_args : (ok : ℕ → Bool) → ℕ → List (List ℕ) → Bool × List ℕ
send_args ok n [] = then_send (ok n) (13 ∷ 10 ∷ []) (true, [])
send_args ok n (arg ∷ []) = then_send (ok n) arg (then_send (ok (suc n)) (13 ∷ 10 ∷ []) (true, []))
send_args ok n (arg ∷ next ∷ args) =
    then_send (ok n) arg
      (then_send (ok (suc n)) (b' ' ∷ []) (send_args ok (suc (suc n)) (next ∷ args)))

-- The loop over what recv gives: what is printed, the socket, or `none` after it was closed at a NUL,
-- and the open descriptors.
unfoldable pub read_loop : ℕ → List ℕ → List (List ℕ) → List ℕ → List ℕ × Option ℕ × List ℕ
unfolding c_text
read_loop sock fds [] printed = (printed, some sock, fds)
read_loop sock fds (chunk ∷ chunks) printed =
    let rest = read_loop sock fds chunks (printed ++ c_text chunk) in
    if member 0 chunk then (printed ++ c_text chunk, none, without sock fds) else rest

-- The end of the call: a socket that is still open is closed.
unfoldable pub close_left : Option ℕ → List ℕ → List ℕ
close_left none fds = fds
close_left (some sock) fds = without sock fds

pub record Client : Type 0 where
  pub result : Bool
  pub sent : List ℕ
  pub printed : List ℕ
  pub fds : List ℕ

-- What follows the loops that send.
unfoldable pub answered : ℕ → List ℕ → List (List ℕ) → Bool × List ℕ → Client
unfolding read_loop close_left
answered sock fds chunks (false, sent) = record {
  result = true;
  sent = sent;
  printed = [];
  fds = close_left (some sock) fds;
}
answered sock fds chunks (true, sent) =
    let r = read_loop sock fds chunks [] in
    record { result = true; sent = sent; printed = r.0 ++ b'\n' ∷ []; fds = close_left r.1 r.2 }

unfoldable pub connected :
    (ok : ℕ → Bool) → List (List ℕ) → List (List ℕ) → Option ℕ × List ℕ → Client
unfolding answered send_args
connected ok argv chunks (none, fds) = record { result = false; sent = []; printed = []; fds = fds }
connected ok argv chunks (some sock, fds) = answered sock fds chunks (send_args ok 0 argv)

-- iw_cmd_clnt, with what socket and connect give, and then recv.
unfoldable pub cmd_clnt :
    (socket : Option ℕ) (connects : Bool) (ok : ℕ → Bool)
    → List (List ℕ)
    → List (List ℕ)
    → List ℕ
    → Client
unfolding connected open_client_socket
cmd_clnt socket connects ok argv chunks fds =
    connected ok argv chunks (open_client_socket socket connects fds)
