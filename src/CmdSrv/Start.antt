-- ===== src/CmdSrv/Start.antt =====
-- The start of the command server in src/iw_cmd_srv.c.
use insta_works.Base.{ℕ, ◌≡◌, refl, ap, ◌∙◌, Bool, true, false, Option, none, some, List, ==_refl}
use insta_works.Ip.{ipv4_to_addr, set_port, open_server_socket, without}
use insta_works.Ip.Ports.{Opens, open_server_socket-Opens}
use insta_works.WebSrv.Sockets.{loopback}

-- What follows the attempt to open the socket; `starts` says whether the thread could be created.
unfoldable pub listening : (starts : Bool) → Option ℕ × List ℕ → Bool × List ℕ
listening starts (none, fds) = (false, fds)
listening true (some sock, fds) = (true, fds)
listening false (some sock, fds) = (false, without sock fds)

-- iw_cmd_srv: the result, and the open descriptors.
unfoldable pub cmd_srv :
    (socket : Option ℕ) (binds listens starts : Bool) → ℕ → List ℕ → Bool × List ℕ
unfolding listening open_server_socket ipv4_to_addr set_port
cmd_srv socket binds listens starts port fds =
    listening starts
      (open_server_socket socket binds listens (set_port (ipv4_to_addr loopback) port) fds)

listening-closes :
    (starts : Bool) (fds : List ℕ) (r : Option ℕ × List ℕ)
    → Opens fds r
    → (listening starts r).0 ≡ false
    → (listening starts r).1 ≡ fds
unfolding listening Opens
listening-closes starts fds (none, left) o e = o
listening-closes true fds (some sock, left) o e = absurd cc
listening-closes false fds (some sock, left) o e = ap (without sock) o ∙ rw (==_refl sock) refl

-- If iw_cmd_srv returns false, at whichever of its steps, it leaves no socket open.
pub cmd_srv-closes :
    (socket : Option ℕ) (binds listens starts : Bool) (port : ℕ) (fds : List ℕ)
    → (cmd_srv socket binds listens starts port fds).0 ≡ false
    → (cmd_srv socket binds listens starts port fds).1 ≡ fds
unfolding cmd_srv
cmd_srv-closes socket binds listens starts port fds =
    listening-closes starts fds _
      (open_server_socket-Opens socket binds listens (set_port (ipv4_to_addr loopback) port) fds).0
