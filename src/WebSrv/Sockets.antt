-- ===== src/WebSrv/Sockets.antt =====
-- The sockets of src/iw_web_srv.c: iw_web_srv_init, the server's thread, and iw_web_srv_exit.
use insta_works.Base.{
  ℕ, suc, ◌-◌, ◌≡◌, refl, sym, ◌∙◌, Bool, true, false, Option, none, some, List, [], ◌∷◌, ◌==◌,
  ==_refl, if◌then◌else◌, arith,
}
use insta_works.Ip.{Ip, ipv4_to_addr, set_port, open_server_socket, without}
use insta_works.Ip.Ports.{Opens, open_server_socket-Opens}
use insta_works.WebSrv.{Served}

-- INADDR_LOOPBACK
abbrev pub loopback : ℕ
loopback = 2130706433

-- The open descriptors, and how many server objects are allocated.
pub record Sockets : Type 0 where
  pub fds : List ℕ
  pub servers : ℕ

abbrev pub server_address : Option Ip → ℕ → Ip
unfolding set_port ipv4_to_addr
server_address address port =
    set_port (elim address [ none ↦ ipv4_to_addr loopback | some a ↦ a ])
      (if port == 0 then 8080 else port)

-- IW_FREE of the server object.
abbrev pub free_server : Sockets → Sockets
free_server s = record s { servers = s.servers - 1 }

-- What follows the attempt to open the socket, when the object has been allocated; `starts` says whether
-- the thread could be created.
unfoldable pub started : (starts : Bool) → Sockets → Option ℕ × List ℕ → Option ℕ × Sockets
started starts s (none, fds) = (none, free_server (record s { fds = fds }))
started true s (some fd, fds) = (some fd, record s { fds = fds })
started false s (some fd, fds) = (none, free_server (record s { fds = without fd fds }))

-- `made` is the allocation of the object. The result is the server's socket, `none` for NULL.
unfoldable pub srv_init :
    (made : Bool) (socket : Option ℕ) (binds listens starts : Bool)
    → Option Ip
    → ℕ
    → Sockets
    → Option ℕ × Sockets
unfolding started open_server_socket ipv4_to_addr set_port
srv_init false socket binds listens starts address port s = (none, s)
srv_init true socket binds listens starts address port s =
    started starts (record s { servers = suc s.servers })
      (open_server_socket socket binds listens (server_address address port) s.fds)

-- The thread's loop over the clients that accept gives, until it fails, and what follows. A client is
-- known by how it is served; `none` if serving it does not return.
unfoldable pub srv_thread :
    ℕ → List (Option Served) → List Served → Sockets → Option (List Served × Sockets)
srv_thread fd [] served s = some (served, free_server (record s { fds = without fd s.fds }))
srv_thread fd (none ∷ clients) served s = none
srv_thread fd (some c ∷ clients) served s = srv_thread fd clients (c ∷ served) s

without-cons : (fd : ℕ) (fds : List ℕ) → without fd (fd ∷ fds) ≡ fds
without-cons fd fds = rw (==_refl fd) refl

-- The result of an iw_web_srv_init that left the sockets `s'` of `s`.
pub record Inits (s : Sockets) (r : Option ℕ × Sockets) : Type 0 where
  pub refused : r.0 ≡ none → r.1 ≡ s
  pub opened : (fd : ℕ) → r.0 ≡ some fd → (r.1.fds ≡ fd ∷ s.fds) × (r.1.servers ≡ suc s.servers)
  pub ends :
      (fd : ℕ) (clients : List (Option Served)) (q : List Served × Sockets)
      → r.0 ≡ some fd
      → srv_thread fd clients [] r.1 ≡ some q
      → q.1 ≡ s

restored : (s s' : Sockets) → s'.fds ≡ s.fds → s'.servers ≡ suc s.servers → free_server s' ≡ s
restored s s' e n = let back : s'.servers - 1 ≡ s.servers = omega (arith, n) in cc

thread-restored :
    (s s' : Sockets) (fd : ℕ) (clients : List (Option Served)) (served : List Served)
    (q : List Served × Sockets)
    → s'.fds ≡ fd ∷ s.fds
    → s'.servers ≡ suc s.servers
    → srv_thread fd clients served s' ≡ some q
    → q.1 ≡ s
unfolding srv_thread
thread-restored s s' fd [] served q e n r =
    let left : without fd s'.fds ≡ s.fds = rw e (without-cons fd s.fds) in
    let closed = record s' { fds = without fd s'.fds } in
    let same : free_server closed ≡ q.1 = cc in sym same ∙ restored s closed left n
thread-restored s s' fd (none ∷ clients) served q e n r = absurd cc
thread-restored s s' fd (some c ∷ clients) served q e n r =
    thread-restored s s' fd clients (c ∷ served) q e n r

started-Inits :
    (starts : Bool) (s s' : Sockets) (r : Option ℕ × List ℕ)
    → s'.servers ≡ suc s.servers
    → Opens s.fds r
    → Inits s (started starts s' r)
unfolding started Opens
started-Inits starts s s' (none, fds) n o = record {
  refused = λ e. restored s (record s' { fds = fds }) o n;
  opened = λ fd e. absurd cc;
  ends = λ fd clients q e t. absurd cc;
}
started-Inits true s s' (some fd, fds) n o = record {
  refused = λ e. absurd cc;
  opened = λ fd' e. let same : fd ≡ fd' = cc in (rw (o, same) refl, n);
  ends = λ fd' clients q e t.
      let same : fd ≡ fd' = cc in
      thread-restored s (record s' { fds = fds }) fd' clients [] q (rw (o, same) refl) n t;
}
started-Inits false s s' (some fd, fds) n o = record {
  refused = λ e. restored s (record s' { fds = without fd fds }) (rw o (without-cons fd s.fds)) n;
  opened = λ fd' e. absurd cc;
  ends = λ fd' clients q e t. absurd cc;
}

-- iw_web_srv_init that returns NULL, at whichever of its steps, leaves no socket open and no server
-- object allocated. If it returns a server, it has opened one socket and allocated one object; when the
-- server's thread ends, after any clients that it has served, both are gone.
pub srv_init-Inits :
    (made : Bool) (socket : Option ℕ) (binds listens starts : Bool) (address : Option Ip) (port : ℕ)
    (s : Sockets)
    → Inits s (srv_init made socket binds listens starts address port s)
unfolding srv_init
srv_init-Inits false socket binds listens starts address port s = record {
  refused = λ e. refl;
  opened = λ fd e. absurd cc;
  ends = λ fd clients q e t. absurd cc;
}
srv_init-Inits true socket binds listens starts address port s =
    started-Inits starts s (record s { servers = suc s.servers }) _ refl
      (open_server_socket-Opens socket binds listens (server_address address port) s.fds).0
