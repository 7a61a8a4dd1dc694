-- ===== src/Ip/Ports.antt =====
-- Ports, the comparison of addresses, and the sockets of src/iw_ip.c.
use insta_works.Base.{
  ℕ, ◌<◌, ◌≡◌, ◌↔◌, refl, sym, subst, ap, ◌∙◌, Bool, true, false, ◌&&◌, Option, none, some, List,
  ◌∷◌, arith, ==_refl, same_text, same_text_refl, same_text_iff,
}
use insta_works.Ip.{
  Ip, Family, inet, inet6, other, swap_bytes, get_port, set_port, port_at, put_port, listening,
  same_place, equal_as, equal, without, size_known, open_client_socket, open_server_socket,
}

unfoldable pub IsKnown : Ip → Type 0
IsKnown a = size_known a.family ≡ true

swap_swap : (n : ℕ) → n < 65536 → swap_bytes (swap_bytes n) ≡ n
swap_swap n lt = omega (arith, lt)

put_then :
    (f : Family) (a : Ip) (port : ℕ)
    → size_known f ≡ true
    → port < 65536
    → port_at f (put_port f port a).port ≡ port
put_then inet a port k lt = swap_swap port lt
put_then inet6 a port k lt = swap_swap port lt
put_then (other n) a port k lt = absurd cc

family_kept : (f : Family) (a : Ip) (port : ℕ) → (put_port f port a).family ≡ a.family
family_kept inet a port = refl
family_kept inet6 a port = refl
family_kept (other n) a port = refl

-- iw_ip_get_port reads back the 16-bit port that iw_ip_set_port wrote into an IPv4 or IPv6
-- address.
pub get_port-set_port :
    (a : Ip) (port : ℕ) → IsKnown a → port < 65536 → get_port (set_port a port) ≡ port
unfolding get_port set_port IsKnown
get_port-set_port a port known lt =
    ap (λ f. port_at f (put_port a.family port a).port) (family_kept a.family a port)
    ∙ put_then a.family a port known lt

same_fields : (a b : Ip) → a.family ≡ b.family → a.port ≡ b.port → a.addr ≡ b.addr → a ≡ b
same_fields a b f p d = cc

equal_as-same :
    (a b : Ip) (f : Family) → size_known f ≡ true → equal_as true a b f f ≡ same_place true a b
equal_as-same a b inet k = refl
equal_as-same a b inet6 k = refl
equal_as-same a b (other n) k = absurd cc

same_family : (a b : Ip) (f g : Family) → equal_as true a b f g ≡ true → f ≡ g
same_family a b inet inet e = refl
same_family a b inet6 inet6 e = refl
same_family a b inet inet6 e = absurd cc
same_family a b inet (other n) e = absurd cc
same_family a b inet6 inet e = absurd cc
same_family a b inet6 (other n) e = absurd cc
same_family a b (other m) inet e = absurd cc
same_family a b (other m) inet6 e = absurd cc
same_family a b (other m) (other n) e = absurd cc

-- iw_ip_equal with ports decides whether an IPv4 or IPv6 address and another address are the same
-- family, port and host.
pub equal_iff : (a b : Ip) → IsKnown a → (equal a b true ≡ true) ↔ (a ≡ b)
unfolding equal IsKnown
equal_iff a b known = (
  λ e.
      let f = same_family a b a.family b.family e in
      let place : same_place true a b ≡ true =
        sym (equal_as-same a b a.family known) ∙ ap (equal_as true a b a.family) f ∙ e in
      let ports : a.port ≡ b.port = ground (arith, place) in
      let addrs : same_text a.addr b.addr ≡ true = ground (arith, place) in
      same_fields a b f ports (same_text_iff a.addr b.addr addrs),
  λ e.
      let self : equal_as true a a a.family a.family ≡ true =
        equal_as-same a a a.family known ∙ rw (==_refl a.port) (same_text_refl a.addr) in
      subst (λ x. equal_as true a x a.family x.family ≡ true) e self,
)

-- The descriptors after a call: none is left open where it fails.
unfoldable pub Opens : List ℕ → Option ℕ × List ℕ → Type 0
Opens fds (none, left) = left ≡ fds
Opens fds (some sock, left) = left ≡ sock ∷ fds

closed : (sock : ℕ) (fds : List ℕ) → without sock (sock ∷ fds) ≡ fds
closed sock fds = rw (==_refl sock) refl

abbrev pub given : Bool → Option ℕ → Option ℕ
given true socket = socket
given false socket = none

given-none : (b : Bool) → given b none ≡ none
given-none true = refl
given-none false = refl

listening-Opens :
    (sock : ℕ) (known binds listens : Bool) (fds : List ℕ)
    → Opens fds (listening sock known binds listens fds)
      × ((listening sock known binds listens fds).0 ≡ given (known && binds && listens) (some sock))
unfolding Opens
listening-Opens sock true true true fds = (refl, refl)
listening-Opens sock true true false fds = (closed sock fds, refl)
listening-Opens sock true false listens fds = (closed sock fds, refl)
listening-Opens sock false binds listens fds = (closed sock fds, refl)

-- iw_ip_open_client_socket leaves a socket open only if it returns it.
pub open_client_socket-Opens :
    (socket : Option ℕ) (connects : Bool) (fds : List ℕ)
    → Opens fds (open_client_socket socket connects fds)
unfolding open_client_socket Opens
open_client_socket-Opens none connects fds = refl
open_client_socket-Opens (some sock) true fds = refl
open_client_socket-Opens (some sock) false fds = closed sock fds

-- iw_ip_open_server_socket returns the socket exactly if one was made, the family is known, and
-- bind and listen succeed; otherwise it returns -1 and leaves no socket open.
pub open_server_socket-Opens :
    (socket : Option ℕ) (binds listens : Bool) (a : Ip) (fds : List ℕ)
    → Opens fds (open_server_socket socket binds listens a fds)
      × ((open_server_socket socket binds listens a fds).0
          ≡ given (size_known a.family && binds && listens) socket)
unfolding open_server_socket Opens
open_server_socket-Opens none binds listens a fds =
    (refl, sym (given-none (size_known a.family && binds && listens)))
open_server_socket-Opens (some sock) binds listens a fds =
    listening-Opens sock (size_known a.family) binds listens fds
