-- ===== src/Ip.antt =====
-- src/iw_ip.c: addresses, their ports and texts, and the opening of sockets. The memory of an address
-- is its family, its port in network order and the bytes of its host. The host order of the machine
-- is the other one. getaddrinfo, inet_ntop and printf of a number are fields of a parameter; what the
-- calls on sockets give are arguments.
pub mod Text
pub mod Ports
use insta_works.Base.{
  ℕ, suc, ◌+◌, ◌-◌, ◌*◌, ◌/◌, ◌%◌, Bool, true, false, ◌&&◌, ◌||◌, not, Option, none, some, List, [],
  ◌∷◌, ◌++◌, ◌==◌, leb, if◌then◌else◌, length, take, drop, same_text,
}
use insta_works.Base.Int.{ℤ, pos, negsuc}
use insta_works.Util.{util_strtoll}

pub data Family : Type 0 where
  inet : Family
  inet6 : Family
  other : ℕ → Family

pub record Ip : Type 0 where
  pub family : Family
  pub port : ℕ
  pub addr : List ℕ

pub record Network : Type 0 where
  -- `none` is a failure; the result itself may be NULL or too long for an address.
  pub getaddrinfo : List ℕ → Option (Option Ip)
  -- The text that fits a buffer of this length.
  pub inet_ntop : Family → List ℕ → ℕ → Option (List ℕ)
  pub print_number : ℕ → List ℕ

-- htons and ntohs.
abbrev pub swap_bytes : ℕ → ℕ
swap_bytes n = n % 256 * 256 + n / 256 % 256

abbrev pub ip_buff_len : ℕ
ip_buff_len = 54

abbrev pub is_port : ℤ → Option ℕ
is_port (pos n) = if leb n 65535 then some n else none
is_port (negsuc n) = none

abbrev pub port_read : Bool × ℤ → Option ℕ
port_read (false, n) = none
port_read (true, n) = is_port n

unfoldable pub str_to_port : List ℕ → Option ℕ
unfolding util_strtoll
str_to_port str = port_read (util_strtoll str 10)

abbrev pub port_at : Family → ℕ → ℕ
port_at inet port = swap_bytes port
port_at inet6 port = swap_bytes port
port_at (other n) port = 0

unfoldable pub get_port : Ip → ℕ
get_port a = port_at a.family a.port

abbrev pub put_port : Family → ℕ → Ip → Ip
put_port inet port a = record a { port = swap_bytes port }
put_port inet6 port a = record a { port = swap_bytes port }
put_port (other n) port a = a

-- The call always returns true.
unfoldable pub set_port : Ip → ℕ → Ip
set_port a port = put_port a.family port a

-- strrchr: the offset of the last byte `c`.
unfoldable pub strrchr : ℕ → List ℕ → Option ℕ
strrchr c [] = none
strrchr c (x ∷ xs) = elim (strrchr c xs) [
  | some i ↦ some (suc i)
  | none ↦ if x == c then some 0 else none
]

abbrev pub in_ipv4 : ℕ → Bool
in_ipv4 c = c == b'.' || (leb 48 c && leb c 57)

-- strspn over ".1234567890".
unfoldable pub strspn : List ℕ → ℕ
strspn [] = 0
strspn (x ∷ xs) = let rest = strspn xs in if in_ipv4 x then suc rest else 0

-- The text of the host and that of its port.
abbrev pub HostPort : Type 0
HostPort = List ℕ × List ℕ

abbrev pub behind_bracket : List ℕ → List ℕ
behind_bracket [] = []
behind_bracket (c ∷ cs) = if c == b':' then cs else c ∷ cs

-- The string behind its opening bracket, and what strrchr finds in it: the string that goes on, and
-- the host and the port if there is a port to read.
abbrev pub bracketed : List ℕ → Option ℕ → List ℕ × Option HostPort
bracketed str none = (str, none)
bracketed str (some end) = (str, some (take end str, behind_bracket (drop (suc end) str)))

abbrev pub plain : List ℕ → Option ℕ → List ℕ × Option HostPort
plain str none = (str, none)
plain str (some colon) =
    if strspn str == colon then (str, some (take colon str, drop (suc colon) str)) else (str, none)

unfoldable pub split_port : List ℕ → List ℕ × Option HostPort
unfolding strrchr strspn
split_port [] = ([], none)
split_port (c ∷ cs) =
    if c == b'[' then bracketed cs (strrchr b']' cs) else plain (c ∷ cs) (strrchr b':' (c ∷ cs))

abbrev pub with_port : ℕ → Option (Option Ip) → Option Ip
with_port port none = none
with_port port (some none) = none
with_port port (some (some a)) = some (if port == 0 then a else set_port a port)

module _ (net : Network) where
  -- The address that is stored where the call returns true.
  abbrev pub resolve : List ℕ × Option HostPort → Option Ip
  resolve (str, none) = with_port 0 (net.getaddrinfo str)
  resolve (str, some (host, text)) = elim (str_to_port text) [
    | none ↦ none
    | some port ↦ with_port port (net.getaddrinfo (take (ip_buff_len - 1) host))
  ]

  unfoldable pub str_to_addr : Option (List ℕ) → Bool → Option Ip
  unfolding split_port str_to_port
  str_to_addr none allow_port = none
  str_to_addr (some str) true = resolve (split_port str)
  str_to_addr (some str) false = resolve (str, none)

  abbrev pub print_port : ℕ → List ℕ → List ℕ
  print_port port closing = closing ++ b':' ∷ net.print_number port

  -- snprintf into what is left of the buffer behind `text`.
  abbrev pub fitted : ℕ → List ℕ → List ℕ → List ℕ
  fitted buff_len text more = text ++ take (buff_len - length text - 1) more

  -- inet_ntop has failed: with a port to print, strlen reads the buffer that nothing was written to.
  abbrev pub printed :
      (with_port : Bool) → ℕ → ℕ → List ℕ → List ℕ → Option (List ℕ) → Option (Option (List ℕ))
  printed true port buff_len opening closing none = none
  printed false port buff_len opening closing none = some none
  printed true port buff_len opening closing (some text) =
      some (some (opening ++ fitted buff_len text (print_port port closing)))
  printed false port buff_len opening closing (some text) = some (some text)

  unfoldable pub addr_to_str : Ip → Bool → ℕ → Option (Option (List ℕ))
  unfolding get_port
  addr_to_str a include_port buff_len =
      let port = get_port a in
      let with_port = include_port && not (port == 0) in
      elim a.family [
        | inet ↦ printed with_port port buff_len [] [] (net.inet_ntop inet a.addr buff_len)
        | inet6 ↦
            let left = if with_port then buff_len - 1 else buff_len in
            printed with_port port left (b'[' ∷ []) (b']' ∷ []) (net.inet_ntop inet6 a.addr left)
        | other n ↦ some none
      ]

unfoldable pub ipv4_to_addr : ℕ → Ip
ipv4_to_addr ip = record {
  family = inet;
  port = 0;
  addr = ip / 16777216 % 256 ∷ ip / 65536 % 256 ∷ ip / 256 % 256 ∷ ip % 256 ∷ [];
}

unfoldable pub ipv6_to_addr : List ℕ → Ip
ipv6_to_addr ip = record { family = inet6; port = 0; addr = ip }

abbrev pub same_place : Bool → Ip → Ip → Bool
same_place cmp_port a b = (not cmp_port || a.port == b.port) && same_text a.addr b.addr

abbrev pub equal_as : Bool → Ip → Ip → Family → Family → Bool
equal_as cmp_port a b inet inet = same_place cmp_port a b
equal_as cmp_port a b inet6 inet6 = same_place cmp_port a b
equal_as cmp_port a b _ _ = false

unfoldable pub equal : Ip → Ip → Bool → Bool
equal a b cmp_port = equal_as cmp_port a b a.family b.family

abbrev pub without : ℕ → List ℕ → List ℕ
without n [] = []
without n (m ∷ ms) = if n == m then ms else m ∷ without n ms

-- The open descriptors, and the socket or -1.
unfoldable pub open_client_socket :
    (socket : Option ℕ) (connects : Bool) → List ℕ → Option ℕ × List ℕ
open_client_socket none connects fds = (none, fds)
open_client_socket (some sock) true fds = (some sock, sock ∷ fds)
open_client_socket (some sock) false fds = (none, without sock (sock ∷ fds))

abbrev pub size_known : Family → Bool
size_known inet = true
size_known inet6 = true
size_known (other n) = false

-- The steps behind `socket`, each of which closes the socket when it fails.
abbrev pub listening : ℕ → (known binds listens : Bool) → List ℕ → Option ℕ × List ℕ
listening sock false binds listens fds = (none, without sock (sock ∷ fds))
listening sock true false listens fds = (none, without sock (sock ∷ fds))
listening sock true true false fds = (none, without sock (sock ∷ fds))
listening sock true true true fds = (some sock, sock ∷ fds)

-- A failure of setsockopt is only logged.
unfoldable pub open_server_socket :
    (socket : Option ℕ) (binds listens : Bool) → Ip → List ℕ → Option ℕ × List ℕ
open_server_socket none binds listens address fds = (none, fds)
open_server_socket (some sock) binds listens address fds =
    listening sock (size_known address.family) binds listens fds
