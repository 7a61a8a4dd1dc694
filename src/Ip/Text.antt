-- ===== src/Ip/Text.antt =====
-- How iw_ip_str_to_addr of src/iw_ip.c reads a port behind a host.
use insta_works.Base.{
  take_all, ℕ, suc, ◌≤◌, ◌<◌, ◌≡◌, refl, ap, ◌∙◌, Bool-cases, inl, inr, Option, true, false, none,
  some, List, [], ◌∷◌, ◌++◌, arith, ◌==◌, ==_refl, leb, length, take, drop, member,
}
use insta_works.Base.Int.{pos}
use insta_works.Util.{util_strtoll}
use insta_works.Ip.Ports.{IsKnown, get_port-set_port}
use insta_works.Ip.{
  Ip, Family, inet, inet6, other, set_port, get_port, put_port, Network, str_to_port, port_read,
  strrchr, in_ipv4, strspn, behind_bracket, bracketed, plain, split_port, with_port, resolve,
  str_to_addr,
}

strrchr-none : (c : ℕ) (xs : List ℕ) → member c xs ≡ false → strrchr c xs ≡ none
unfolding strrchr
strrchr-none c [] out = refl
strrchr-none c (x ∷ xs) out =
    let rest = strrchr-none c xs (ground arith) in
    let other : (x == c) ≡ false = ground arith in rw (strrchr, rest, other) refl

-- The last such byte is the one that the others stand before.
strrchr-last :
    (c : ℕ) (xs ys : List ℕ) → member c ys ≡ false → strrchr c (xs ++ c ∷ ys) ≡ some (length xs)
unfolding strrchr
strrchr-last c [] ys out = let rest = strrchr-none c ys out in rw (strrchr, rest, ==_refl c) refl
strrchr-last c (x ∷ xs) ys out = let rest = strrchr-last c xs ys out in rw (strrchr, rest) refl

-- All bytes are digits or dots.
unfoldable pub IsDotted : List ℕ → Type 0
IsDotted [] = Unit
IsDotted (c ∷ cs) = (in_ipv4 c ≡ true) × IsDotted cs

strspn-IsDotted : (xs ys : List ℕ) → IsDotted xs → strspn (xs ++ b':' ∷ ys) ≡ length xs
unfolding strspn IsDotted
strspn-IsDotted [] ys d = refl
strspn-IsDotted (x ∷ xs) ys d = let rest = strspn-IsDotted xs ys d.1 in rw (strspn, d.0, rest) refl

take-length : (xs ys : List ℕ) → take (length xs) (xs ++ ys) ≡ xs
take-length [] ys = refl
take-length (x ∷ xs) ys = ap (λ zs. x ∷ zs) (take-length xs ys)

drop-length : (xs ys : List ℕ) → drop (length xs) (xs ++ ys) ≡ ys
drop-length [] ys = refl
drop-length (x ∷ xs) ys = drop-length xs ys

drop_past : (xs : List ℕ) (c : ℕ) (ys : List ℕ) → drop (suc (length xs)) (xs ++ c ∷ ys) ≡ ys
drop_past [] c ys = refl
drop_past (x ∷ xs) c ys = drop_past xs c ys

not_bracket : (c : ℕ) → in_ipv4 c ≡ true → (c == b'[') ≡ false
not_bracket c d = ground arith

plain_at :
    (xs text : List ℕ)
    → IsDotted xs
    → plain (xs ++ b':' ∷ text) (some (length xs)) ≡ (xs ++ b':' ∷ text, some (xs, text))
plain_at xs text d =
    let str = xs ++ b':' ∷ text in
    let same : (strspn str == length xs) ≡ true =
      ap (λ n. n == length xs) (strspn-IsDotted xs text d) ∙ ==_refl (length xs) in
    rw (same, take-length xs (b':' ∷ text), drop_past xs b':' text) refl

split-dotted :
    (c : ℕ) (cs text : List ℕ)
    → IsDotted (c ∷ cs)
    → member b':' text ≡ false
    → split_port ((c ∷ cs) ++ b':' ∷ text) ≡ ((c ∷ cs) ++ b':' ∷ text, some (c ∷ cs, text))
unfolding split_port IsDotted
split-dotted c cs text d out =
    let at = strrchr-last b':' (c ∷ cs) text out in
    rw (split_port, not_bracket c d.0)
      (ap (plain ((c ∷ cs) ++ b':' ∷ text)) at ∙ plain_at (c ∷ cs) text d)

split-host :
    (host text : List ℕ)
    → IsDotted host
    → 0 < length host
    → member b':' text ≡ false
    → split_port (host ++ b':' ∷ text) ≡ (host ++ b':' ∷ text, some (host, text))
split-host [] text d lt out = absurd (omega arith)
split-host (c ∷ cs) text d lt out = split-dotted c cs text d out

split-bracket :
    (host text : List ℕ)
    → member b']' text ≡ false
    → split_port (b'[' ∷ host ++ b']' ∷ text)
      ≡ (host ++ b']' ∷ text, some (host, behind_bracket text))
unfolding split_port
split-bracket host text out =
    let at = strrchr-last b']' host text out in
    ap (bracketed (host ++ b']' ∷ text)) at
    ∙ ap
        (λ t. (
          host ++ b']' ∷ text,
          some (t, behind_bracket (drop (suc (length host)) (host ++ b']' ∷ text))),
        ))
        (take-length host (b']' ∷ text))
    ∙ ap (λ t. (host ++ b']' ∷ text, some (host, behind_bracket t))) (drop_past host b']' text)

-- The address that is made of what getaddrinfo gives for a host, and of a port: the same host, with this
-- port unless it is 0.
pub data Addresses (n : ℕ) : Option (Option Ip) → Option Ip → Type 0 where
  unresolved : Addresses n none none
  no_result : Addresses n (some none) none
  addressed :
      (a r : Ip)
      → r.family ≡ a.family
      → r.addr ≡ a.addr
      → (n ≡ 0 → r.port ≡ a.port)
      → (0 < n → IsKnown a → get_port r ≡ n)
      → Addresses n (some (some a)) (some r)

set_port-host :
    (a : Ip) (n : ℕ) → ((set_port a n).family ≡ a.family) × ((set_port a n).addr ≡ a.addr)
unfolding set_port
set_port-host a n = of_family a.family
  where
    of_family :
        (f : Family) → ((put_port f n a).family ≡ a.family) × ((put_port f n a).addr ≡ a.addr)
    of_family inet = (refl, refl)
    of_family inet6 = (refl, refl)
    of_family (other m) = (refl, refl)

with_port-Addresses : (n : ℕ) → n ≤ 65535 → (o : Option (Option Ip)) → Addresses n o (with_port n o)
with_port-Addresses n le none = unresolved
with_port-Addresses n le (some none) = no_result
with_port-Addresses n le (some (some a)) = elim (Bool-cases (n == 0)) [
  | inl z ↦
      let zero_port : n ≡ 0 = ground arith in
      rw z (addressed a a refl refl (λ e. refl) (λ lt k. absurd (omega arith)))
  | inr z ↦
      let host = set_port-host a n in
      rw z (
        addressed a (set_port a n) host.0 host.1 (λ e. absurd (ground arith))
          (λ lt k. get_port-set_port a n k (omega arith)))
]

module _ (net : Network) (host text : List ℕ) (n : ℕ) (short : length host ≤ 53)
    (reads : util_strtoll text 10 ≡ (true, pos n)) (small : n ≤ 65535) where
  port_is : str_to_port text ≡ some n
  unfolding str_to_port
  port_is = let le : leb n 65535 ≡ true = ground arith in ap port_read reads ∙ rw le refl

  resolved :
      (str : List ℕ) → resolve net (str, some (host, text)) ≡ with_port n (net.getaddrinfo host)
  resolved str = rw (resolve, port_is, take_all 53 host short) refl

  -- iw_ip_str_to_addr with a port allowed reads a host of digits and dots, a colon and a port
  -- from 0 to 65535 without another colon: it succeeds exactly if getaddrinfo gives an address for the
  -- host, and stores that host with the address's own port if the port is 0, else with this one, if the
  -- address is of IPv4 or IPv6. The host has at most 53 bytes.
  pub str_to_addr-dotted :
      IsDotted host
      → 0 < length host
      → member b':' text ≡ false
      → Addresses n (net.getaddrinfo host) (str_to_addr net (some (host ++ b':' ∷ text)) true)
  unfolding str_to_addr
  str_to_addr-dotted d filled out =
      rw (ap (resolve net) (split-host host text d filled out) ∙ resolved (host ++ b':' ∷ text))
        (with_port-Addresses n small (net.getaddrinfo host))

  -- iw_ip_str_to_addr with a port allowed reads a host of at most 53 bytes in brackets, a colon
  -- and a port as the address of the host with this port.
  pub str_to_addr-bracket :
      member b']' text ≡ false
      → str_to_addr net (some (b'[' ∷ host ++ b']' ∷ b':' ∷ text)) true
        ≡ with_port n (net.getaddrinfo host)
  unfolding str_to_addr
  str_to_addr-bracket out =
      ap (resolve net) (split-bracket host (b':' ∷ text) out)
      ∙ resolved (host ++ b']' ∷ b':' ∷ text)

-- A host in brackets without a port is refused where a port is allowed.
pub str_to_addr_no_port :
    (net : Network) (host : List ℕ) → str_to_addr net (some (b'[' ∷ host ++ b']' ∷ [])) true ≡ none
unfolding str_to_addr
str_to_addr_no_port net host = ap (resolve net) (split-bracket host [] refl)
