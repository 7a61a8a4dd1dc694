-- ===== src/CmdClnt/Talks.antt =====
-- What the client of src/iw_cmd_clnt.c sends and prints, and that it leaves no socket open.
use mathlib.Core.List.{flatten, append_assoc, append-nil}
use insta_works.Base.{
  ℕ, suc, ◌≡◌, refl, sym, ap, ◌∙◌, Bool, true, false, Bool-cases, inl, inr, Option, none, some,
  List, [], ◌∷◌, ◌++◌, arith, ◌==◌, ==_refl, member,
}
use insta_works.Ip.{open_client_socket, without}
use insta_works.Ip.Ports.{Opens, open_client_socket-Opens}
use insta_works.WebSrv.{c_text}
use insta_works.CmdClnt.{close_left, send_args, read_loop, Client, answered, connected, cmd_clnt}

-- The arguments with a blank between each two.
unfoldable pub joined : List (List ℕ) → List ℕ
joined [] = []
joined (arg ∷ []) = arg
joined (arg ∷ next ∷ args) = arg ++ b' ' ∷ joined (next ∷ args)

send_args-joined :
    (ok : ℕ → Bool) (n : ℕ) (argv : List (List ℕ))
    → ((i : ℕ) → ok i ≡ true)
    → send_args ok n argv ≡ (true, joined argv ++ 13 ∷ 10 ∷ [])
unfolding send_args joined
send_args-joined ok n [] all = rw (send_args, all n) refl
send_args-joined ok n (arg ∷ []) all = rw (send_args, all n, all (suc n)) refl
send_args-joined ok n (arg ∷ next ∷ args) all =
    rw
      (
        send_args,
        all n,
        all (suc n),
        send_args-joined ok (suc (suc n)) (next ∷ args) all,
        append_assoc arg (b' ' ∷ joined (next ∷ args)) (13 ∷ 10 ∷ []),
      )
      refl

c_text-plain : (xs : List ℕ) → member 0 xs ≡ false → c_text xs ≡ xs
unfolding c_text
c_text-plain [] e = refl
c_text-plain (x ∷ xs) e = ground (arith, c_text-plain xs)

c_text-append_plain : (xs ys : List ℕ) → member 0 xs ≡ false → c_text (xs ++ ys) ≡ xs ++ c_text ys
unfolding c_text
c_text-append_plain [] ys e = refl
c_text-append_plain (x ∷ xs) ys e =
    let here : (x == 0) ≡ false = ground arith in
    let rest : member 0 xs ≡ false = ground arith in
    rw (c_text, here, c_text-append_plain xs ys rest) refl

c_text-append_nul : (xs ys : List ℕ) → member 0 xs ≡ true → c_text (xs ++ ys) ≡ c_text xs
unfolding c_text
c_text-append_nul [] ys e = absurd cc
c_text-append_nul (x ∷ xs) ys e = elim (Bool-cases (x == 0)) [
  | inl z ↦ rw (c_text, z) refl
  | inr z ↦
      let rest : member 0 xs ≡ true = ground arith in
      rw (c_text, z, c_text-append_nul xs ys rest) refl
]

module _ (sock : ℕ) (fds : List ℕ) where
  read_loop-text :
      (chunks : List (List ℕ)) (printed : List ℕ)
      → (read_loop sock fds chunks printed).0 ≡ printed ++ c_text (flatten chunks)
  unfolding read_loop flatten c_text
  read_loop-text [] printed = sym (append-nil printed)
  read_loop-text (chunk ∷ chunks) printed = elim (Bool-cases (member 0 chunk)) [
    | inl e ↦ rw (read_loop, e, c_text-append_nul chunk (flatten chunks) e) refl
    | inr e ↦
        rw (read_loop, e, c_text-append_plain chunk (flatten chunks) e, c_text-plain chunk e)
          (read_loop-text chunks (printed ++ chunk) ∙ append_assoc printed chunk _)
  ]

  read_loop-close_left :
      (chunks : List (List ℕ)) (printed : List ℕ)
      → let r = read_loop sock fds chunks printed in close_left r.1 r.2 ≡ without sock fds
  unfolding read_loop close_left
  read_loop-close_left [] printed = refl
  read_loop-close_left (chunk ∷ chunks) printed = elim (Bool-cases (member 0 chunk)) [
    | inl e ↦ rw (read_loop, e) refl
    | inr e ↦ rw (read_loop, e) (read_loop-close_left chunks (printed ++ c_text chunk))
  ]

-- A call of the client that was given `argv`, when recv gives `chunks` and `ok` says which calls of send
-- succeed.
pub record Talks (ok : ℕ → Bool) (argv chunks : List (List ℕ)) (fds : List ℕ) (r : Client)
    : Type 0 where
  pub released : r.fds ≡ fds
  pub sent : ((i : ℕ) → ok i ≡ true) → r.result ≡ true → r.sent ≡ joined argv ++ 13 ∷ 10 ∷ []
  pub printed :
      ((i : ℕ) → ok i ≡ true) → r.result ≡ true → r.printed ≡ c_text (flatten chunks) ++ b'\n' ∷ []

answered-Talks :
    (sock : ℕ) (ok : ℕ → Bool) (argv chunks : List (List ℕ)) (fds fds' : List ℕ)
    (sent : Bool × List ℕ)
    → fds' ≡ sock ∷ fds
    → (((i : ℕ) → ok i ≡ true) → sent ≡ (true, joined argv ++ 13 ∷ 10 ∷ []))
    → Talks ok argv chunks fds (answered sock fds' chunks sent)
unfolding answered close_left
answered-Talks sock ok argv chunks fds fds' (false, sent) o e = record {
  released = rw (o, ==_refl sock) refl;
  sent = λ all q. let no : false ≡ true = ap (λ (r : Bool × List ℕ). r.0) (e all) in absurd cc;
  printed = λ all q. let no : false ≡ true = ap (λ (r : Bool × List ℕ). r.0) (e all) in absurd cc;
}
answered-Talks sock ok argv chunks fds fds' (true, sent) o e = record {
  released = read_loop-close_left sock fds' chunks [] ∙ rw (o, ==_refl sock) refl;
  sent = λ all q. ap (λ (r : Bool × List ℕ). r.1) (e all);
  printed = λ all q. ap (λ r. r ++ b'\n' ∷ []) (read_loop-text sock fds' chunks []);
}

-- The client leaves no socket open, whichever of its calls fail. If every send succeeds and the call
-- returns true, it has sent the arguments with one blank between each two and the line end, and has
-- printed what it received up to the first NUL byte, or all of it if there is none, and a newline.
pub cmd_clnt-Talks :
    (socket : Option ℕ) (connects : Bool) (ok : ℕ → Bool) (argv chunks : List (List ℕ))
    (fds : List ℕ)
    → Talks ok argv chunks fds (cmd_clnt socket connects ok argv chunks fds)
unfolding cmd_clnt Opens connected
cmd_clnt-Talks socket connects ok argv chunks fds =
    of_socket (open_client_socket socket connects fds)
      (open_client_socket-Opens socket connects fds)
  where
    of_socket :
        (r : Option ℕ × List ℕ)
        → Opens fds r
        → Talks ok argv chunks fds (connected ok argv chunks r)
    of_socket (none, left) o = record {
      released = o;
      sent = λ all q. absurd cc;
      printed = λ all q. absurd cc;
    }
    of_socket (some sock, left) o =
        answered-Talks sock ok argv chunks fds left (send_args ok 0 argv) o
          (send_args-joined ok 0 argv)

-- If the client is connected and some send fails, it still returns true, and has printed nothing.
pub cmd_clnt_unsent :
    (sock : ℕ) (ok : ℕ → Bool) (argv chunks : List (List ℕ)) (fds : List ℕ)
    → (send_args ok 0 argv).0 ≡ false
    → let r = cmd_clnt (some sock) true ok argv chunks fds in
      (r.result ≡ true) × (r.printed ≡ []) × (r.fds ≡ fds)
unfolding cmd_clnt connected open_client_socket answered close_left
cmd_clnt_unsent sock ok argv chunks fds e = of_sends (send_args ok 0 argv) e
  where
    of_sends :
        (sent : Bool × List ℕ)
        → sent.0 ≡ false
        → let r = answered sock (sock ∷ fds) chunks sent in
          (r.result ≡ true) × (r.printed ≡ []) × (r.fds ≡ fds)
    of_sends (true, sent) e = absurd cc
    of_sends (false, sent) e = (refl, refl, rw (==_refl sock) refl)
