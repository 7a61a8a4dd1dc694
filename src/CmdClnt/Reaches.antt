-- ===== src/CmdClnt/Reaches.antt =====
-- The client of src/iw_cmd_clnt.c, the server of src/iw_cmd_srv.c and the commands of src/iw_cmds.c
-- together.
use mathlib.Core.List.{flatten, map}
use insta_works.Base.{
  ℕ, ◌+◌, ◌≤◌, ◌<◌, ◌≡◌, ◌≢◌, refl, ap, ◌∙◌, Bool, true, false, Option, some, List, [], ◌∷◌, ◌++◌,
  arith, ◌==◌, length,
}
use insta_works.Cmds.{
  Cmds, ParseInfo, called, skip_blanks, cut_token, next_token, get_token, process_internal,
}
use insta_works.Cmds.Lookup.{Words, no_more, word, Leads, process_internal-Leads}
use insta_works.CmdSrv.{buff_size, processed, first_token, process_request}
use insta_works.CmdSrv.Chunks.{IsPlain, NonEmpty}
use insta_works.CmdSrv.Runs.{process_request-Served}
use insta_works.Ip.{open_client_socket}
use insta_works.CmdClnt.{send_args, answered, connected, cmd_clnt}
use insta_works.CmdClnt.Talks.{joined, cmd_clnt-Talks}

-- No blank, no NUL and no carriage return.
abbrev pub AllInert : List ℕ → Type 0
AllInert [] = Unit
AllInert (c ∷ cs) = (c ≢ b' ') × (0 < c) × (c ≢ 13) × AllInert cs

abbrev pub AreWords : List (List ℕ) → Type 0
AreWords [] = Unit
AreWords ([] ∷ args) = ⊥
AreWords ((c ∷ cs) ∷ args) = AllInert (c ∷ cs) × AreWords args

cut_token-last : (w : List ℕ) → AllInert w → cut_token w ≡ (w, [])
unfolding cut_token
cut_token-last [] s = refl
cut_token-last (c ∷ cs) s =
    let blank : (c == b' ') ≡ false = ground (arith, s.0) in
    rw (cut_token, blank, cut_token-last cs s.3) refl

cut_token-blank : (w rest : List ℕ) → AllInert w → cut_token (w ++ b' ' ∷ rest) ≡ (w, rest)
unfolding cut_token
cut_token-blank [] rest s = refl
cut_token-blank (c ∷ cs) rest s =
    let blank : (c == b' ') ≡ false = ground (arith, s.0) in
    rw (cut_token, blank, cut_token-blank cs rest s.3) refl

-- What strtok_r leaves of some arguments behind the first.
abbrev left_of : List (List ℕ) → List ℕ
left_of [] = []
left_of (arg ∷ args) = joined (arg ∷ args)

first-word :
    (w : List ℕ) (ws : List (List ℕ))
    → AreWords (w ∷ ws)
    → next_token (skip_blanks (joined (w ∷ ws))) ≡ (some w, left_of ws)
unfolding next_token skip_blanks joined
first-word [] ws s = absurd s
first-word (c ∷ cs) [] s =
    let blank : (c == b' ') ≡ false = ground (arith, s.0.0) in
    rw (skip_blanks, blank, cut_token-last (c ∷ cs) s.0) refl
first-word (c ∷ cs) (w ∷ ws) s =
    let blank : (c == b' ') ≡ false = ground (arith, s.0.0) in
    rw (skip_blanks, blank, cut_token-blank (c ∷ cs) (joined (w ∷ ws)) s.0) refl

left_of-Words : (ws : List (List ℕ)) → AreWords ws → Words (left_of ws) ws
unfolding next_token skip_blanks
left_of-Words [] s = no_more refl
left_of-Words ([] ∷ ws) s = absurd s
left_of-Words ((c ∷ cs) ∷ ws) s = word (first-word (c ∷ cs) ws s) (left_of-Words ws s.1)

append-IsPlain : (xs ys : List ℕ) → AllInert xs → IsPlain ys → IsPlain (xs ++ ys)
append-IsPlain [] ys s t = t
append-IsPlain (x ∷ xs) ys s t = (s.1, s.2, append-IsPlain xs ys s.3 t)

inert-IsPlain : (xs : List ℕ) → AllInert xs → IsPlain xs
inert-IsPlain [] s = tt
inert-IsPlain (x ∷ xs) s = (s.1, s.2, inert-IsPlain xs s.3)

joined-IsPlain : (ws : List (List ℕ)) → AreWords ws → IsPlain (joined ws)
unfolding joined
joined-IsPlain [] s = tt
joined-IsPlain ([] ∷ ws) s = absurd s
joined-IsPlain ((c ∷ cs) ∷ []) s = inert-IsPlain (c ∷ cs) s.0
joined-IsPlain ((c ∷ cs) ∷ w ∷ ws) s =
    append-IsPlain (c ∷ cs) (b' ' ∷ joined (w ∷ ws)) s.0
      (omega arith, (λ e. absurd (omega (arith, e))), joined-IsPlain (w ∷ ws) s.1)

-- A program is started with arguments, each of them not empty and without blanks, NULs and carriage
-- returns, that lead to a command of the server; every send succeeds, and the bytes that were sent
-- reach the command server, which has memory for its buffer and a file to write to, in any pieces that are not empty, no more of them than its buffer has. Then
-- the server calls the function of that command.
pub clnt-srv-called :
    (levels : ℕ) (c : Cmds) (mem : Bool) (fresh : List ℕ) (sock : ℕ) (ok : ℕ → Bool)
    (replies : List (List ℕ)) (fds : List ℕ) (w : List ℕ) (ws : List (List ℕ)) (fn : ℕ)
    (cmd b : List ℕ) (chunks : List (List ℕ))
    → ((i : ℕ) → ok i ≡ true)
    → AreWords (w ∷ ws)
    → Leads c c.root (w ∷ ws) fn cmd
    → length ws < levels
    → length (joined (w ∷ ws)) + 2 ≤ buff_size
    → NonEmpty (b ∷ chunks)
    → b ++ flatten chunks ≡ (cmd_clnt (some sock) true ok (w ∷ ws) replies fds).sent
    → (info : ParseInfo) × ((process_request levels c true true mem fresh
          (map some (b ∷ chunks))).outcome
        ≡ processed (joined (w ∷ ws)) (called fn cmd info))
unfolding first_token get_token cmd_clnt connected open_client_socket answered
clnt-srv-called levels c mem fresh sock ok replies fds w ws fn cmd b chunks all words leads lt short
      full pieces =
    let line = joined (w ∷ ws) in
    let talk = cmd_clnt-Talks (some sock) true ok (w ∷ ws) replies fds in
    let sent = talk.sent all (connected_true (send_args ok 0 (w ∷ ws))) in
    let served =
      process_request-Served levels c mem fresh line b chunks (joined-IsPlain (w ∷ ws) words) short
        full (pieces ∙ sent) in
    let run =
      process_internal-Leads c levels c.root fn w cmd (left_of ws) ws
        (left_of-Words ws (rest_of w words)) leads lt in
    let first : first_token line ≡ record { token = some w; saveptr = left_of ws } =
      ap (λ (r : Option (List ℕ) × List ℕ). record { token = r.0; saveptr = r.1 })
        (first-word w ws words) in
    (
      run.0,
      served.outcome
          ∙ ap (λ i. processed line (process_internal levels c c.root i)) first
          ∙ ap (processed line) run.1,
    )
  where
    connected_true : (s : Bool × List ℕ) → (answered sock (sock ∷ fds) replies s).result ≡ true
    connected_true (true, sent) = refl
    connected_true (false, sent) = refl

    rest_of : (w : List ℕ) → AreWords (w ∷ ws) → AreWords ws
    rest_of [] s = absurd s
    rest_of (x ∷ xs) s = s.1
