-- ===== src/Tests/Requests.antt =====
-- The command "q" of a client, which reaches the command server in two pieces.
use mathlib.Core.List.{flatten, map}
use insta_works.Base.{
  ℕ, zero, suc, ◌≡◌, refl, Bool, true, false, some, List, [], ◌∷◌, arith, length-replicate,
  replicate,
}
use insta_works.Cmds.{ParseInfo, called}
use insta_works.Cmds.Lookup.{Leads, here}
use insta_works.CmdSrv.{processed, reads_behind, process_request}
use insta_works.CmdSrv.Chunks.{IsPlain, Served}
use insta_works.CmdSrv.Runs.{process_request-Served, process_request-over_read}
use insta_works.Ip.{open_client_socket}
use insta_works.CmdClnt.{cmd_clnt, connected, answered, send_args}
use insta_works.CmdClnt.Talks.{joined, Talks, cmd_clnt-Talks}
use insta_works.CmdClnt.Reaches.{clnt-srv-called}
use insta_works.Tests.Commands.{with_q, has_q}

abbrev quit : List ℕ
quit = 113 ∷ []

-- The line and its end, cut behind the carriage return.
abbrev pieces : List (List ℕ)
pieces = (10 ∷ []) ∷ []

process_request-Served_example :
    Served 2 with_q quit
      (process_request 2 with_q true true false [] (map some ((113 ∷ 13 ∷ []) ∷ pieces)))
unfolding flatten
process_request-Served_example =
    process_request-Served 2 with_q false [] quit (113 ∷ 13 ∷ []) pieces
      (omega arith, (λ e. absurd (omega (arith, e))), tt) (omega arith) tt refl

replicate-IsPlain : (n : ℕ) → IsPlain (replicate n b'a')
replicate-IsPlain zero = tt
replicate-IsPlain (suc n) = (omega arith, (λ e. absurd (omega (arith, e))), replicate-IsPlain n)

abbrev letters : List ℕ
letters = replicate 1023 b'a'

process_request-over_read_example :
    (process_request 2 with_q true true false [] (some (b'a' ∷ letters) ∷ [])).outcome
    ≡ reads_behind
process_request-over_read_example =
    process_request-over_read 2 with_q false [] true b'a' letters [] (replicate-IsPlain 1024)
      (length-replicate {A = ℕ} 1024 b'a')

abbrev sends : ℕ → Bool
sends n = true

cmd_clnt-Talks_example :
    Talks sends
      (quit ∷ [])
      ((111 ∷ 107 ∷ 0 ∷ []) ∷ [])
      (3 ∷ [])
      (cmd_clnt (some 4) true sends (quit ∷ []) ((111 ∷ 107 ∷ 0 ∷ []) ∷ []) (3 ∷ []))
cmd_clnt-Talks_example =
    cmd_clnt-Talks (some 4) true sends (quit ∷ []) ((111 ∷ 107 ∷ 0 ∷ []) ∷ []) (3 ∷ [])

leads_q : Leads with_q 0 (quit ∷ []) 7 quit
leads_q = here {p = 0} {a = 1} has_q refl

clnt-srv-called_example :
    (info : ParseInfo) × ((process_request 2 with_q true true false []
        (map some ((113 ∷ 13 ∷ []) ∷ pieces))).outcome
      ≡ processed (joined (quit ∷ [])) (called 7 quit info))
unfolding flatten joined cmd_clnt connected answered send_args open_client_socket
clnt-srv-called_example =
    clnt-srv-called 2 with_q false [] 4 sends [] [] quit [] 7 quit (113 ∷ 13 ∷ []) pieces
      (λ i. refl)
      (((λ e. absurd (omega (arith, e))), omega arith, (λ e. absurd (omega (arith, e))), tt), tt)
      leads_q (omega arith) (omega arith) tt refl
