-- ===== src/CmdSrv/Runs.antt =====
-- iw_cmd_srv_process_request of src/iw_cmd_srv.c as a whole, and strstr behind a full block.
use mathlib.Core.List.{flatten, map, append-nil}
use insta_works.Base.{
  ℕ, ◌+◌, ◌-◌, ◌≤◌, ◌≡◌, refl, ap, ◌∙◌, Bool, true, false, Option, some, List, [], ◌∷◌, ◌++◌, arith,
  ◌==◌, length, replicate,
}
use insta_works.Buff.{create}
use insta_works.Cmds.{Cmds}
use insta_works.CmdSrv.{
  buff_size, over_read, find_crlf, reads_behind, request_loop, released, created, process_request,
  parsed,
}
use insta_works.CmdSrv.Chunks.{
  IsPlain, line_end, NonEmpty, Served, holding, request_loop-Served, one_round,
}

module _ (levels : ℕ) (c : Cmds) (mem : Bool) (fresh : List ℕ) where
  -- The command server, with memory for its buffer and a file to write to, on a connection over which a line without NUL and
  -- carriage return and then its line end arrive, in any pieces that are not empty, together no longer
  -- than the buffer. The server processes exactly that line: it writes what it received, runs the
  -- commands from the root on the line's first token, and sends the NUL byte.
  pub process_request-Served :
      (line b : List ℕ) (chunks : List (List ℕ))
      → IsPlain line
      → length line + 2 ≤ buff_size
      → NonEmpty (b ∷ chunks)
      → b ++ flatten chunks ≡ line ++ line_end
      → Served levels c line (process_request levels c true true mem fresh (map some (b ∷ chunks)))
  unfolding process_request released created create
  process_request-Served line b chunks s short full all =
      let w =
        request_loop-Served levels c mem fresh line b chunks buff_size [] s short full (omega arith)
          all in
      record { outcome = w.outcome; sent_nul = w.sent_nul; out = w.out }

  no_crlf : (bytes : List ℕ) → IsPlain bytes → find_crlf bytes ≡ over_read
  unfolding find_crlf
  no_crlf [] s = refl
  no_crlf (x ∷ xs) s =
      let nul : (x == 0) ≡ false = ground (arith, s.0) in
      let cr : (x == 13) ≡ false = ground (arith, s.1) in
      rw (find_crlf, nul, cr, no_crlf xs s.2) refl

  -- A client that sends exactly as many bytes as the buffer has, without a NUL or a carriage return,
  -- makes strstr read behind the buffer.
  pub process_request-over_read :
      (opened : Bool) (b : ℕ) (bytes : List ℕ) (recvs : List (Option (List ℕ)))
      → IsPlain (b ∷ bytes)
      → length (b ∷ bytes) ≡ buff_size
      → (process_request levels c opened true mem fresh (some (b ∷ bytes) ∷ recvs)).outcome
        ≡ reads_behind
  unfolding process_request released created create
  process_request-over_read opened b bytes recvs s e =
      let none_left : buff_size - length (b ∷ bytes) ≡ 0 = omega (arith, e) in
      let behind : find_crlf ((b ∷ bytes) ++ replicate (buff_size - length (b ∷ bytes)) 0)
          ≡ over_read =
        rw none_left (ap find_crlf (append-nil (b ∷ bytes)) ∙ no_crlf (b ∷ bytes) s) in
      let step =
        one_round levels c opened mem fresh recvs buff_size [] b bytes (omega arith)
          (omega (arith, e)) in
      ap (λ conn. conn.outcome)
        (step
          ∙ ap
              (parsed levels c opened (request_loop levels c opened mem fresh recvs)
                (holding (buff_size - length (b ∷ bytes)) (b ∷ bytes)))
              behind)
