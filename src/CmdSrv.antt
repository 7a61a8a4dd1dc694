-- ===== src/CmdSrv.antt =====
-- src/iw_cmd_srv.c: the command server, over the buffer and the commands. A socket's recv gives NULL
-- for an error and no bytes for a connection that was closed. What is written for a request is its
-- line, and then what the command writes, which is left out; so are the log, usleep, the thread's
-- creation and the closing of the client's file.
pub mod Chunks
pub mod Runs
pub mod Start
use insta_works.Base.{
  ℕ, suc, ◌+◌, Bool, true, false, ◌&&◌, Option, none, some, List, [], ◌∷◌, ◌++◌, ◌==◌,
  if◌then◌else◌, length, take, codes,
}
use insta_works.Buff.{
  Buff, create, remainder, reserve_data, write_block, commit_data, remove_data, destroy,
}
use insta_works.Cmds.{Cmds, ParseInfo, Ran, get_token, process_internal}

abbrev pub buff_size : ℕ
buff_size = 1024

-- `strstr(buff, "\r\n")` on the bytes of a block: the place, or NULL behind a NUL, or the block ends
-- before.
pub data Crlf : Type 0 where
  at : ℕ → Crlf
  nowhere : Crlf
  over_read : Crlf

abbrev pub later : Crlf → Crlf
later (at n) = at (suc n)
later nowhere = nowhere
later over_read = over_read

abbrev pub next_is_lf : List ℕ → Bool
next_is_lf [] = false
next_is_lf (c ∷ cs) = c == 10

unfoldable pub find_crlf : List ℕ → Crlf
find_crlf [] = over_read
find_crlf (c ∷ cs) =
    let rest = find_crlf cs in
    if c == 0 then nowhere else if c == 13 && next_is_lf cs then at 0 else later rest

-- How a connection ends: recv fails or finds it closed, the buffer is full or cannot be used, a request
-- was processed, or strstr reads behind the block.
pub data Outcome : Type 0 where
  closed : Outcome
  failed : Outcome
  processed : List ℕ → Ran → Outcome
  reads_behind : Outcome
  -- What is received is written to a file that fdopen has not opened.
  writes_null : Outcome

-- The first call of strtok_r.
unfoldable pub first_token : List ℕ → ParseInfo
unfolding get_token
first_token line = (get_token (record { token = none; saveptr = line })).1

-- What was written, how the connection ended, whether the NUL byte was sent, and the buffer.
pub record Connection : Type 0 where
  pub out : List ℕ
  pub outcome : Outcome
  pub sent_nul : Bool
  pub buff : Buff

abbrev pub ended : Outcome → Buff → Connection
ended outcome b = record { out = []; outcome = outcome; sent_nul = false; buff = b }

abbrev pub block_of : Buff → List ℕ
block_of b = elim b.buff [ none ↦ [] | some m ↦ m ]

-- `levels` bounds the levels of the command tree that iw_cmds_process goes down; `opened` says whether
-- fdopen succeeds.
module _ (levels : ℕ) (c : Cmds) (opened : Bool) where
  -- The body of iw_cmd_srv_parse_request at a request of the length `len`.
  unfoldable pub run_line : Buff → ℕ → Connection
  unfolding first_token process_internal remove_data
  run_line b len =
      let line = take len (block_of b) in
      record {
        out = codes "Received request: " ++ line ++ codes "\n";
        outcome = processed line (process_internal levels c c.root (first_token line));
        sent_nul = true;
        buff = remove_data b (len + 2);
      }

  -- iw_cmd_srv_parse_request and what follows it in the loop.
  abbrev pub parsed : (go_on : Buff → Connection) → Buff → Crlf → Connection
  parsed go_on b (at len) = if opened then run_line b len else ended writes_null b
  parsed go_on b nowhere = go_on b
  parsed go_on b over_read = ended reads_behind b

  -- What follows iw_buff_reserve_data, with the result of recv.
  unfoldable pub reserved :
      (go_on : Buff → Connection) → Option (List ℕ) → Bool × Option ℕ × Buff → Connection
  unfolding run_line find_crlf commit_data write_block
  reserved go_on recv (false, ptr, b) = ended failed b
  reserved go_on recv (true, none, b) = ended failed b
  reserved go_on none (true, some ptr, b) = ended closed b
  reserved go_on (some []) (true, some ptr, b) = ended closed b
  reserved go_on (some (x ∷ xs)) (true, some ptr, b) =
      let b' = commit_data (write_block b ptr (x ∷ xs)) (length (x ∷ xs)) in
      parsed go_on b' (find_crlf (block_of b'))

  -- The loop over what recv gives; when nothing is left, recv gives 0. Of a chunk, as much comes as
  -- there is room for. `mem` and `fresh` are the reallocations.
  unfoldable pub request_loop :
      (mem : Bool) (fresh : List ℕ) → List (Option (List ℕ)) → Buff → Connection
  unfolding remainder reserve_data reserved
  request_loop mem fresh [] b = if remainder b == 0 then ended failed b else ended closed b
  request_loop mem fresh (recv ∷ recvs) b =
      if remainder b == 0
      then ended failed b
      else reserved (request_loop mem fresh recvs) recv (reserve_data mem fresh b (remainder b))

  unfoldable pub released : Connection → Connection
  unfolding destroy
  released conn = record conn { buff = destroy conn.buff }

  unfoldable pub created :
      (mem : Bool) (fresh : List ℕ) → List (Option (List ℕ)) → Bool × Buff → Connection
  unfolding request_loop
  created mem fresh recvs (false, b) = ended failed b
  created mem fresh recvs (true, b) = request_loop mem fresh recvs b

  -- iw_cmd_srv_process_request; `buff_mem` is the allocation of the buffer.
  unfoldable pub process_request :
      (buff_mem mem : Bool) (fresh : List ℕ) → List (Option (List ℕ)) → Connection
  unfolding create created released
  process_request buff_mem mem fresh recvs =
      released (created mem fresh recvs (create buff_mem buff_size buff_size))
