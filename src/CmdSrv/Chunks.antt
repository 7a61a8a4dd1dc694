-- ===== src/CmdSrv/Chunks.antt =====
-- The request loop of src/iw_cmd_srv.c on a line that arrives in any pieces.
use mathlib.Core.List.{flatten, map, append_assoc, append-nil}
use insta_works.Base.{
  ℕ, zero, suc, ◌+◌, ◌-◌, ◌≤◌, ◌<◌, ◌≡◌, ◌≢◌, refl, sym, ap, ◌∙◌, Bool, true, false, Option, some,
  List, [], ◌∷◌, ◌++◌, arith, ◌==◌, leb, length, length-append, length-replicate, replicate, take,
  codes,
}
use insta_works.Buff.{Buff, remainder, write_at, write_block, commit_data, u64}
use insta_works.Buff.Bounds.{IsValid, remainder-eq}
use insta_works.Cmds.{Cmds, process_internal}
use insta_works.CmdSrv.{
  buff_size, at, nowhere, find_crlf, processed, first_token, Connection, block_of, run_line, parsed,
  reserved, request_loop,
}

abbrev pub line_end : List ℕ
line_end = 13 ∷ 10 ∷ []

-- No NUL and no carriage return.
abbrev pub IsPlain : List ℕ → Type 0
IsPlain [] = Unit
IsPlain (c ∷ cs) = (0 < c) × (c ≢ 13) × IsPlain cs

find_crlf-plain :
    (line rest : List ℕ) → IsPlain line → find_crlf (line ++ 13 ∷ 10 ∷ rest) ≡ at (length line)
unfolding find_crlf
find_crlf-plain [] rest s = refl
find_crlf-plain (c ∷ cs) rest s =
    let nul : (c == 0) ≡ false = ground (arith, s.0) in
    let cr : (c == 13) ≡ false = ground (arith, s.1) in
    rw (find_crlf, nul, cr, find_crlf-plain cs rest s.2) refl

-- A proper prefix of the line and its end, with zeros behind it.
find_crlf-prefix :
    (xs rest line : List ℕ) (c k : ℕ)
    → IsPlain line
    → xs ++ (c ∷ rest) ≡ line ++ line_end
    → find_crlf (xs ++ replicate (suc k) 0) ≡ nowhere
unfolding find_crlf
find_crlf-prefix [] rest line c k s e = refl
find_crlf-prefix (x ∷ []) rest [] c k s e = let first : x ≡ 13 = cc in rw first refl
find_crlf-prefix (x ∷ y ∷ xs) rest [] c k s e = absurd (too_long xs e)
  where
    tail_of : List ℕ → List ℕ
    tail_of [] = []
    tail_of (z ∷ zs) = zs

    too_long : (xs : List ℕ) → x ∷ y ∷ (xs ++ (c ∷ rest)) ≡ line_end → ⊥
    too_long [] e = let gone : c ∷ rest ≡ [] = cc in cc
    too_long (z ∷ zs) e = let gone : z ∷ (zs ++ (c ∷ rest)) ≡ [] = cc in cc
find_crlf-prefix (x ∷ xs) rest (l ∷ line) c k s e =
    let first : x ≡ l = cc in
    let others : xs ++ (c ∷ rest) ≡ line ++ line_end = cc in
    let nul : (x == 0) ≡ false = rw first (ground (arith, s.0)) in
    let cr : (x == 13) ≡ false = rw first (ground (arith, s.1)) in
    rw (find_crlf, nul, cr, find_crlf-prefix xs rest line c k s.2 others) refl

write_at-zeros :
    (k : ℕ) (xs : List ℕ)
    → length xs ≤ k
    → write_at 0 xs (replicate k 0) ≡ xs ++ replicate (k - length xs) 0
unfolding write_at
write_at-zeros zero [] le = refl
write_at-zeros (suc k) [] le = let all : suc k - 0 ≡ suc k = omega arith in rw all refl
write_at-zeros zero (x ∷ xs) le = absurd (omega (arith, le))
write_at-zeros (suc k) (x ∷ xs) le =
    ap (λ r. x ∷ r)
      (write_at-zeros k xs (omega (arith, le)) ∙ ap (λ n. xs ++ replicate n 0) (omega arith))

write_at-end :
    (xs bytes m : List ℕ) → write_at (length xs) bytes (xs ++ m) ≡ xs ++ write_at 0 bytes m
unfolding write_at
write_at-end [] bytes m = refl
write_at-end (x ∷ xs) bytes m = ap (λ r. x ∷ r) (write_at-end xs bytes m)

-- The buffer with the bytes `xs` and `k` zeros behind them.
abbrev pub holding : ℕ → List ℕ → Buff
holding k xs = record {
  buff = some (xs ++ replicate k 0);
  end = length xs;
  size = buff_size;
  max_size = buff_size;
}

holding-IsValid :
    (k : ℕ) (xs : List ℕ) → length xs + k ≡ buff_size → IsValid (holding k xs) (xs ++ replicate k 0)
holding-IsValid k xs e =
    let zeros : List ℕ = replicate k 0 in
    let long : length zeros ≡ k = length-replicate {A = ℕ} k 0 in
    record {
      holds = refl;
      sized = length-append xs zeros ∙ omega (arith, long, e);
      fits = omega (arith, e);
      small = omega arith;
    }

received :
    (k : ℕ) (xs bytes : List ℕ)
    → length xs + k ≡ buff_size
    → length bytes ≤ k
    → commit_data (write_block (holding k xs) (length xs) bytes) (length bytes)
      ≡ holding (k - length bytes) (xs ++ bytes)
unfolding commit_data write_block
received k xs bytes e le =
    let sum : u64 (length xs + length bytes) ≡ length (xs ++ bytes) =
      omega (arith, length-append xs bytes, e) in
    let block : write_at (length xs) bytes (xs ++ replicate k 0)
        ≡ (xs ++ bytes) ++ replicate (k - length bytes) 0 =
      write_at-end xs bytes (replicate k 0)
      ∙ ap (λ r. xs ++ r) (write_at-zeros k bytes le)
      ∙ sym (append_assoc xs bytes (replicate (k - length bytes) 0)) in
    rw (sum, block) refl

-- The chunks are not empty.
abbrev pub NonEmpty : List (List ℕ) → Type 0
NonEmpty [] = Unit
NonEmpty ([] ∷ xss) = ⊥
NonEmpty ((x ∷ xs) ∷ xss) = NonEmpty xss

module _ (levels : ℕ) (c : Cmds) where
  -- The connection has processed the line: what was written for it, and the NUL byte behind it.
  pub record Served (line : List ℕ) (conn : Connection) : Type 0 where
    pub outcome :
        conn.outcome ≡ processed line (process_internal levels c c.root (first_token line))
    pub sent_nul : conn.sent_nul ≡ true
    pub out : conn.out ≡ codes "Received request: " ++ line ++ codes "\n"

  take_line : (line rest : List ℕ) → take (length line) (line ++ rest) ≡ line
  take_line [] rest = refl
  take_line (x ∷ xs) rest = ap (λ r. x ∷ r) (take_line xs rest)

  run_line-Served :
      (k : ℕ) (xs line : List ℕ)
      → xs ≡ line ++ line_end
      → Served line (run_line levels c true (holding k xs) (length line))
  unfolding run_line
  run_line-Served k xs line e =
      let whole : xs ++ replicate k 0 ≡ line ++ (line_end ++ replicate k 0) =
        rw e (append_assoc line line_end (replicate k 0)) in
      let text : take (length line) (xs ++ replicate k 0) ≡ line =
        ap (take (length line)) whole ∙ take_line line (line_end ++ replicate k 0) in
      record { outcome = rw text refl; sent_nul = refl; out = rw text refl }

  -- A round of the loop in which some bytes arrive that fit.
  pub one_round :
      (opened mem : Bool) (fresh : List ℕ) (recvs : List (Option (List ℕ))) (k : ℕ) (xs : List ℕ)
      (b : ℕ) (bs : List ℕ)
      → length xs + k ≡ buff_size
      → length (b ∷ bs) ≤ k
      → request_loop levels c opened mem fresh (some (b ∷ bs) ∷ recvs) (holding k xs)
        ≡ parsed levels c opened
            (request_loop levels c opened mem fresh recvs)
            (holding (k - length (b ∷ bs)) (xs ++ (b ∷ bs)))
            (find_crlf ((xs ++ (b ∷ bs)) ++ replicate (k - length (b ∷ bs)) 0))
  unfolding request_loop reserved
  one_round opened mem fresh recvs k xs b bs e le =
      let v = holding-IsValid k xs e in
      let room : remainder (holding k xs) ≡ k =
        remainder-eq (holding k xs) (xs ++ replicate k 0) v ∙ omega (arith, e) in
      let some_room : (k == 0) ≡ false = ground (arith, le) in
      let fits : leb k k ≡ true = ground arith in
      rw (request_loop, room, some_room, fits)
        (ap
          (λ b'.
            parsed levels c opened (request_loop levels c opened mem fresh recvs) b'
              (find_crlf (block_of b')))
          (received k xs (b ∷ bs) e le))

  pub request_loop-Served :
      (mem : Bool) (fresh : List ℕ) (line b : List ℕ) (chunks : List (List ℕ)) (k : ℕ) (xs : List ℕ)
      → IsPlain line
      → length line + 2 ≤ buff_size
      → NonEmpty (b ∷ chunks)
      → length xs + k ≡ buff_size
      → xs ++ (b ++ flatten chunks) ≡ line ++ line_end
      → Served line (request_loop levels c true mem fresh (map some (b ∷ chunks)) (holding k xs))
  unfolding flatten
  request_loop-Served mem fresh line [] chunks k xs s short full e all = absurd full
  request_loop-Served mem fresh line (b ∷ bs) [] k xs s short full e all =
      let bytes = b ∷ bs in
      let done : xs ++ bytes ≡ line ++ line_end = rw (append-nil bytes) at all in
      let le : length bytes ≤ k =
        omega
          (arith, ap length done, length-append xs bytes, length-append line line_end, e, short) in
      let zeros : List ℕ = replicate (k - length bytes) 0 in
      let there : find_crlf ((xs ++ bytes) ++ zeros) ≡ at (length line) =
        ap (λ r. find_crlf (r ++ zeros)) done
        ∙ ap find_crlf (append_assoc line line_end zeros)
        ∙ find_crlf-plain line zeros s in
      rw (one_round true mem fresh [] k xs b bs e le, there)
        (run_line-Served (k - length bytes) (xs ++ bytes) line done)
  request_loop-Served mem fresh line (b ∷ bs) ([] ∷ chunks) k xs s short full e all = absurd full
  request_loop-Served mem fresh line (b ∷ bs) ((d ∷ ds) ∷ chunks) k xs s short full e all =
      let bytes = b ∷ bs in
      let rest : List ℕ = ds ++ flatten chunks in
      let split : (xs ++ bytes) ++ (d ∷ rest) ≡ line ++ line_end =
        append_assoc xs bytes (d ∷ rest) ∙ all in
      let total : length xs + length bytes + suc (length rest) ≡ length line + 2 =
        sym (
          length-append (xs ++ bytes) (d ∷ rest)
          ∙ ap (λ n. n + suc (length rest)) (length-append xs bytes))
        ∙ ap length split
        ∙ length-append line line_end in
      let le : length bytes ≤ k = omega (arith, total, e, short) in
      let left = k - suc (length bytes) in
      let more : k - length bytes ≡ suc left = omega (arith, total, e, short) in
      let not_yet : find_crlf ((xs ++ bytes) ++ replicate (k - length bytes) 0) ≡ nowhere =
        rw more (find_crlf-prefix (xs ++ bytes) rest line d left s split) in
      rw (one_round true mem fresh (map some ((d ∷ ds) ∷ chunks)) k xs b bs e le, not_yet)
        (request_loop-Served mem fresh line (d ∷ ds) chunks (k - length bytes) (xs ++ bytes) s short
          full (omega (arith, length-append xs bytes, e, le)) split)
