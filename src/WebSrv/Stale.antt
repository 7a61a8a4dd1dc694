-- ===== src/WebSrv/Stale.antt =====
-- src/iw_web_srv.c: a request that points to a block that realloc has replaced.
use insta_works.Base.{
  ℕ, suc, ◌+◌, ◌*◌, ◌≡◌, refl, sym, ap, ◌∙◌, Bool, true, Option, some, List, [], ◌∷◌, arith, length,
  replicate, length-replicate,
}
use insta_works.Buff.{
  Buff, create, destroy, remove_data, reserve_data, write_at, write_block, commit_data, resized,
}
use insta_works.Buff.Bounds.{IsValid, create-IsValid, reserve_fits, reserve_grows}
use insta_works.WebReq.Request.{WebReq, received, parse_incomplete}
use insta_works.WebReq.Request.Parser.{parse}
use insta_works.WebReq.Request.Sizes.{parse-len}
use insta_works.WebSrv.{
  buff_size, Served, is_stale, respond, read_now, with_buff, reserved, receive_loop, at_done,
  answered, created, process_request, response, parsed,
}

write_at_whole : (xs m : List ℕ) → length xs ≡ length m → write_at 0 xs m ≡ xs
unfolding write_at
write_at_whole [] [] e = refl
write_at_whole [] (y ∷ m) e = absurd (omega (arith, e))
write_at_whole (x ∷ xs) [] e = absurd (omega (arith, e))
write_at_whole (x ∷ xs) (y ∷ m) e = ap (λ r. x ∷ r) (write_at_whole xs m (omega (arith, e)))

-- The buffer when the first recv has filled it.
abbrev full : List ℕ → Buff
full bytes = record {
  buff = some bytes;
  end = buff_size;
  size = buff_size;
  max_size = 10 * buff_size;
}

full-IsValid : (bytes : List ℕ) → length bytes ≡ buff_size → IsValid (full bytes) bytes
full-IsValid bytes e = record { holds = refl; sized = e; fits = omega arith; small = omega arith }

filled :
    (bytes : List ℕ)
    → length bytes ≡ buff_size
    → commit_data (write_block (create true buff_size (10 * buff_size)).1 0 bytes) (length bytes)
      ≡ full bytes
unfolding commit_data write_block create
filled bytes e =
    let zeros : List ℕ = replicate buff_size 0 in
    let long : length zeros ≡ buff_size = length-replicate {A = ℕ} buff_size 0 in
    rw (write_at_whole bytes zeros (e ∙ sym long), e) refl

seen :
    (bytes : List ℕ)
    → length bytes ≡ buff_size
    → with_buff (received []) (full bytes) ≡ received bytes
unfolding received
seen bytes e = ap (λ n. record (received bytes) { len = n }) (sym e)

-- The same with a larger block.
abbrev grown_to : List ℕ → Buff
grown_to block = record {
  buff = some block;
  end = buff_size;
  size = buff_size + buff_size;
  max_size = 10 * buff_size;
}

module _ (mem : ℕ → Bool) (freed : List ℕ → List ℕ) (print : ℕ → List ℕ)
    (callback : WebReq → Bool × List ℕ) where
  -- A round that receives some bytes, with what the calls on the buffer give.
  one_round :
      (more : ℕ → Bool) (fresh : ℕ → List ℕ) (recvs : List (Option (List ℕ))) (n : ℕ) (b b1 : Buff)
      → (req : WebReq) (c : ℕ) (cs : List ℕ)
      → reserve_data (more n) (fresh n) b buff_size ≡ (true, some b.end, b)
      → commit_data (write_block b b.end (c ∷ cs)) (length (c ∷ cs)) ≡ b1
      → receive_loop mem more fresh (some (c ∷ cs) ∷ recvs) n b req
        ≡ parsed mem (receive_loop mem more fresh recvs (suc n)) b1 (parse mem (with_buff req b1))
  unfolding receive_loop reserved
  one_round more fresh recvs n b b1 req c cs first w =
      let go_on = receive_loop mem more fresh recvs (suc n) in
      rw (receive_loop, first) (ap (λ b. parsed mem go_on b (parse mem (with_buff req b))) w)

  last_round :
      (more : ℕ → Bool) (fresh : ℕ → List ℕ) (b b1 : Buff) (req : WebReq)
      → more 1 ≡ true
      → reserve_data true (fresh 1) b buff_size ≡ (true, some b.end, b1)
      → receive_loop mem more fresh [] 1 b req ≡ some (b1, req)
  unfolding receive_loop
  last_round more fresh b b1 req m e = rw (receive_loop, m, e) refl

  loop-grown :
      (more : ℕ → Bool) (fresh : ℕ → List ℕ) (bytes : List ℕ) (req : WebReq)
      → length bytes ≡ buff_size
      → more 1 ≡ true
      → parse mem (received bytes) ≡ some (parse_incomplete, req)
      → receive_loop mem more fresh
          (some bytes ∷ [])
          0
          (create true buff_size (10 * buff_size)).1
          (received [])
        ≡ some (grown_to (resized bytes (fresh 1) (buff_size + buff_size)), req)
  unfolding receive_loop reserved create
  loop-grown more fresh [] req e m p = absurd (omega (arith, e))
  loop-grown more fresh (c ∷ cs) req e m p =
      let bytes = c ∷ cs in
      let first =
        reserve_fits (more 0) (fresh 0) (create-IsValid buff_size (10 * buff_size) (omega arith))
          buff_size (omega arith) in
      let grown =
        reserve_grows (fresh 1) buff_size (full-IsValid bytes e) (omega arith) (omega arith)
          (omega arith) in
      one_round more fresh [] 0 (create true buff_size (10 * buff_size)).1 (full bytes)
        (received []) c cs first (filled bytes e)
      ∙ ap (λ q. parsed mem (receive_loop mem more fresh [] 1) (full bytes) (parse mem q))
          (seen bytes e)
      ∙ ap (parsed mem (receive_loop mem more fresh [] 1) (full bytes)) p
      ∙ last_round more fresh (full bytes)
          (grown_to (resized bytes (fresh 1) (buff_size + buff_size))) req m grown

  -- A client sends exactly as many bytes as the buffer has at first, they are no complete request, and
  -- it sends no more. If realloc finds memory, the callback gets a request of which `buff` points to
  -- the block that realloc has freed.
  pub process_request_dangles :
      (more : ℕ → Bool) (fresh : ℕ → List ℕ) (bytes : List ℕ) (req : WebReq)
      → length bytes ≡ buff_size
      → more 1 ≡ true
      → parse mem (received bytes) ≡ some (parse_incomplete, req)
      → (s : Served) × (process_request mem freed print callback true true more fresh true
            (some bytes ∷ [])
          ≡ some s)
        × (s.req ≡ req)
        × (s.stale ≡ true)
  unfolding process_request created receive_loop at_done answered respond create received
  process_request_dangles more fresh bytes req e m p =
      let len : req.len ≡ buff_size =
        parse-len mem (received bytes) (parse_incomplete, req) p ∙ e in
      let b = grown_to (resized bytes (fresh 1) (buff_size + buff_size)) in
      let read = read_now mem freed print callback true b req in
      let stale : is_stale b req ≡ true = rw len refl in
      (
        record {
          req = req;
          stale = is_stale b req;
          found = (callback read).0;
          out = response print (callback read);
          buff = destroy (remove_data b req.parse_point);
        },
        rw (process_request, loop-grown more fresh bytes req e m p) refl,
        refl,
        stale,
      )
