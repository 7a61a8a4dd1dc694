-- ===== src/WebSrv/Requests.antt =====
-- The request that the web server of src/iw_web_srv.c hands to its callback.
use mathlib.Core.List.{append_assoc, append-nil}
use insta_works.Base.{
  ℕ, suc, ◌+◌, ◌-◌, ◌*◌, ◌^◌, ◌≤◌, ◌<◌, ◌≡◌, refl, subst, ◌∙◌, Bool, true, false, ◌&&◌, Bool-cases,
  inl, inr, ◌⊎◌, Option, none, some, List, [], ◌∷◌, ◌++◌, arith, ltb, leb, length, take,
}
use insta_works.Buff.{Buff, reserve_data, resized, write_block, commit_data}
use insta_works.Buff.Bounds.{IsValid, reserve_fits, reserve_refused, reserve_grows}
use insta_works.Buff.Queue.{Contains, written, grown}
use insta_works.WebReq.Request.{
  WebReq, WebParse, Header, parse_complete, parse_incomplete, parse_error,
}
use insta_works.WebReq.Request.Parser.{parse}
use insta_works.WebReq.Request.Bounds.{IsBounded, HeadersWithin}
use insta_works.WebReq.Request.Whole.{parse-Parsed}
use insta_works.WebReq.Request.Sizes.{parse-len}
use insta_works.WebSrv.{buff_size, with_buff, parsed, reserved, receive_loop}

HeadersWithin-widen :
    (m n : ℕ) (hdrs : List Header) → m ≤ n → HeadersWithin m hdrs → HeadersWithin n hdrs
unfolding HeadersWithin
HeadersWithin-widen m n [] le h = tt
HeadersWithin-widen m n (hdr ∷ hdrs) le h =
    (omega (arith, h.0), omega (arith, h.1), HeadersWithin-widen m n hdrs le h.2)

-- The indices stay in the bytes of a block that is as long or longer.
with_buff-IsBounded :
    (req : WebReq) (b : Buff) (m : List ℕ)
    → IsBounded req
    → IsValid b m
    → req.len ≤ b.size
    → b.size + 3 < 2 ^ 31
    → IsBounded (with_buff req b)
with_buff-IsBounded req b m w v le small = record {
  small = small;
  held = rw v.holds (omega (arith, v.sized));
  point = omega (arith, w.point);
  version = omega (arith, w.version);
  uri = omega (arith, w.uri);
  path = omega (arith, w.path);
  content = omega (arith, w.content);
  headers = HeadersWithin-widen req.len b.size req.headers le w.headers;
}

-- Between two rounds, when the bytes `xs` were received: the buffer holds them and has at most the
-- size to which the last realloc can bring it, and the indices lie in its bytes.
pub record Round (xs : List ℕ) (b : Buff) (req : WebReq) : Type 0 where
  pub contains : Contains b xs
  pub room : b.size ≤ 11 * buff_size
  pub max : b.max_size ≡ 10 * buff_size
  pub bounded : IsBounded req
  pub len : req.len ≤ b.size

-- What iw_buff_reserve_data does for a round.
record Reserves (xs : List ℕ) (b b' : Buff) : Type 0 where
  contains : Contains b' xs
  end : b'.end ≡ b.end
  free : b.end + buff_size ≤ b'.size
  room : b'.size ≤ 11 * buff_size
  max : b'.max_size ≡ b.max_size
  more : b.size ≤ b'.size

reserve-Reserves :
    (mem : Bool) (fresh : List ℕ) (b : Buff) (xs : List ℕ)
    → Contains b xs
    → b.size ≤ 11 * buff_size
    → b.max_size ≡ 10 * buff_size
    → buff_size ≤ length fresh
    → (reserve_data mem fresh b buff_size ≡ (false, none, b))
      ⊎ ((b' : Buff) × (reserve_data mem fresh b buff_size ≡ (true, some b'.end, b'))
          × Reserves xs b b')
reserve-Reserves mem fresh b xs c room max enough =
    elim (Bool-cases (leb buff_size (b.size - b.end))) [
      | inl fits ↦ inr (
        b,
        reserve_fits mem fresh c.valid buff_size (ground arith),
        record {
          contains = c;
          end = refl;
          free = ground (arith, c.valid.fits);
          room = room;
          max = refl;
          more = omega arith;
        },
      )
      | inr more ↦ elim (Bool-cases (ltb b.size b.max_size && mem)) [
        | inr stays ↦ inl (reserve_refused mem fresh c.valid buff_size (ground arith) stays)
        | inl grows ↦
            let n = b.end + buff_size in
            let below : b.size < b.max_size = ground arith in
            let given : mem ≡ true = ground arith in
            let (valid, same) =
              grown fresh {b = b} {m = c.block} n c.valid (ground arith)
                (omega (arith, c.valid.fits)) (omega (arith, c.valid.fits)) in
            inr (
              record b { buff = some (resized c.block fresh n); size = n },
              rw given (
                  reserve_grows fresh buff_size c.valid (ground arith) below
                    (omega (arith, c.valid.fits))),
              record {
                contains = record {
                  block = resized c.block fresh n;
                  valid = valid;
                  reads = same ∙ c.reads;
                };
                end = refl;
                free = omega arith;
                room = omega (arith, c.valid.fits);
                max = refl;
                more = ground arith;
              },
            )
      ]
    ]

-- The bytes that some calls of recv gave.
abbrev pub bytes_of : List (Option (List ℕ)) → List ℕ
bytes_of [] = []
bytes_of (none ∷ recvs) = bytes_of recvs
bytes_of (some bytes ∷ recvs) = bytes ++ bytes_of recvs

-- recv gives no more bytes than it is asked for.
abbrev pub AllShort : List (Option (List ℕ)) → Type 0
AllShort [] = Unit
AllShort (none ∷ recvs) = AllShort recvs
AllShort (some bytes ∷ recvs) = (length bytes ≤ buff_size) × AllShort recvs

-- The loop has ended after `rounds` rounds that received bytes.
pub record Done (xs : List ℕ) (recvs : List (Option (List ℕ))) (r : Buff × WebReq) : Type 0 where
  pub rounds : ℕ
  pub contains : Contains r.0 (xs ++ bytes_of (take rounds recvs))
  pub bounded : IsBounded r.1
  pub len : r.1.len ≤ r.0.size

at_once :
    (xs : List ℕ) (recvs : List (Option (List ℕ))) (b : Buff) (req : WebReq) (r : Buff × WebReq)
    → Contains b xs
    → IsBounded req
    → req.len ≤ b.size
    → some (b, req) ≡ some r
    → Done xs recvs r
at_once xs recvs b req r c w le e =
    let same : (b, req) ≡ r = cc in
    subst (Done xs recvs) same
      (record { rounds = 0; contains = rw (append-nil xs) c; bounded = w; len = le })

one_more :
    (xs bytes : List ℕ) (recvs : List (Option (List ℕ))) (r : Buff × WebReq)
    → Done (xs ++ bytes) recvs r
    → Done xs (some bytes ∷ recvs) r
one_more xs bytes recvs r d = record {
  rounds = suc d.rounds;
  contains = rw (append_assoc xs bytes (bytes_of (take d.rounds recvs))) at d.contains;
  bounded = d.bounded;
  len = d.len;
}

module _ (mem : ℕ → Bool) (more : ℕ → Bool) (fresh : ℕ → List ℕ)
    (enough : (n : ℕ) → buff_size ≤ length (fresh n)) where
  parsed-Done :
      (go_on : Buff → WebReq → Option (Buff × WebReq))
      → (xs : List ℕ) (recvs : List (Option (List ℕ))) (b : Buff)
      → (p : Option (WebParse × WebReq)) (r : Buff × WebReq) → Contains b xs
      → ((q : WebParse × WebReq) → p ≡ some q → IsBounded q.1 × (q.1.len ≤ b.size))
      → ((req : WebReq) → IsBounded req → req.len ≤ b.size → go_on b req ≡ some r → Done xs recvs r)
      → parsed mem go_on b p ≡ some r
      → Done xs recvs r
  parsed-Done go_on xs recvs b none r c f h e = absurd cc
  parsed-Done go_on xs recvs b (some (parse_error, req)) r c f h e =
      let (w, le) = f (parse_error, req) refl in at_once xs recvs b req r c w le e
  parsed-Done go_on xs recvs b (some (parse_complete, req)) r c f h e =
      let (w, le) = f (parse_complete, req) refl in at_once xs recvs b req r c w le e
  parsed-Done go_on xs recvs b (some (parse_incomplete, req)) r c f h e =
      let (w, le) = f (parse_incomplete, req) refl in h req w le e

  -- The request after a parse of the buffer's bytes.
  parse-bounds :
      (b : Buff) (req : WebReq) (xs : List ℕ)
      → Contains b xs
      → b.size ≤ 11 * buff_size
      → IsBounded req
      → req.len ≤ b.size
      → (q : WebParse × WebReq) → parse mem (with_buff req b) ≡ some q
      → IsBounded q.1 × (q.1.len ≤ b.size)
  parse-bounds b req xs c room w le q e =
      let held = with_buff-IsBounded req b c.block w c.valid le (omega arith) in
      let same : q.1.len ≡ b.size = parse-len mem (with_buff req b) q e in
      ((parse-Parsed mem (with_buff req b) q held e).bounded, omega arith)

  reserved-Done :
      (go_on : Buff → WebReq → Option (Buff × WebReq))
      → (recv : Option (List ℕ)) (recvs : List (Option (List ℕ))) (b b' : Buff)
      → (req : WebReq) (xs : List ℕ) (r : Buff × WebReq) → Round xs b req
      → Reserves xs b b'
      → AllShort (recv ∷ recvs)
      → ((b : Buff) (req : WebReq) (xs : List ℕ)
          → Round xs b req
          → go_on b req ≡ some r
          → Done xs recvs r)
      → reserved mem go_on req recv (true, some b'.end, b') ≡ some r
      → Done xs (recv ∷ recvs) r
  unfolding reserved
  reserved-Done go_on none recvs b b' req xs r w v short h e =
      at_once xs (none ∷ recvs) b' req r v.contains w.bounded (omega (arith, w.len, v.more)) e
  reserved-Done go_on (some []) recvs b b' req xs r w v short h e =
      at_once xs (some [] ∷ recvs) b' req r v.contains w.bounded (omega (arith, w.len, v.more)) e
  reserved-Done go_on (some (c ∷ cs)) recvs b b' req xs r w v short h e =
      let bytes = c ∷ cs in
      let b2 = commit_data (write_block b' b'.end bytes) (length bytes) in
      let holds : Contains b2 (xs ++ bytes) =
        rw v.contains.reads at
          (written bytes v.contains.valid (omega (arith, short.0, v.free, v.end))) in
      let le : req.len ≤ b2.size = omega (arith, w.len, v.more) in
      one_more xs bytes recvs r (
        parsed-Done go_on (xs ++ bytes) recvs b2 (parse mem (with_buff req b2)) r holds
          (parse-bounds b2 req (xs ++ bytes) holds v.room w.bounded le)
          (λ req' bounded len. h b2 req' (xs ++ bytes) (record {
            contains = holds;
            room = v.room;
            max = v.max ∙ w.max;
            bounded = bounded;
            len = len;
          }))
          e)

  pub receive_loop-Done :
      (recvs : List (Option (List ℕ))) (n : ℕ) (b : Buff) (req : WebReq) (xs : List ℕ)
      → (r : Buff × WebReq) → Round xs b req
      → AllShort recvs
      → receive_loop mem more fresh recvs n b req ≡ some r
      → Done xs recvs r
  unfolding receive_loop
  receive_loop-Done [] n b req xs r w short e =
      elim (reserve-Reserves (more n) (fresh n) b xs w.contains w.room w.max (enough n)) [
        | inl q ↦ at_once xs [] b req r w.contains w.bounded w.len (rw q at e)
        | inr (b', q, v) ↦
            at_once xs [] b' req r v.contains w.bounded (omega (arith, w.len, v.more)) (rw q at e)
      ]
  receive_loop-Done (recv ∷ recvs) n b req xs r w short e =
      elim (reserve-Reserves (more n) (fresh n) b xs w.contains w.room w.max (enough n)) [
        | inl q ↦ at_once xs (recv ∷ recvs) b req r w.contains w.bounded w.len (rw q at e)
        | inr (b', q, v) ↦
            reserved-Done (receive_loop mem more fresh recvs (suc n)) recv recvs b b' req xs r w v
              short (λ b req xs w. receive_loop-Done recvs (suc n) b req xs r w (rest recv short))
              (rw q at e)
      ]
    where
      rest : (recv : Option (List ℕ)) → AllShort (recv ∷ recvs) → AllShort recvs
      rest none short = short
      rest (some bytes) short = short.1
