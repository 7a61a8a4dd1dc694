-- ===== src/WebReq/Request/Bounds.antt =====
-- iw_web_req_parse keeps every index that it stores inside the bytes that were received.
use insta_works.Base.{
  ℕ, ◌+◌, ◌^◌, ◌≤◌, ◌<◌, ◌≡◌, ◌≢◌, subst, Bool, true, false, Option-cases, inl, inr, Option, none,
  some, List, [], ◌∷◌, ◌++◌, arith, length,
}
use insta_works.Parse.{ParseIndex, crlf, read_to_token, index_of}
use insta_works.Parse.Read.{Locates, missing_place, located, read_to_token-Locates}
use insta_works.Parse.Slice.{index_of_bounds}
use insta_works.WebReq.Request.{
  WebReq, Header, Parsing, next, returns, faults, and_then, is_none, parse_complete,
}
use insta_works.WebReq.Request.Line.{parse_version}

-- The index lies within the first `len` bytes.
abbrev pub Within : ℕ → ParseIndex → Type 0
Within len i = i.start + i.len ≤ len

unfoldable pub HeadersWithin : ℕ → List Header → Type 0
HeadersWithin len [] = Unit
HeadersWithin len (hdr ∷ hdrs) = Within len hdr.name × Within len hdr.value × HeadersWithin len hdrs

pub record IsBounded (req : WebReq) : Type 0 where
  pub small : req.len + 3 < 2 ^ 31
  pub held : req.len ≤ length req.buff
  pub point : req.parse_point ≤ req.len
  pub version : Within req.len req.version
  pub uri : Within req.len req.uri
  pub path : Within req.len req.path
  pub content : Within req.len req.content
  pub headers : HeadersWithin req.len req.headers

pub HeadersWithin-append :
    (len : ℕ) (hdrs : List Header) (hdr : Header)
    → HeadersWithin len hdrs
    → Within len hdr.name
    → Within len hdr.value
    → HeadersWithin len (hdrs ++ hdr ∷ [])
unfolding HeadersWithin
HeadersWithin-append len [] hdr h n v = (n, v, tt)
HeadersWithin-append len (x ∷ hdrs) hdr h n v =
    (h.0, h.1, HeadersWithin-append len hdrs hdr h.2 n v)

-- What a read returns lies inside the text, and the new offset behind the token.
pub record Fits (len offset : ℕ) (token : List ℕ) (r : ℕ × ParseIndex) : Type 0 where
  pub point : r.0 ≤ len
  pub forward : offset + length token ≤ r.0
  pub within : r.1.start + r.1.len + length token ≤ r.0

pub read-Fits :
    (buff : List ℕ) (len offset : ℕ) (token : List ℕ) (trim : Bool) (r : ℕ × ParseIndex)
    → len + 1 < 2 ^ 32
    → offset + length token < 2 ^ 32
    → read_to_token buff len offset token trim ≡ some r
    → Fits len offset token r
read-Fits buff len offset token trim r small less e =
    fits _ e (read_to_token-Locates buff len offset token trim small less)
  where
    fits :
        (o : Option (ℕ × ParseIndex))
        → o ≡ some r
        → Locates buff len offset token trim o
        → Fits len offset token r
    fits none e (missing_place a) = absurd cc
    fits (some s) e (located p first) =
        let b = index_of_bounds buff trim offset p first.after (omega (arith, first.within)) in
        let same : (p + length token, index_of buff trim offset p) ≡ r = cc in
        subst (Fits len offset token) same (record {
          point = first.within;
          forward = omega (arith, first.after);
          within = omega (arith, b.2);
        })

-- What the request keeps over a part of the call, and what is known of a request that goes on.
unfoldable pub Kept : (WebReq → Type 0) → Parsing → Type 0
Kept P (next req) = IsBounded req × P req
Kept P (returns p req) = IsBounded req × (p ≢ parse_complete)
Kept P faults = Unit

pub Kept-and_then :
    (P Q : WebReq → Type 0) (p : Parsing) (f : WebReq → Parsing)
    → Kept P p
    → ((req : WebReq) → IsBounded req → P req → Kept Q (f req))
    → Kept Q (and_then p f)
unfolding Kept and_then
Kept-and_then P Q (next req) f k h = h req k.0 k.1
Kept-and_then P Q (returns p req) f k h = k
Kept-and_then P Q faults f k h = k

module _ (mem : ℕ → Bool) where
  abbrev pub HasMethod : WebReq → Type 0
  HasMethod req = is_none req.method ≡ false

  pub at_point :
      (req : WebReq) (point : ℕ)
      → IsBounded req
      → point ≤ req.len
      → IsBounded (record req { parse_point = point })
  at_point req point b le = record {
    small = b.small;
    held = b.held;
    point = le;
    version = b.version;
    uri = b.uri;
    path = b.path;
    content = b.content;
    headers = b.headers;
  }

  pub parse_version-Kept :
      (req : WebReq) → IsBounded req → HasMethod req → Kept HasMethod (parse_version mem req)
  unfolding Kept parse_version
  parse_version-Kept req b m =
      elim (Option-cases (read_to_token req.buff req.len req.parse_point crlf true)) [
        | inl e ↦ rw (parse_version, e) (b, λ q. cc)
        | inr (r, e) ↦
            let f =
              read-Fits req.buff req.len req.parse_point crlf true r (omega (arith, b.small))
                (omega (arith, b.small, b.point)) e in
            rw (parse_version, e)
              (
                record {
                  small = b.small;
                  held = b.held;
                  point = f.point;
                  version = omega (arith, f.point, f.within);
                  uri = b.uri;
                  path = b.path;
                  content = b.content;
                  headers = b.headers;
                },
                m,
              )
      ]
