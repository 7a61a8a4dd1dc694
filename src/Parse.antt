-- ===== src/Parse.antt =====
-- src/iw_parse.c and includes/iw_parse.h. A buffer is the list of its bytes, followed by a NUL; a
-- pointer into it is an offset. IW_PARSE_MATCH with what the call writes to its parameters is `some`,
-- IW_PARSE_NO_MATCH, which writes nothing, is `none`; IW_PARSE_ERROR is never returned.
pub mod Scan
pub mod Read
pub mod Slice
use insta_works.Base.{
  ℕ, zero, suc, ◌+◌, ◌-◌, Bool, true, false, ◌&&◌, ◌||◌, Option, none, some, List, [], ◌∷◌, ◌==◌,
  if◌then◌else◌, u32, ltb, leb, length, drop, get_or,
}

-- Both are of type `int`; a pointer difference is cut to 32 bits, and a negative number stands as its
-- 32 bits. Below 2 ^ 31 a number stands as itself.
pub record ParseIndex : Type 0 where
  pub start : ℕ
  pub len : ℕ

abbrev pub crlf : List ℕ
crlf = b'\r' ∷ b'\n' ∷ []

abbrev pub space : List ℕ
space = b' ' ∷ []

abbrev pub colon : List ℕ
colon = b':' ∷ []

abbrev pub query : List ℕ
query = b'?' ∷ []

abbrev pub equal : List ℕ
equal = b'=' ∷ []

abbrev pub ampersand : List ℕ
ampersand = b'&' ∷ []

-- `strncmp(a, b, n) == 0`, where the end of a list is its NUL.
unfoldable pub strncmp_eq : ℕ → List ℕ → List ℕ → Bool
strncmp_eq zero xs ys = true
strncmp_eq (suc n) [] [] = true
strncmp_eq (suc n) [] (y ∷ ys) = y == 0
strncmp_eq (suc n) (x ∷ xs) [] = x == 0
strncmp_eq (suc n) (x ∷ xs) (y ∷ ys) =
    let rest = strncmp_eq n xs ys in if x == y then (if x == 0 then true else rest) else false

-- `tolower` in the C locale.
abbrev pub lower : ℕ → ℕ
lower c = if leb b'A' c && leb c b'Z' then c + 32 else c

-- `strncasecmp(a, b, n) == 0`.
unfoldable pub strncasecmp_eq : ℕ → List ℕ → List ℕ → Bool
strncasecmp_eq zero xs ys = true
strncasecmp_eq (suc n) [] [] = true
strncasecmp_eq (suc n) [] (y ∷ ys) = y == 0
strncasecmp_eq (suc n) (x ∷ xs) [] = x == 0
strncasecmp_eq (suc n) (x ∷ xs) (y ∷ ys) =
    let rest = strncasecmp_eq n xs ys in
    if lower x == lower y then (if x == 0 then true else rest) else false

abbrev pub is_blank : ℕ → Bool
is_blank c = c == b' ' || c == b'\t'

-- Does the token stand at the offset?
unfoldable pub token_at : List ℕ → List ℕ → ℕ → Bool
unfolding strncmp_eq
token_at buff token tmp = strncmp_eq (length token) (drop tmp buff) token

-- The loop of iw_parse_find_token and iw_parse_read_to_token on `k` rounds: whether it was left at a
-- match, and `tmp`.
unfoldable pub scan : List ℕ → ℕ → List ℕ → ℕ → ℕ → Bool × ℕ
unfolding token_at
scan buff len token zero tmp = (false, tmp)
scan buff len token (suc k) tmp = elim (leb (u32 (tmp + length token)) len) [
  | false ↦ (false, tmp)
  | true ↦ elim (token_at buff token tmp) [
    | true ↦ (true, tmp)
    | false ↦ scan buff len token k (u32 (tmp + 1))
  ]
]

unfoldable pub find_token : List ℕ → ℕ → ℕ → List ℕ → Option ℕ
unfolding scan
find_token buff len offset token =
    let (found, tmp) = scan buff len token (len + 1) offset in
    if found then some (u32 (tmp + length token)) else none

unfoldable pub is_token : List ℕ → ℕ → ℕ → List ℕ → Option ℕ
unfolding token_at
is_token buff len offset token =
    if leb (u32 (offset + length token)) len
    then (if token_at buff token offset then some (u32 (offset + length token)) else none)
    else none

-- The trimmed start: `isblank(*start) && start < end`.
unfoldable pub trim_start : List ℕ → ℕ → ℕ → ℕ
trim_start buff start end =
    if is_blank (get_or buff start 0) && ltb start end then start + 1 else start

-- The trimmed end: `end > start && isblank(*(end-1))`.
unfoldable pub trim_end : List ℕ → ℕ → ℕ → ℕ
trim_end buff start end =
    if ltb start end && is_blank (get_or buff (end - 1) 0) then end - 1 else end

unfoldable pub index_of : List ℕ → Bool → ℕ → ℕ → ParseIndex
unfolding trim_start trim_end
index_of buff false start end = record { start = u32 start; len = u32 (end - start) }
index_of buff true start end =
    let start' = trim_start buff start end in
    record { start = u32 start'; len = u32 (trim_end buff start' end - start') }

-- The new offset and the index.
unfoldable pub read_to_token : List ℕ → ℕ → ℕ → List ℕ → Bool → Option (ℕ × ParseIndex)
unfolding scan index_of
read_to_token buff len offset token trim =
    let (_, tmp) = scan buff len token (len + 1) offset in
    if ltb len (u32 (tmp + length token))
    then none
    else some (u32 (tmp + length token), index_of buff trim offset tmp)

unfoldable pub cmp : List ℕ → List ℕ → ParseIndex → Bool
unfolding strncmp_eq
cmp compare buffer index =
    length compare == index.len && strncmp_eq (length compare) compare (drop index.start buffer)

unfoldable pub casecmp : List ℕ → List ℕ → ParseIndex → Bool
unfolding strncasecmp_eq
casecmp compare buffer index =
    length compare == index.len && strncasecmp_eq (length compare) compare (drop index.start buffer)
