-- ===== src/Util.antt =====
-- src/iw_util.c over the C library's strtoll. A string is the list of its bytes, and a NUL stands
-- behind the last one.
pub mod Number
pub mod Concat
use insta_works.Base.{
  ℕ, zero, suc, ◌+◌, ◌-◌, ◌*◌, ◌^◌, Bool, true, false, ◌&&◌, ◌||◌, Option, none, some, List, [],
  ◌∷◌, ◌++◌, ◌==◌, if◌then◌else◌, ltb, leb,
}
use insta_works.Base.Int.{ℤ, pos, negsuc}

-- `isspace` in the C locale.
abbrev pub is_space : ℕ → Bool
is_space c = c == 32 || (leb 9 c && leb c 13)

-- The value of a digit or letter, 36 for any other byte.
unfoldable pub digit_value : ℕ → ℕ
digit_value c =
    if leb 48 c && leb c 57
    then c - 48
    else if leb 97 c && leb c 122
    then c - 87
    else if leb 65 c && leb c 90
    then c - 55
    else 36

unfoldable pub skip_space : List ℕ → List ℕ
skip_space [] = []
skip_space (c ∷ cs) = let rest = skip_space cs in if is_space c then rest else c ∷ cs

-- A sign: whether it is a minus, and what follows.
unfoldable pub read_sign : List ℕ → Bool × List ℕ
read_sign [] = (false, [])
read_sign (c ∷ cs) =
    if c == b'-' then (true, cs) else if c == b'+' then (false, cs) else (false, c ∷ cs)

-- The prefix of base 16, which counts only before a hexadecimal digit; for base 0 it chooses the
-- base, as does a leading 0.
unfoldable pub read_prefix : ℕ → List ℕ → ℕ × List ℕ
unfolding digit_value
read_prefix base (z ∷ x ∷ d ∷ cs) =
    if (base == 0 || base == 16) && z == b'0' && (x == b'x' || x == b'X') && ltb (digit_value d) 16
    then (16, d ∷ cs)
    else (if base == 0 then (if z == b'0' then 8 else 10) else base, z ∷ x ∷ d ∷ cs)
read_prefix base (z ∷ cs) = (if base == 0 then (if z == b'0' then 8 else 10) else base, z ∷ cs)
read_prefix base [] = (if base == 0 then 10 else base, [])

-- The digits: whether there was one, their value, and what follows.
unfoldable pub read_digits : ℕ → Bool → ℕ → List ℕ → Bool × ℕ × List ℕ
unfolding digit_value
read_digits base seen acc [] = (seen, acc, [])
read_digits base seen acc (c ∷ cs) =
    let rest = read_digits base true (acc * base + digit_value c) cs in
    if ltb (digit_value c) base then rest else (seen, acc, c ∷ cs)

-- What strtoll leaves: `errno`, the number, and `endptr`, with `none` where it is `str`.
pub record Strtoll : Type 0 where
  pub range_error : Bool
  pub number : ℤ
  pub endptr : Option (List ℕ)

abbrev pub minus : ℕ → ℤ
minus zero = pos 0
minus (suc n) = negsuc n

unfoldable pub strtoll : List ℕ → ℕ → Strtoll
unfolding skip_space read_sign read_prefix read_digits
strtoll str base =
    let (negative, unsigned) = read_sign (skip_space str) in
    let (radix, digits) = read_prefix base unsigned in
    let (seen, value, rest) = read_digits radix false 0 digits in
    let limit : ℕ = if negative then 2 ^ 63 else 2 ^ 63 - 1 in
    let clamped = if ltb limit value then limit else value in
    record {
      range_error = ltb limit value;
      number = if negative then minus clamped else pos clamped;
      endptr = if seen then some rest else none;
    }

-- `*endptr == '\0' || isspace(*endptr)`.
abbrev pub ends_number : List ℕ → Bool
ends_number [] = true
ends_number (c ∷ cs) = c == 0 || is_space c

-- The result and `*number`, which is written in any case.
unfoldable pub util_strtoll : List ℕ → ℕ → Bool × ℤ
unfolding strtoll
util_strtoll str base =
    let r = strtoll str base in
    if r.range_error
    then (false, r.number)
    else (elim r.endptr [ none ↦ false | some rest ↦ ends_number rest ], r.number)

-- The loop of iw_util_concat: `result` so far, and the arguments that are left. `mem` says whether
-- realloc succeeds. A NULL argument ends the list.
unfoldable pub concat_loop :
    (mem : Bool) → Option (List ℕ) → List (Option (List ℕ)) → Option (List ℕ)
concat_loop mem result [] = result
concat_loop mem result (none ∷ strs) = result
concat_loop false result (some str ∷ strs) = none
concat_loop true none (some str ∷ strs) = concat_loop true (some str) strs
concat_loop true (some text) (some str ∷ strs) = concat_loop true (some (text ++ str)) strs

unfoldable pub util_concat : (mem : Bool) → List (Option (List ℕ)) → Option (List ℕ)
unfolding concat_loop
util_concat mem strs = concat_loop mem none strs
