-- ===== src/Util/Number.antt =====
-- iw_util_strtoll on numerals, and iw_util_concat.
use insta_works.Base.{ℕ, ◌+◌, ◌*◌, ◌<◌, ◌≡◌, true, [], ◌∷◌, arith}
use insta_works.Base.Int.{pos}
use insta_works.Util.{util_strtoll}

-- A hexadecimal digit and its value.
pub data HexDigit : ℕ → ℕ → Type 0 where
  decimal : (v : ℕ) → v < 10 → HexDigit (48 + v) v
  lower_case : (v : ℕ) → v < 6 → HexDigit (97 + v) (10 + v)
  upper_case : (v : ℕ) → v < 6 → HexDigit (65 + v) (10 + v)

-- Two hexadecimal digits are read as their number in base 16.
pub strtoll-hex :
    {h l a b : ℕ}
    → HexDigit h a
    → HexDigit l b
    → util_strtoll (h ∷ l ∷ []) 16 ≡ (true, pos (a * 16 + b))
unfolding util_strtoll
strtoll-hex (decimal v p) (decimal w q) = ground arith
strtoll-hex (decimal v p) (lower_case w q) = ground arith
strtoll-hex (decimal v p) (upper_case w q) = ground arith
strtoll-hex (lower_case v p) (decimal w q) = ground arith
strtoll-hex (lower_case v p) (lower_case w q) = ground arith
strtoll-hex (lower_case v p) (upper_case w q) = ground arith
strtoll-hex (upper_case v p) (decimal w q) = ground arith
strtoll-hex (upper_case v p) (lower_case w q) = ground arith
strtoll-hex (upper_case v p) (upper_case w q) = ground arith
