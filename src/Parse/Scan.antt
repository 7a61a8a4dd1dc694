-- ===== src/Parse/Scan.antt =====
-- The search loop of iw_parse.c finds the first place of the token, and ends within its rounds.
use insta_works.Base.{
  ℕ, zero, suc, ◌+◌, ◌^◌, ◌≤◌, ◌<◌, ◌≡◌, ◌↔◌, ◌⊎◌, refl, Bool, true, false, Bool-cases, inl, inr,
  List, [], ◌∷◌, arith, ◌==◌, ==_iff, u32, leb, length, take,
}
use insta_works.Parse.{strncmp_eq, token_at, scan}

-- No NUL among the bytes: a C string.
abbrev pub IsString : List ℕ → Type 0
IsString [] = Unit
IsString (x ∷ xs) = (0 < x) × IsString xs

-- Comparing with a whole string is a test for a prefix.
pub strncmp_eq-take :
    (xs ys : List ℕ)
    → IsString ys
    → (strncmp_eq (length ys) xs ys ≡ true) ↔ (take (length ys) xs ≡ ys)
unfolding strncmp_eq
strncmp_eq-take xs [] s = ((λ e. refl), (λ e. refl))
strncmp_eq-take [] (y ∷ ys) s = ((λ e. absurd (ground arith)), (λ e. cc))
strncmp_eq-take (x ∷ xs) (y ∷ ys) s =
    let ih = strncmp_eq-take xs ys s.1 in ((λ e. ground (arith, ih.0)), (λ e. ground (arith, ih.1)))

-- A loop that starts at `from` was left at `p`.
pub record Scanned (buff : List ℕ) (len : ℕ) (token : List ℕ) (from : ℕ) (r : Bool × ℕ)
    : Type 0 where
  pub forward : from ≤ r.1
  pub skipped : (q : ℕ) → from ≤ q → q < r.1 → token_at buff token q ≡ false
  pub hit : r.0 ≡ true → (r.1 + length token ≤ len) × (token_at buff token r.1 ≡ true)
  pub missed : r.0 ≡ false → len < r.1 + length token
  pub bound : r.1 + length token < 2 ^ 32

module _ (buff : List ℕ) (len : ℕ) (token : List ℕ) where
  step_back :
      (from : ℕ) (r : Bool × ℕ)
      → token_at buff token from ≡ false
      → Scanned buff len token (from + 1) r
      → Scanned buff len token from r
  step_back from r miss s = record {
    forward = omega (arith, s.forward);
    skipped = λ q a b. elim (Bool-cases (q == from)) [
      | inl e ↦ rw ((==_iff q from).0 e) miss
      | inr e ↦ s.skipped q (ground arith) b
    ];
    hit = s.hit;
    missed = s.missed;
    bound = s.bound;
  }

  pub scan-Scanned :
      (k from : ℕ)
      → len + 1 < 2 ^ 32
      → from + length token < 2 ^ 32
      → len < from + k
      → Scanned buff len token from (scan buff len token k from)
  unfolding scan
  scan-Scanned zero from small less fuel = record {
    forward = omega arith;
    skipped = λ q a b. absurd (omega arith);
    hit = λ e. absurd (ground arith);
    missed = λ e. omega arith;
    bound = less;
  }
  scan-Scanned (suc k) from small less fuel =
      elim (Bool-cases (leb (u32 (from + length token)) len)) [
        | inr out ↦
            rw (scan, out)
              (record {
                forward = omega arith;
                skipped = λ q a b. absurd (omega arith);
                hit = λ e. absurd (ground arith);
                missed = λ e. ground arith;
                bound = less;
              })
        | inl inside ↦ elim (Bool-cases (token_at buff token from)) [
          | inl here ↦
              rw (scan, inside, here)
                (record {
                  forward = omega arith;
                  skipped = λ q a b. absurd (omega arith);
                  hit = λ e. (ground arith, here);
                  missed = λ e. absurd (ground arith);
                  bound = less;
                })
          | inr miss ↦
              let within : from + length token ≤ len = ground arith in
              let next : u32 (from + 1) ≡ from + 1 = omega arith in
              rw (scan, inside, miss, next)
                (step_back from (scan buff len token k (from + 1)) miss
                  (scan-Scanned k (from + 1) small (omega arith) (omega arith)))
        ]
      ]

  -- The token stands nowhere between `from` and the end.
  unfoldable pub NoToken : ℕ → Type 0
  NoToken from = (q : ℕ) → from ≤ q → q + length token ≤ len → token_at buff token q ≡ false

  -- `p` is the first place of the token from `from` on, within the length.
  pub record IsFirst (from p : ℕ) : Type 0 where
    pub after : from ≤ p
    pub within : p + length token ≤ len
    pub there : token_at buff token p ≡ true
    pub first : (q : ℕ) → from ≤ q → q < p → token_at buff token q ≡ false

  -- The two ways in which the search ends.
  pub scan_ends :
      (from : ℕ)
      → len + 1 < 2 ^ 32
      → from + length token < 2 ^ 32
      → ((p : ℕ) × (scan buff len token (len + 1) from ≡ (false, p))
          × (len < p + length token)
          × (p + length token < 2 ^ 32)
          × NoToken from)
        ⊎ ((p : ℕ) × (scan buff len token (len + 1) from ≡ (true, p)) × IsFirst from p)
  unfolding NoToken
  scan_ends from small less =
      ends (scan buff len token (len + 1) from) refl
        (scan-Scanned (len + 1) from small less (omega arith))
    where
      ends :
          (r : Bool × ℕ)
          → scan buff len token (len + 1) from ≡ r
          → Scanned buff len token from r
          → ((p : ℕ) × (scan buff len token (len + 1) from ≡ (false, p))
              × (len < p + length token)
              × (p + length token < 2 ^ 32)
              × NoToken from)
            ⊎ ((p : ℕ) × (scan buff len token (len + 1) from ≡ (true, p)) × IsFirst from p)
      ends (false, p) e s =
          inl (p, e, s.missed refl, s.bound, λ q a b. s.skipped q a (omega (arith, s.missed refl)))
      ends (true, p) e s = inr (
        p,
        e,
        record {
          after = s.forward;
          within = (s.hit refl).0;
          there = (s.hit refl).1;
          first = s.skipped;
        },
      )
