-- ===== src/Log/Levels.antt =====
-- The log levels of src/iw_log.c: the single bits.
use insta_works.Base.{
  ℕ, zero, suc, ◌-◌, ◌*◌, ◌/◌, ◌%◌, ◌^◌, ◌≤◌, ◌<◌, ◌≡◌, ◌↔◌, refl, sym, subst, ap, ◌∙◌, true, false,
  Bool-cases, inl, inr, Option, none, some, List, arith, ◌==◌, ==_iff, pred32, get_or, set,
}
use insta_works.Log.{Log, bit_and, zeros, add_level, describe}

pow_suc : (k : ℕ) → 2 ^ suc k ≡ 2 * 2 ^ k
pow_suc k = omega arith

pow_pos : (k : ℕ) → 0 < 2 ^ k
pow_pos zero = omega arith
pow_pos (suc k) = omega (arith, pow_suc k, pow_pos k)

bit_and-zero : (k n : ℕ) → bit_and k n n ≡ 0 → n < 2 ^ k → n ≡ 0
unfolding bit_and
bit_and-zero zero n e lt = omega arith
bit_and-zero (suc k) n e lt =
    let half : n / 2 < 2 ^ k = omega (arith, lt, pow_suc k) in
    let parts = e in
    elim (Bool-cases (n % 2 == 1)) [
      | inl odd ↦
          let one : n % 2 ≡ 1 = ground arith in
          let bad : n % 2 * (n % 2) ≡ 0 = omega arith in
          let worse : 1 * 1 ≡ 0 = rw one at bad in absurd (omega (arith, worse))
      | inr even ↦
          let none : n % 2 ≡ 0 = ground arith in
          let zero_half = bit_and-zero k (n / 2) (omega (arith, e)) half in
          omega (arith, none, zero_half)
    ]

-- A number that has no bit in common with the one before it is a single bit.
single_bit :
    (k n : ℕ) → 0 < n → n < 2 ^ k → bit_and k n (n - 1) ≡ 0 → (i : ℕ) × (i < k) × (n ≡ 2 ^ i)
unfolding bit_and
single_bit zero n pos lt e = absurd (omega (arith, lt))
single_bit (suc k) n pos lt e = elim (Bool-cases (n % 2 == 1)) [
  | inl odd ↦
      let one : n % 2 ≡ 1 = ground arith in
      let same : (n - 1) / 2 ≡ n / 2 = omega (arith, one) in
      let below : bit_and k (n / 2) ((n - 1) / 2) ≡ 0 = omega (arith, e) in
      let half : n / 2 < 2 ^ k = omega (arith, lt, pow_suc k) in
      let m : n / 2 ≡ 0 =
        bit_and-zero k (n / 2) (subst (λ x. bit_and k (n / 2) x ≡ 0) same below) half in
      (0, omega arith, omega (arith, m, one))
  | inr even ↦
      let none : n % 2 ≡ 0 = ground arith in
      let same : (n - 1) / 2 ≡ n / 2 - 1 = omega (arith, none, pos) in
      let below : bit_and k (n / 2) ((n - 1) / 2) ≡ 0 = omega (arith, e) in
      let half : n / 2 < 2 ^ k = omega (arith, lt, pow_suc k) in
      let some_left : 0 < n / 2 = omega (arith, none, pos) in
      let r =
        single_bit k (n / 2) some_left half (subst (λ x. bit_and k (n / 2) x ≡ 0) same below) in
      (suc r.0, omega (arith, r.1), omega (arith, none, r.2, pow_suc r.0))
]

bit_and-zero_left : (k n : ℕ) → bit_and k 0 n ≡ 0
unfolding bit_and
bit_and-zero_left zero n = refl
bit_and-zero_left (suc k) n = omega (arith, bit_and-zero_left k (n / 2))

bit_alone : (k i : ℕ) → i < k → bit_and k (2 ^ i) (2 ^ i - 1) ≡ 0
unfolding bit_and
bit_alone zero i lt = absurd (omega arith)
bit_alone (suc k) zero lt = omega (arith, bit_and-zero_left k 0)
bit_alone (suc k) (suc i) lt =
    let rest = bit_alone k i (omega arith) in
    let even : 2 ^ suc i % 2 ≡ 0 = omega (arith, pow_suc i) in
    let half : 2 ^ suc i / 2 ≡ 2 ^ i = omega (arith, pow_suc i) in
    let below : (2 ^ suc i - 1) / 2 ≡ 2 ^ i - 1 = omega (arith, pow_suc i, pow_pos i) in
    rw (even, half, below) (omega (arith, rest))

zeros_bit : (k i : ℕ) → i < k → zeros k (2 ^ i) ≡ i
unfolding zeros
zeros_bit zero i lt = absurd (omega arith)
zeros_bit (suc k) zero lt = refl
zeros_bit (suc k) (suc i) lt =
    let rest = zeros_bit k i (omega arith) in
    let even : 2 ^ suc i % 2 ≡ 0 = omega (arith, pow_suc i) in
    let half : 2 ^ suc i / 2 ≡ 2 ^ i = omega (arith, pow_suc i) in rw (even, half) (ap suc rest)

pow_mono : (i j : ℕ) → i ≤ j → 2 ^ i ≤ 2 ^ j
pow_mono zero j le = pow_pos j
pow_mono (suc i) zero le = absurd (omega arith)
pow_mono (suc i) (suc j) le = omega (arith, pow_suc i, pow_suc j, pow_mono i j (omega arith))

-- iw_log_add_level of a single bit looks at the description of that bit.
pub add_level-bit :
    (l : Log) (i : ℕ) (desc : List ℕ)
    → i < 32
    → add_level l (2 ^ i) desc ≡ describe l i desc (get_or l.levels i none)
unfolding add_level
add_level-bit l i desc lt =
    let small : 2 ^ i ≤ 2 ^ 31 = pow_mono i 31 (omega arith) in
    let before : pred32 (2 ^ i) ≡ 2 ^ i - 1 = omega (arith, small, pow_pos i) in
    let apart : (i == 32) ≡ false = ground arith in
    rw (add_level, before, bit_alone 32 i lt, zeros_bit 32 i lt, apart) refl

describe-none :
    (l : Log) (i : ℕ) (desc : List ℕ) (o : Option (List ℕ))
    → (describe l i desc o).0 ≡ true
    → o ≡ none
describe-none l i desc none e = refl
describe-none l i desc (some old) e = absurd cc

refused_zero : (l : Log) (desc : List ℕ) → (add_level l 0 desc).0 ≡ false
unfolding add_level bit_and zeros
refused_zero l desc = refl

bit_of :
    (l : Log) (level : ℕ) (desc : List ℕ)
    → level < 2 ^ 32
    → (add_level l level desc).0 ≡ true
    → (i : ℕ) × (i < 32) × (level ≡ 2 ^ i)
unfolding add_level
bit_of l zero desc lt e = let no = sym e ∙ refused_zero l desc in absurd cc
bit_of l (suc n) desc lt e =
    let before : pred32 (suc n) ≡ suc n - 1 = omega (arith, lt) in
    elim (Bool-cases (bit_and 32 (suc n) (pred32 (suc n)) == 0)) [
      | inl clear ↦
          let none_common : bit_and 32 (suc n) (suc n - 1) ≡ 0 =
            rw before at ((==_iff (bit_and 32 (suc n) (pred32 (suc n))) 0).0 clear) in
          single_bit 32 (suc n) (omega arith) lt none_common
      | inr set ↦ let no : false ≡ true = rw (add_level, set) at e in absurd cc
    ]

-- iw_log_add_level returns true exactly if the 32-bit level is a single bit that has no
-- description yet.
pub add_level-accepts :
    (l : Log) (level : ℕ) (desc : List ℕ)
    → level < 2 ^ 32
    → ((add_level l level desc).0 ≡ true)
      ↔ ((i : ℕ) × (i < 32) × (level ≡ 2 ^ i) × (get_or l.levels i none ≡ none))
add_level-accepts l level desc lt = (
  λ e.
      let b = bit_of l level desc lt e in
      let same = ap (λ n. add_level l n desc) b.2 ∙ add_level-bit l b.0 desc b.1 in
      let o = get_or l.levels b.0 none in
      (b.0, b.1, b.2, describe-none l b.0 desc o (sym (ap (λ r. r.0) same) ∙ e)),
  λ b.
      let same = ap (λ n. add_level l n desc) b.2 ∙ add_level-bit l b.0 desc b.1 in
      ap (λ r. r.0) same ∙ ap (λ o. (describe l b.0 desc o).0) b.3,
)
