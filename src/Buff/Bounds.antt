-- ===== src/Buff/Bounds.antt =====
-- The memory block of a buffer: its size and what a write leaves in it.
use insta_works.Base.{
  ℕ, zero, suc, ◌+◌, ◌-◌, ◌^◌, ◌≤◌, ◌<◌, ◌≡◌, refl, sym, ◌&&◌, ap, Bool, true, false, Bool-cases,
  inl, inr, none, some, List, [], ◌∷◌, ◌++◌, arith, ltb, leb, length, length-replicate, replicate,
  take, drop,
}
use insta_works.Buff.{Buff, u64, sub64, create, write_at, resized, remainder, reserve_data}

-- The block `m` is there, has the recorded size, and the data ends within it.
pub record IsValid (b : Buff) (m : List ℕ) : Type 0 where
  pub holds : b.buff ≡ some m
  pub sized : length m ≡ b.size
  pub fits : b.end ≤ b.size
  pub small : b.size < 2 ^ 64

pub length-write_at : (o : ℕ) (xs m : List ℕ) → length (write_at o xs m) ≡ length m
unfolding write_at
length-write_at zero xs [] = refl
length-write_at zero [] (x ∷ m) = refl
length-write_at zero (y ∷ xs) (x ∷ m) = ap suc (length-write_at zero xs m)
length-write_at (suc o) xs [] = refl
length-write_at (suc o) xs (x ∷ m) = ap suc (length-write_at o xs m)

-- Up to the end of a write that stays in the block stand the bytes before it, then those written.
pub take-write_at :
    (o n : ℕ) (xs m : List ℕ)
    → n ≡ o + length xs
    → n ≤ length m
    → take n (write_at o xs m) ≡ take o m ++ xs
unfolding write_at
take-write_at zero zero [] [] e le = refl
take-write_at zero zero [] (x ∷ m) e le = refl
take-write_at zero zero (y ∷ xs) m e le = absurd (omega arith)
take-write_at zero (suc n) [] m e le = absurd (omega arith)
take-write_at zero (suc n) (y ∷ xs) [] e le = absurd (omega arith)
take-write_at zero (suc n) (y ∷ xs) (x ∷ m) e le =
    ap (λ l. y ∷ l) (take-write_at zero n xs m (omega arith) (omega arith))
take-write_at (suc o) zero xs m e le = absurd (omega arith)
take-write_at (suc o) (suc n) xs [] e le = absurd (omega arith)
take-write_at (suc o) (suc n) xs (x ∷ m) e le =
    ap (λ l. x ∷ l) (take-write_at o n xs m (omega arith) (omega arith))

pub take-append : (n : ℕ) (xs ys : List ℕ) → n ≤ length xs → take n (xs ++ ys) ≡ take n xs
take-append zero xs ys le = refl
take-append (suc n) [] ys le = absurd (omega arith)
take-append (suc n) (x ∷ xs) ys le = ap (λ l. x ∷ l) (take-append n xs ys (omega arith))

pub take-take : (k n : ℕ) (xs : List ℕ) → k ≤ n → take k (take n xs) ≡ take k xs
take-take zero n xs le = refl
take-take (suc k) zero xs le = absurd (omega arith)
take-take (suc k) (suc n) [] le = refl
take-take (suc k) (suc n) (x ∷ xs) le = ap (λ l. x ∷ l) (take-take k n xs (omega arith))

take-nil : (n : ℕ) → take {A = ℕ} n [] ≡ []
take-nil zero = refl
take-nil (suc n) = refl

pub drop-take : (k n : ℕ) (xs : List ℕ) → drop k (take n xs) ≡ take (n - k) (drop k xs)
drop-take zero n xs = let whole : n - 0 ≡ n = omega arith in rw whole
drop-take (suc k) zero xs = let nothing : 0 - suc k ≡ 0 = omega arith in rw nothing
drop-take (suc k) (suc n) [] = sym (take-nil (suc n - suc k))
drop-take (suc k) (suc n) (x ∷ xs) =
    let less : suc n - suc k ≡ n - k = omega arith in rw (less, drop-take k n xs)

-- A new buffer is valid and empty.
pub create-IsValid : (n max : ℕ) → n < 2 ^ 64 → IsValid (create true n max).1 (replicate n 0)
unfolding create
create-IsValid n max lt = record {
  holds = refl;
  sized = length-replicate n 0;
  fits = omega arith;
  small = lt;
}

pub remainder-eq : (b : Buff) (m : List ℕ) → IsValid b m → remainder b ≡ b.size - b.end
unfolding remainder
remainder-eq b m v = omega arith

module _ (mem : Bool) (fresh : List ℕ) {b : Buff} {m : List ℕ} (v : IsValid b m) (n : ℕ) where
  pub reserve_fits : n ≤ b.size - b.end → reserve_data mem fresh b n ≡ (true, some b.end, b)
  unfolding reserve_data
  reserve_fits le =
      let test : leb n (remainder b) ≡ true = ground (arith, remainder-eq b m v) in
      rw (reserve_data, test)

  pub reserve_refused :
      b.size - b.end < n
      → ltb b.size b.max_size && mem ≡ false
      → reserve_data mem fresh b n ≡ (false, none, b)
  unfolding reserve_data
  reserve_refused more refused =
      let test : leb n (remainder b) ≡ false = ground (arith, remainder-eq b m v) in
      elim (Bool-cases (ltb b.size b.max_size)) [
        | inr full ↦ rw (reserve_data, test, full)
        | inl room ↦
            let failed : mem ≡ false = ground arith in rw (reserve_data, test, room, failed)
      ]

-- When iw_buff_reserve_data has to grow the block of a valid buffer below its maximum size, realloc
-- finds memory and the new end is below 2^64, it does so by what is missing, so that the block
-- ends exactly where the reserved data does: the maximum size is compared with the old size alone.
pub reserve_grows :
    (fresh : List ℕ) {b : Buff} {m : List ℕ} (n : ℕ)
    → IsValid b m
    → b.size - b.end < n
    → b.size < b.max_size
    → b.end + n < 2 ^ 64
    → reserve_data true fresh b n
      ≡ (true, some b.end, record b { buff = some (resized m fresh (b.end + n)); size = b.end + n })
unfolding reserve_data
reserve_grows fresh {b} {m} n v more room lt =
    let test : leb n (remainder b) ≡ false = ground (arith, remainder-eq b m v) in
    let below : ltb b.size b.max_size ≡ true = ground arith in
    let size : u64 (b.size + sub64 n (remainder b)) ≡ b.end + n =
      omega (arith, remainder-eq b m v) in
    rw (reserve_data, test, below, v.holds, size)
