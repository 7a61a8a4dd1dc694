-- ===== src/Hash/Collide.antt =====
-- iw_hash_data on two keys: its range, and keys that share one hash.
use insta_works.Base.{ℕ, ◌+◌, ◌^◌, ◌<◌, ◌≡◌, refl, ap, none, some, List, [], ◌∷◌, ◌++◌, arith}
use insta_works.Hash.{Key, hash_step, hash_loop, hash_data}

hash_step-lt : (h c : ℕ) → hash_step h c < 2 ^ 64
unfolding hash_step
hash_step-lt h c = omega arith

hash_loop-lt : (h : ℕ) (bytes : List ℕ) → h < 2 ^ 64 → hash_loop h bytes < 2 ^ 64
unfolding hash_loop
hash_loop-lt h [] lt = lt
hash_loop-lt h (c ∷ cs) lt = hash_loop-lt (hash_step h c) cs (hash_step-lt h c)

pub hash_data-lt : (k : Key) → hash_data k < 2 ^ 64
unfolding hash_data
hash_data-lt none = omega arith
hash_data-lt (some bytes) = hash_loop-lt 5381 bytes (omega arith)

hash_loop-append : (h : ℕ) (xs ys : List ℕ) → hash_loop h (xs ++ ys) ≡ hash_loop (hash_loop h xs) ys
unfolding hash_loop
hash_loop-append h [] ys = refl
hash_loop-append h (x ∷ xs) ys = hash_loop-append (hash_step h x) xs ys

-- One more in a byte weighs as much as thirty-three more in the next.
hash_step-trade :
    (h a b : ℕ) → hash_step (hash_step h (a + 1)) b ≡ hash_step (hash_step h a) (b + 33)
unfolding hash_step
hash_step-trade h a b = omega arith

-- Wherever the byte pair (a + 1, b) stands in a key, the pair (a, b + 33) gives another key with
-- the same hash, whatever stands before and after it.
pub hash_data-collide :
    (before after : List ℕ) (a b : ℕ)
    → hash_data (some (before ++ ((a + 1) ∷ b ∷ after)))
      ≡ hash_data (some (before ++ (a ∷ (b + 33) ∷ after)))
unfolding hash_data hash_loop
hash_data-collide before after a b =
    rw
      (
        hash_loop-append 5381 before ((a + 1) ∷ b ∷ after),
        hash_loop-append 5381 before (a ∷ (b + 33) ∷ after),
      )
      (ap (λ h. hash_loop h after) (hash_step-trade (hash_loop 5381 before) a b))
