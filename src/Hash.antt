-- ===== src/Hash.antt =====
-- src/iw_hash.c: Bernstein's hash on a 64-bit `unsigned long`.
pub mod Collide
use insta_works.Base.{ℕ, ◌+◌, ◌*◌, ◌%◌, ◌^◌, Option, none, some, List, [], ◌∷◌}

-- A key is a pointer to its bytes, or NULL.
abbrev pub Key : Type 0
Key = Option (List ℕ)

-- The body of the loop: `((hash << 5) + hash) + c`.
unfoldable pub hash_step : ℕ → ℕ → ℕ
hash_step hash c = (hash * 2 ^ 5 % 2 ^ 64 + hash + c) % 2 ^ 64

unfoldable pub hash_loop : ℕ → List ℕ → ℕ
hash_loop hash [] = hash
hash_loop hash (c ∷ cs) = hash_loop (hash_step hash c) cs

unfoldable pub hash_data : Key → ℕ
hash_data none = 0
hash_data (some bytes) = hash_loop 5381 bytes
