-- ===== src/Buff.antt =====
-- src/iw_buff.c and includes/iw_buff.h: a byte buffer that grows. The memory block is the list of its
-- bytes, and the empty option is NULL. `mem` says whether the allocation of the call succeeds, and
-- `fresh` gives the bytes that realloc adds at the end of the block, which C leaves open. A pointer
-- into the block is an offset.
pub mod Queue
pub mod Bounds
use insta_works.Base.{
  ℕ, zero, suc, ◌+◌, ◌-◌, ◌%◌, ◌^◌, Bool, true, false, Option, none, some, List, [], ◌∷◌, ◌++◌,
  if◌then◌else◌, ltb, leb, length, replicate, take, drop,
}

pub record Buff : Type 0 where
  pub buff : Option (List ℕ)
  pub end : ℕ
  pub size : ℕ
  pub max_size : ℕ

-- The results of arithmetic on `size_t`.
abbrev pub u64 : ℕ → ℕ
u64 n = n % 2 ^ 64

abbrev pub sub64 : ℕ → ℕ → ℕ
sub64 a b = (a + 2 ^ 64 - b) % 2 ^ 64

-- `memset(buff, 0, sizeof(*buff))`.
abbrev pub cleared : Buff
cleared = record { buff = none; end = 0; size = 0; max_size = 0 }

unfoldable pub create : (mem : Bool) → ℕ → ℕ → Bool × Buff
create false initial_size max_size = (false, cleared)
create true initial_size max_size = (
  true,
  record {
    buff = some (replicate initial_size 0);
    end = 0;
    size = initial_size;
    max_size = max_size;
  },
)

unfoldable pub destroy : Buff → Buff
destroy b = cleared

unfoldable pub remainder : Buff → ℕ
remainder b = sub64 b.size b.end

-- `memcpy` of `xs` to an offset of a block; what would lie behind the block is cut off.
unfoldable pub write_at : ℕ → List ℕ → List ℕ → List ℕ
write_at zero xs [] = []
write_at zero [] (m ∷ ms) = m ∷ ms
write_at zero (x ∷ xs) (m ∷ ms) = x ∷ write_at zero xs ms
write_at (suc o) xs [] = []
write_at (suc o) xs (m ∷ ms) = m ∷ write_at o xs ms

-- The block after a realloc to `n` bytes.
unfoldable pub resized : List ℕ → List ℕ → ℕ → List ℕ
resized block fresh n = take n (block ++ fresh)

-- The result, the pointer as an offset (`none` where the call does not set it or sets NULL), and
-- the buffer.
unfoldable pub reserve_data : (mem : Bool) (fresh : List ℕ) → Buff → ℕ → Bool × Option ℕ × Buff
unfolding remainder resized
reserve_data mem fresh b size =
    let rest = remainder b in
    let new_size = u64 (b.size + sub64 size rest) in
    if leb size rest
    then (true, some b.end, b)
    else if ltb b.size b.max_size
    then (if mem
        then (
          true,
          some b.end,
          record b {
            buff = elim b.buff [
              | none ↦ some (take new_size fresh)
              | some m ↦ some (resized m fresh new_size)
            ];
            size = new_size;
          },
        )
        else (false, none, b))
    else (false, none, b)

unfoldable pub commit_data : Buff → ℕ → Buff
commit_data b size = record b { end = u64 (b.end + size) }

unfoldable pub write_block : Buff → ℕ → List ℕ → Buff
unfolding write_at
write_block b offset xs = record b {
  buff = elim b.buff [ none ↦ none | some m ↦ some (write_at offset xs m) ];
}

-- What follows the call of iw_buff_reserve_data in iw_buff_add_data.
unfoldable pub add_reserved : List ℕ → Bool × Option ℕ × Buff → Bool × Buff
unfolding commit_data write_block
add_reserved bytes (false, ptr, b) = (false, b)
add_reserved bytes (true, none, b) = (true, b)
add_reserved bytes (true, some ptr, b) =
    (true, commit_data (write_block b ptr bytes) (length bytes))

-- `bytes` are the `size` bytes at `data`.
unfoldable pub add_data : (mem : Bool) (fresh : List ℕ) → Buff → List ℕ → Bool × Buff
unfolding reserve_data add_reserved
add_data mem fresh b bytes = add_reserved bytes (reserve_data mem fresh b (length bytes))

-- `memmove` of the bytes from `size` to `end` to the front of the block.
unfoldable pub remove_data : Buff → ℕ → Buff
unfolding write_at
remove_data b size = record b {
  buff = elim b.buff [
    | none ↦ none
    | some m ↦ some (write_at 0 (take (sub64 b.end size) (drop size m)) m)
  ];
  end = sub64 b.end size;
}
