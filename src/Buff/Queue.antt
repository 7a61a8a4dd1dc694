-- ===== src/Buff/Queue.antt =====
-- A buffer as the queue of its bytes: data is added at the end and removed from the front.
use insta_works.Base.{
  ℕ, ◌+◌, ◌-◌, ◌^◌, ◌≤◌, ◌<◌, ◌≡◌, refl, sym, ap, ◌∙◌, Bool, true, false, ◌&&◌, ◌||◌, Bool-cases,
  inl, inr, some, List, [], ◌++◌, arith, if◌then◌else◌, ltb, leb, length, length-append,
  length-take, length-drop, replicate, take, drop,
}
use insta_works.Buff.Bounds.{
  IsValid, length-write_at, take-write_at, take-append, take-take, drop-take, create-IsValid,
  reserve_fits, reserve_refused, reserve_grows,
}
use insta_works.Buff.{
  Buff, u64, sub64, create, write_at, resized, commit_data, write_block, add_reserved, add_data,
  remove_data,
}

-- The buffer holds a valid block, and the bytes before its end are `xs`.
pub record Contains (b : Buff) (xs : List ℕ) : Type 0 where
  pub block : List ℕ
  pub valid : IsValid b block
  pub reads : take b.end block ≡ xs

pub create-Contains : (n max : ℕ) → n < 2 ^ 64 → Contains (create true n max).1 []
unfolding create
create-Contains n max lt = record {
  block = replicate n 0;
  valid = create-IsValid n max lt;
  reads = refl;
}

pub written :
    {b : Buff} {m : List ℕ} (bytes : List ℕ)
    → IsValid b m
    → b.end + length bytes ≤ b.size
    → Contains (commit_data (write_block b b.end bytes) (length bytes)) (take b.end m ++ bytes)
unfolding commit_data write_block
written {b} {m} bytes v le =
    let sum : u64 (b.end + length bytes) ≡ b.end + length bytes = omega arith in
    record {
      block = write_at b.end bytes m;
      valid = record {
        holds = rw v.holds;
        sized = length-write_at b.end bytes m ∙ v.sized;
        fits = omega arith;
        small = v.small;
      };
      reads = rw sum (take-write_at b.end (b.end + length bytes) bytes m refl (omega arith));
    }

-- What realloc gives: a longer block that begins with the old one.
pub grown :
    (fresh : List ℕ) {b : Buff} {m : List ℕ} (n : ℕ)
    → IsValid b m
    → b.size ≤ n
    → n ≤ b.size + length fresh
    → n < 2 ^ 64
    → IsValid (record b { buff = some (resized m fresh n); size = n }) (resized m fresh n)
      × (take b.end (resized m fresh n) ≡ take b.end m)
unfolding resized
grown fresh {b} {m} n v more lt small = (
  record {
    holds = refl;
    sized = length-take n (m ++ fresh) ∙ omega (arith, length-append m fresh, v.sized);
    fits = omega (arith, v.fits);
    small = small;
  },
  take-take b.end n (m ++ fresh) (omega (arith, v.fits))
      ∙ take-append b.end m fresh (omega (arith, v.sized, v.fits)),
)

-- iw_buff_add_data: the result, and what the buffer holds then.
pub record Adds (b : Buff) (xs bytes : List ℕ) (mem : Bool) (r : Bool × Buff) : Type 0 where
  pub returns : r.0 ≡ (leb (length bytes) (b.size - b.end) || (ltb b.size b.max_size && mem))
  pub contains : Contains r.1 (if r.0 then xs ++ bytes else xs)

add_growing :
    (mem : Bool) (fresh : List ℕ) {b : Buff} {xs : List ℕ} (bytes : List ℕ)
    → Contains b xs
    → b.end + length bytes < 2 ^ 64
    → length bytes ≤ length fresh
    → leb (length bytes) (b.size - b.end) ≡ false
    → (ltb b.size b.max_size && mem) ≡ true
    → Adds b xs bytes mem (add_data mem fresh b bytes)
unfolding add_data add_reserved
add_growing false fresh {b} bytes c lt enough more room =
    absurd (and_false (ltb b.size b.max_size) room)
  where
    and_false : (t : Bool) → (t && false) ≡ true → ⊥
    and_false true e = cc
    and_false false e = cc
add_growing true fresh {b} {xs} bytes c lt enough more room =
    let n = b.end + length bytes in
    let (valid, same) =
      grown fresh {b = b} {m = c.block} n c.valid (ground arith) (omega (arith, c.valid.fits)) lt in
    let below : b.size < b.max_size = ground arith in
    let run = reserve_grows fresh (length bytes) c.valid (ground arith) below lt in
    rw run (record {
      returns = rw (more, room);
      contains = rw (same, c.reads) at (written bytes valid (omega arith));
    })

-- iw_buff_add_data on a buffer that holds `xs`, where the new end is below 2^64, succeeds exactly if the bytes fit the free space, or
-- the block is still below its maximum size and realloc finds memory. Then the buffer holds `xs` and
-- the new bytes behind them; if it fails, it holds `xs` as before.
pub add_data-Adds :
    (mem : Bool) (fresh : List ℕ) (b : Buff) (xs bytes : List ℕ)
    → Contains b xs
    → b.end + length bytes < 2 ^ 64
    → length bytes ≤ length fresh
    → Adds b xs bytes mem (add_data mem fresh b bytes)
unfolding add_data add_reserved
add_data-Adds mem fresh b xs bytes c lt enough =
    elim (Bool-cases (leb (length bytes) (b.size - b.end))) [
      | inl fits ↦ rw (reserve_fits mem fresh c.valid (length bytes) (ground arith)) (record {
        returns = rw fits;
        contains = rw c.reads at (written bytes c.valid (ground arith));
      })
      | inr more ↦ elim (Bool-cases (ltb b.size b.max_size && mem)) [
        | inl room ↦ add_growing mem fresh bytes c lt enough more room
        | inr refused ↦
            rw (reserve_refused mem fresh c.valid (length bytes) (ground arith) refused)
              (record { returns = rw (more, refused); contains = c })
      ]
    ]

-- iw_buff_remove_data takes the first `n` bytes off a buffer that holds at least as many.
pub remove_data-drop :
    (b : Buff) (xs : List ℕ) (n : ℕ)
    → Contains b xs
    → n ≤ length xs
    → Contains (remove_data b n) (drop n xs)
unfolding remove_data
remove_data-drop b xs n c le =
    let m = c.block in
    let v = c.valid in
    let len : length xs ≡ b.end =
      ap length (sym c.reads) ∙ length-take b.end m ∙ omega (arith, v.fits, v.sized) in
    let rest : sub64 b.end n ≡ b.end - n = omega (arith, v.fits, v.small, len) in
    let kept = take (b.end - n) (drop n m) in
    let long : length kept ≡ b.end - n =
      length-take (b.end - n) (drop n m) ∙ omega (arith, length-drop n m, v.fits, v.sized) in
    rw rest (record {
      block = write_at 0 kept m;
      valid = record {
        holds = rw (v.holds, rest);
        sized = length-write_at 0 kept m ∙ v.sized;
        fits = omega (arith, v.fits);
        small = v.small;
      };
      reads =
          take-write_at 0 (b.end - n) kept m (omega (arith, long)) (omega (arith, v.fits, v.sized))
          ∙ sym (drop-take n b.end m)
          ∙ ap (drop n) c.reads;
    })
