-- ===== src/Memory/Accounts.antt =====
-- iw_malloc, iw_strdup and iw_free of src/iw_memory.c one after the other.
use insta_works.Base.{
  ℕ, ◌+◌, ◌-◌, ◌^◌, ◌≤◌, ◌<◌, ◌≡◌, ◌⊎◌, refl, ap, ◌∙◌, if◌then◌else◌, Bool, true, ◌&&◌, inl, inr,
  some, List, ◌∷◌, arith, u32, ltb, leb, take,
}
use insta_works.Htable.{insert}
use insta_works.Memory.{
  add_chunk, Memory, cookie, guard, write32, copy, address_key, dressed, malloc, free, strdup,
  duplicated,
}
use insta_works.Memory.Guards.{write32_apart, dressed-Intact, Inside, Inside-Intact, free-Frees}

-- What iw_malloc leaves when the C library and the table's objects get their memory.
allocated : Memory → Bool → List ℕ → ℕ → ℕ → ℕ → Memory
allocated s node file line a size = record s {
  bytes = dressed s.bytes a size;
  chunks =
      (insert node s.chunks (address_key (a + 12))
        (some (record { file = take 31 file; line = line; size = size; address = a + 12 }))).1;
  mem_allocs = u32 (s.mem_allocs + 1);
  cur_bytes = u32 (s.cur_bytes + size);
  acc_bytes = u32 (s.acc_bytes + size);
}

malloc-allocated :
    (s : Memory) (node : Bool) (file : List ℕ) (line a size : ℕ)
    → s.tracking ≡ true
    → malloc (some a) true node s file line size
      ≡ some (some (a + 12), allocated s node file line a size)
unfolding malloc allocated
malloc-allocated s node file line a size t = rw (malloc, t, add_chunk) refl

-- An allocation, any writes into the chunk, and the call that frees it.
pub record MallocFree (s : Memory) (a size : ℕ) (s' : Memory) : Type 0 where
  pub mem_corrupt : s'.mem_corrupt ≡ s.mem_corrupt
  pub pre_corrupt : s'.pre_corrupt ≡ s.pre_corrupt
  pub post_corrupt : s'.post_corrupt ≡ s.post_corrupt
  pub counted_twice :
      (s'.mem_allocs ≡ u32 (s.mem_allocs + 1)) × (s'.mem_frees ≡ u32 (s.mem_frees + 1))
  pub cur_bytes : s'.cur_bytes ≡ u32 (s.cur_bytes + 16)
  pub released : s'.released ≡ a ∷ s.released

-- With tracking on, iw_malloc of less than 2^31 bytes, for which all allocations succeed, returns the
-- address behind the header. If the program writes inside the chunk only, iw_free of that address
-- finds no corruption, frees the chunk and counts the call; the outstanding bytes, on 32 bits, are
-- then 16 more than before the two calls.
pub malloc-free :
    (s : Memory) (node : Bool) (file : List ℕ) (line a size : ℕ)
    → s.tracking ≡ true
    → s.cur_bytes < 2 ^ 32
    → size < 2 ^ 31
    → (s1 : Memory) × (malloc (some a) true node s file line size ≡ some (some (a + 12), s1))
      × ((m : ℕ → ℕ)
          → Inside s1.bytes m a size
          → MallocFree s a size (free (record s1 { bytes = m }) (a + 12)))
unfolding allocated
malloc-free s node file line a size t le small = (
  allocated s node file line a size,
  malloc-allocated s node file line a size t,
  λ m inside.
      let s1 : Memory = record (allocated s node file line a size) { bytes = m } in
      let i =
        Inside-Intact (dressed s.bytes a size) m a size inside
          (dressed-Intact s.bytes a size small) in
      let f = free-Frees s1 a size t i in
      record {
        mem_corrupt = f.mem_corrupt;
        pre_corrupt = f.pre_corrupt;
        post_corrupt = f.post_corrupt;
        counted_twice = (f.mem_allocs, f.mem_frees);
        cur_bytes = omega (arith, f.cur_bytes);
        released = f.released;
      },
)

apart : (m : ℕ → ℕ) (a size x : ℕ) → (x < a) ⊎ (a + 16 + size ≤ x) → dressed m a size x ≡ m x
unfolding dressed
apart m a size x (inl h) =
    write32_apart (write32 (write32 (write32 m a cookie) (a + 4) size) (a + 8) guard)
      (a + 12 + size) guard x (inl (omega arith))
    ∙ write32_apart (write32 (write32 m a cookie) (a + 4) size) (a + 8) guard x (inl (omega arith))
    ∙ write32_apart (write32 m a cookie) (a + 4) size x (inl (omega arith))
    ∙ write32_apart m a cookie x (inl h)
apart m a size x (inr h) =
    write32_apart (write32 (write32 (write32 m a cookie) (a + 4) size) (a + 8) guard)
      (a + 12 + size) guard x (inr (omega arith))
    ∙ write32_apart (write32 (write32 m a cookie) (a + 4) size) (a + 8) guard x (inr (omega arith))
    ∙ write32_apart (write32 m a cookie) (a + 4) size x (inr (omega arith))
    ∙ write32_apart m a cookie x (inr (omega arith))

strdup_tracked :
    (s : Memory) (node : Bool) (file : List ℕ) (line a str len n more : ℕ)
    → s.tracking ≡ true
    → u32 (len + 1) ≡ n
    → u32 (n + 1) ≡ more
    → let s0 = allocated s node file line a n in
      strdup (some a) true node s file line str len
      ≡ some (some (a + 12), record s0 { bytes = copy s0.bytes (a + 12) str more })
unfolding strdup duplicated
strdup_tracked s node file line a str len n more t size last =
    ap
      (λ b.
        if b
        then duplicated str (u32 (len + 1)) (malloc (some a) true node s file line (u32 (len + 1)))
        else some (some a, record s { bytes = copy s.bytes a str (len + 1) }))
      t
    ∙ ap (λ k. duplicated str k (malloc (some a) true node s file line k)) size
    ∙ ap (duplicated str n) (malloc-allocated s node file line a n t)
    ∙ ap
        (λ k.
          let s0 = allocated s node file line a n in
          some (some (a + 12), record s0 { bytes = copy s0.bytes (a + 12) str k }))
        last

-- With tracking on, iw_strdup of a string of `len` bytes, fewer than 2^31 - 1, and its NUL, which lies outside of the new
-- chunk, for which all allocations succeed: the copy at the returned address holds those `len + 1`
-- bytes, and the byte that follows the string's NUL lies in the first byte of the guard behind them.
pub strdup_overruns :
    (s : Memory) (node : Bool) (file : List ℕ) (line a str len : ℕ)
    → s.tracking ≡ true
    → len + 1 < 2 ^ 31
    → (str + len + 2 ≤ a) ⊎ (a + 17 + len ≤ str)
    → (s1 : Memory) × (strdup (some a) true node s file line str len ≡ some (some (a + 12), s1))
      × ((i : ℕ) → i ≤ len → s1.bytes (a + 12 + i) ≡ s.bytes (str + i))
      × (s1.bytes (a + 12 + (len + 1)) ≡ s.bytes (str + (len + 1)))
unfolding strdup duplicated allocated
strdup_overruns s node file line a str len t small outside =
    let s0 = allocated s node file line a (len + 1) in
    let size : u32 (len + 1) ≡ len + 1 = omega arith in
    let more : u32 (len + 1 + 1) ≡ len + 2 = omega arith in
    (
      record s0 { bytes = copy s0.bytes (a + 12) str (len + 2) },
      strdup_tracked s node file line a str len (len + 1) (len + 2) t size more,
      λ i le. copied i (omega arith),
      copied (len + 1) (omega arith),
    )
  where
    copied :
        (i : ℕ)
        → i < len + 2
        → copy (dressed s.bytes a (len + 1)) (a + 12) str (len + 2) (a + 12 + i) ≡ s.bytes (str + i)
    copied i less =
        let there : leb (a + 12) (a + 12 + i) && ltb (a + 12 + i) (a + 12 + (len + 2)) ≡ true =
          ground arith in
        let same : a + 12 + i - (a + 12) ≡ i = omega arith in
        rw (copy, there, same)
          (apart s.bytes a (len + 1) (str + i)
            (elim outside [ inl h ↦ inl (omega arith) | inr h ↦ inr (omega arith) ]))
