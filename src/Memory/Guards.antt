-- ===== src/Memory/Guards.antt =====
-- The guards of src/iw_memory.c: what iw_free reads of a chunk that iw_malloc made, and the bytes that
-- are counted.
use insta_works.Base.{
  ℕ, ◌+◌, ◌-◌, ◌^◌, ◌≤◌, ◌<◌, ◌≡◌, ◌⊎◌, refl, ◌∙◌, true, inl, inr, ◌∷◌, arith, u32,
}
use insta_works.Htable.{remove}
use insta_works.Memory.{
  Memory, cookie, guard, write32, read32, address_key, dressed, checked, delete_chunk, org_size,
  free,
}

pub read32-write32 : (m : ℕ → ℕ) (a n : ℕ) → n < 2 ^ 32 → read32 (write32 m a n) a ≡ n
unfolding read32 write32
read32-write32 m a n small = ground arith

-- A word elsewhere.
pub write32_apart : (m : ℕ → ℕ) (a n x : ℕ) → (x < a) ⊎ (a + 4 ≤ x) → write32 m a n x ≡ m x
unfolding write32
write32_apart m a n x (inl h) = ground arith
write32_apart m a n x (inr h) = ground arith

pub read32_apart :
    (m : ℕ → ℕ) (a n b : ℕ) → (b + 4 ≤ a) ⊎ (a + 4 ≤ b) → read32 (write32 m a n) b ≡ read32 m b
unfolding read32 write32
read32_apart m a n b (inl h) = ground arith
read32_apart m a n b (inr h) = ground arith

-- The header and the guards of a chunk of `size` bytes at `a` are as iw_malloc writes them.
pub record Intact (m : ℕ → ℕ) (a size : ℕ) : Type 0 where
  pub cookie_word : read32 m a ≡ cookie
  pub len_word : read32 m (a + 4) ≡ size
  pub pre_word : read32 m (a + 8) ≡ guard
  pub post_word : read32 m (a + 12 + size) ≡ guard

pub dressed-Intact : (m : ℕ → ℕ) (a size : ℕ) → size < 2 ^ 31 → Intact (dressed m a size) a size
unfolding dressed
dressed-Intact m a size small =
    let m1 = write32 m a cookie in
    let m2 = write32 m1 (a + 4) size in
    let m3 = write32 m2 (a + 8) guard in
    record {
      cookie_word =
          read32_apart m3 (a + 12 + size) guard a (inl (omega arith))
          ∙ read32_apart m2 (a + 8) guard a (inl (omega arith))
          ∙ read32_apart m1 (a + 4) size a (inl (omega arith))
          ∙ read32-write32 m a cookie (omega arith);
      len_word =
          read32_apart m3 (a + 12 + size) guard (a + 4) (inl (omega arith))
          ∙ read32_apart m2 (a + 8) guard (a + 4) (inl (omega arith))
          ∙ read32-write32 m1 (a + 4) size (omega arith);
      pre_word =
          read32_apart m3 (a + 12 + size) guard (a + 8) (inl (omega arith))
          ∙ read32-write32 m2 (a + 8) guard (omega arith);
      post_word = read32-write32 m3 (a + 12 + size) guard (omega arith);
    }

-- A program that writes inside its chunk only leaves it intact.
unfoldable pub Inside : (m m' : ℕ → ℕ) → ℕ → ℕ → Type 0
Inside m m' a size = (x : ℕ) → (x < a + 12) ⊎ (a + 12 + size ≤ x) → m' x ≡ m x

pub Inside-Intact :
    (m m' : ℕ → ℕ) (a size : ℕ) → Inside m m' a size → Intact m a size → Intact m' a size
unfolding Inside read32
Inside-Intact m m' a size same i = record {
  cookie_word = low a (omega arith) ∙ i.cookie_word;
  len_word = low (a + 4) (omega arith) ∙ i.len_word;
  pre_word = low (a + 8) (omega arith) ∙ i.pre_word;
  post_word =
      rw
        (
          same (a + 12 + size) (inr (omega arith)),
          same (a + 12 + size + 1) (inr (omega arith)),
          same (a + 12 + size + 2) (inr (omega arith)),
          same (a + 12 + size + 3) (inr (omega arith)),
        )
        i.post_word;
}
  where
    low : (b : ℕ) → b + 4 ≤ a + 12 → read32 m' b ≡ read32 m b
    low b le =
        rw
          (
            same b (inl (omega arith)),
            same (b + 1) (inl (omega arith)),
            same (b + 2) (inl (omega arith)),
            same (b + 3) (inl (omega arith)),
          )
          refl

-- What iw_free does with an intact chunk: it finds no corruption, takes the chunk's address out of
-- the table, frees the chunk, and subtracts 16 less than the size from the outstanding bytes.
pub record Frees (s : Memory) (a size : ℕ) (s' : Memory) : Type 0 where
  pub mem_corrupt : s'.mem_corrupt ≡ s.mem_corrupt
  pub pre_corrupt : s'.pre_corrupt ≡ s.pre_corrupt
  pub post_corrupt : s'.post_corrupt ≡ s.post_corrupt
  pub mem_allocs : s'.mem_allocs ≡ s.mem_allocs
  pub mem_frees : s'.mem_frees ≡ u32 (s.mem_frees + 1)
  pub cur_bytes : s'.cur_bytes ≡ u32 (s.cur_bytes + (2 ^ 32 - org_size size))
  pub chunks : s'.chunks ≡ (remove s.chunks (address_key (a + 12))).1
  pub released : s'.released ≡ a ∷ s.released

-- iw_free of a tracked chunk whose header and guards are intact.
pub free-Frees :
    (s : Memory) (a size : ℕ)
    → s.tracking ≡ true
    → Intact s.bytes a size
    → Frees s a size (free s (a + 12))
unfolding free checked delete_chunk
free-Frees s a size t i =
    let start : a + 12 - 12 ≡ a = omega arith in
    let len : a + 12 - 8 ≡ a + 4 = omega arith in
    let pre : a + 12 - 4 ≡ a + 8 = omega arith in
    rw (free, t, start, i.cookie_word, checked, len, i.len_word, pre, i.pre_word, i.post_word)
      (record {
        mem_corrupt = refl;
        pre_corrupt = refl;
        post_corrupt = refl;
        mem_allocs = refl;
        mem_frees = refl;
        cur_bytes = refl;
        chunks = refl;
        released = refl;
      })
