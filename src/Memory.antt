-- ===== src/Memory.antt =====
-- src/iw_memory.c and src/iw_memory_int.h: the tracking allocator. The process's memory is a function
-- from addresses to bytes. What malloc, calloc, realloc and strdup of the C library return is an
-- argument, `none` for NULL; the arguments given to `free` are kept in a list. `info` and `node` are
-- the allocations that iw_memory_add_chunk and its hash table make. The reports, which only print,
-- are left out.
pub mod Guards
pub mod Accounts
use insta_works.Base.{
  ℕ, suc, zero, ◌+◌, ◌-◌, ◌*◌, ◌/◌, ◌%◌, ◌^◌, Bool, true, false, ◌&&◌, Option, none, some, List, [],
  ◌∷◌, ◌==◌, if◌then◌else◌, u32, ltb, leb, length, take, get_or,
}
use insta_works.Hash.{Key}
use insta_works.Htable.{Htable, insert, remove}

abbrev pub cookie : ℕ
cookie = 0xABCDABCD

-- PRE_GUARD and POST_GUARD.
abbrev pub guard : ℕ
guard = 0xFEFEFEFE

-- The location and the address of an allocation.
pub record Info : Type 0 where
  pub file : List ℕ
  pub line : ℕ
  pub size : ℕ
  pub address : ℕ

pub record Memory : Type 0 where
  pub tracking : Bool
  pub mem_allocs : ℕ
  pub mem_frees : ℕ
  pub cur_bytes : ℕ
  pub acc_bytes : ℕ
  pub mem_corrupt : ℕ
  pub pre_corrupt : ℕ
  pub post_corrupt : ℕ
  pub chunks : Htable Info
  pub bytes : ℕ → ℕ
  pub released : List ℕ

-- `*(unsigned int *)a = htonl(n)`, and `ntohl` of what is read there.
unfoldable pub write32 : (ℕ → ℕ) → ℕ → ℕ → ℕ → ℕ
write32 m a n x =
    if x == a
    then n / 2 ^ 24 % 256
    else if x == a + 1
    then n / 2 ^ 16 % 256
    else if x == a + 2
    then n / 2 ^ 8 % 256
    else if x == a + 3
    then n % 256
    else m x

unfoldable pub read32 : (ℕ → ℕ) → ℕ → ℕ
read32 m a = m a * 2 ^ 24 + m (a + 1) * 2 ^ 16 + m (a + 2) * 2 ^ 8 + m (a + 3)

-- memset to zero, and memcpy, of `n` bytes.
unfoldable pub clear : (ℕ → ℕ) → ℕ → ℕ → ℕ → ℕ
clear m a n x = if leb a x && ltb x (a + n) then 0 else m x

unfoldable pub copy : (ℕ → ℕ) → ℕ → ℕ → ℕ → ℕ → ℕ
copy m to from n x = if leb to x && ltb x (to + n) then m (from + (x - to)) else m x

-- The bytes of an address, as the hash table's key.
unfoldable pub key_bytes : ℕ → ℕ → List ℕ
key_bytes zero a = []
key_bytes (suc n) a = a % 256 ∷ key_bytes n (a / 256)

abbrev pub address_key : ℕ → Key
address_key a = some (key_bytes 8 a)

-- `none`: the object could not be allocated, and NULL is dereferenced.
unfoldable pub add_chunk : (info node : Bool) → Memory → List ℕ → ℕ → ℕ → ℕ → Option Memory
unfolding insert
add_chunk false node s file line address size = none
add_chunk true node s file line address size = some (record s {
  chunks =
      (insert node s.chunks (address_key address)
        (some (record { file = take 31 file; line = line; size = size; address = address }))).1;
})

unfoldable pub delete_chunk : Memory → ℕ → Memory
unfolding remove
delete_chunk s address = record s { chunks = (remove s.chunks (address_key address)).1 }

-- What iw_malloc writes into a new chunk at `a`.
unfoldable pub dressed : (ℕ → ℕ) → ℕ → ℕ → ℕ → ℕ
unfolding write32
dressed m a size =
    write32 (write32 (write32 (write32 m a cookie) (a + 4) size) (a + 8) guard) (a + 12 + size)
      guard

abbrev pub counted : ℕ → Memory → Memory
counted size s = record s {
  mem_allocs = u32 (s.mem_allocs + 1);
  cur_bytes = u32 (s.cur_bytes + size);
  acc_bytes = u32 (s.acc_bytes + size);
}

abbrev pub returning : ℕ → ℕ → Option Memory → Option (Option ℕ × Memory)
returning ptr size none = none
returning ptr size (some s) = some (some ptr, counted size s)

-- The result, `none` for NULL, and the state; or `none` where NULL is dereferenced.
unfoldable pub malloc :
    (chunk : Option ℕ) (info node : Bool) → Memory → List ℕ → ℕ → ℕ → Option (Option ℕ × Memory)
unfolding add_chunk dressed
malloc chunk info node s file line size =
    if s.tracking
    then elim chunk [
      | none ↦ some (none, s)
      | some a ↦ returning (a + 12) size (
          add_chunk info node (record s { bytes = dressed s.bytes a size }) file line (a + 12) size)
    ]
    else some (chunk, s)

-- `memset(chunk, 0, size)`: of `elems * size` bytes, the first `size` are cleared.
unfoldable pub cleared : ℕ → Option (Option ℕ × Memory) → Option (Option ℕ × Memory)
unfolding clear
cleared size none = none
cleared size (some (none, s)) = some (none, s)
cleared size (some (some ptr, s)) = some (some ptr, record s { bytes = clear s.bytes ptr size })

unfoldable pub calloc :
    (chunk : Option ℕ) (info node : Bool) → Memory → List ℕ → ℕ → ℕ → ℕ → Option (Option ℕ × Memory)
unfolding malloc cleared
calloc chunk info node s file line elems size =
    if s.tracking
    then cleared size (malloc chunk info node s file line (elems * size))
    else elim chunk [
      | none ↦ some (none, s)
      | some a ↦ some (some a, record s { bytes = clear s.bytes a (elems * size) })
    ]

-- `len - COOKIE_SIZE - LEN_SIZE - PRE_GUARD_SIZE - POST_GUARD_SIZE`, on 32 bits.
abbrev pub org_size : ℕ → ℕ
org_size len = u32 (len + (2 ^ 32 - 16))

-- The counters after the guards are looked at.
unfoldable pub checked : Memory → ℕ → Memory
unfolding read32
checked s ptr = record s {
  pre_corrupt =
      if read32 s.bytes (ptr - 4) == guard then s.pre_corrupt else u32 (s.pre_corrupt + 1);
  post_corrupt =
      if read32 s.bytes (ptr + read32 s.bytes (ptr - 8)) == guard
      then s.post_corrupt
      else u32 (s.post_corrupt + 1);
}

abbrev pub finish_free : ℕ → ℕ → Memory → Memory
finish_free start len s = record s {
  mem_frees = u32 (s.mem_frees + 1);
  cur_bytes = u32 (s.cur_bytes + (2 ^ 32 - org_size len));
  released = start ∷ s.released;
}

unfoldable pub free : Memory → ℕ → Memory
unfolding checked delete_chunk read32
free s ptr =
    if s.tracking
    then if read32 s.bytes (ptr - 12) == cookie
      then finish_free (ptr - 12) (read32 s.bytes (ptr - 8)) (delete_chunk (checked s ptr) ptr)
      else record s { mem_corrupt = u32 (s.mem_corrupt + 1); released = ptr ∷ s.released }
    else record s { released = ptr ∷ s.released }

-- The string at `str`, whose bytes with the NUL are `len`, an `int` by its 32 bits: one byte more is
-- copied.
unfoldable pub duplicated : ℕ → ℕ → Option (Option ℕ × Memory) → Option (Option ℕ × Memory)
unfolding copy
duplicated str len none = none
duplicated str len (some (none, s)) = some (none, s)
duplicated str len (some (some ptr, s)) =
    some (some ptr, record s { bytes = copy s.bytes ptr str (u32 (len + 1)) })

unfoldable pub strdup :
    (chunk : Option ℕ) (info node : Bool) → Memory → List ℕ → ℕ → ℕ → ℕ → Option (Option ℕ × Memory)
unfolding malloc duplicated
strdup chunk info node s file line str len =
    if s.tracking
    then duplicated str (u32 (len + 1)) (malloc chunk info node s file line (u32 (len + 1)))
    else elim chunk [
      | none ↦ some (none, s)
      | some a ↦ some (some a, record s { bytes = copy s.bytes a str (len + 1) })
    ]

-- The old chunk, if there is one, is copied to the new one, if there is one, and freed.
unfoldable pub moved : Option ℕ → Option ℕ → Memory → Option ℕ × Memory
unfolding copy read32 free
moved none new s = (new, s)
moved (some ptr) none s = (none, free s ptr)
moved (some ptr) (some new) s =
    (some new, free (record s { bytes = copy s.bytes new ptr (read32 s.bytes (ptr - 8)) }) ptr)

-- A failed allocation leaves the old chunk alone.
unfoldable pub move_to : Option ℕ → Option (Option ℕ × Memory) → Option (Option ℕ × Memory)
unfolding moved
move_to ptr none = none
move_to ptr (some (none, s)) = some (none, s)
move_to ptr (some (some new, s)) = some (moved ptr (some new) s)

-- Where nothing is tracked, `bytes'` is what the C library's realloc leaves.
unfoldable pub realloc :
    (chunk : Option ℕ) (bytes' : ℕ → ℕ) (info node : Bool)
    → Memory
    → List ℕ
    → ℕ
    → Option ℕ
    → ℕ
    → Option (Option ℕ × Memory)
unfolding malloc move_to moved
realloc chunk bytes' info node s file line ptr size =
    if s.tracking
    then (if size == 0
        then some (moved ptr none s)
        else move_to ptr (malloc chunk info node s file line size))
    else some (chunk, record s { bytes = bytes' })
