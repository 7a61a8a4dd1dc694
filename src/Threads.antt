-- ===== src/Threads.antt =====
-- src/iw_thread.c, src/iw_mutex.c and their internal headers: the table of mutexes, the table of
-- threads, and the info structures, which both tables and the threads' local storage point to. A
-- pointer is an address; `minfo` and `tinfo` are what stands there. A NULL pointer that is
-- dereferenced gives `none`. The signal handler is in the child Signals. The read-write locks and the
-- callbacks are left out.
pub mod Loops
pub mod Deadlock
pub mod Verdict
pub mod Owners
pub mod Create
pub mod Signals
use insta_works.Base.{
  ℕ, zero, suc, ◌+◌, ◌/◌, ◌%◌, Bool, true, false, Option, none, some, List, [], ◌∷◌, ◌++◌, ◌==◌,
  if◌then◌else◌,
}
use insta_works.Hash.{Key}
use insta_works.Htable.{Htable, init, get, insert, remove, delete, destroy}

pub record MutexInfo : Type 0 where
  pub id : ℕ
  pub name : List ℕ
  -- The thread that owns the mutex, or 0.
  pub thread : ℕ

pub record ThreadInfo : Type 0 where
  pub name : List ℕ
  pub thread : ℕ
  -- The mutex that the thread waits for, or 0.
  pub mutex : ℕ
  pub log : Bool
  pub client : Bool

pub record Threads : Type 0 where
  pub mutexes : Htable ℕ
  pub threads : Htable ℕ
  pub minfo : ℕ → MutexInfo
  pub tinfo : ℕ → ThreadInfo
  -- The counter of ids, whose overflow beyond an `int` is left out.
  pub mutex_id : ℕ
  pub main_tinfo : Option ℕ
  -- The infos that were freed, in order.
  pub freed : List ℕ

-- An unsigned number of `width` bytes, the lowest first: what a table hashes of an `int` or a handle.
unfoldable pub key_of : ℕ → ℕ → List ℕ
key_of zero n = []
key_of (suc width) n = n % 256 ∷ key_of width (n / 256)

abbrev pub mutex_key : ℕ → Key
mutex_key id = some (key_of 4 id)

abbrev pub thread_key : ℕ → Key
thread_key thread = some (key_of 8 thread)

abbrev pub put_mutex : ℕ → MutexInfo → (ℕ → MutexInfo) → ℕ → MutexInfo
put_mutex a i f x = if a == x then i else f x

abbrev pub put_thread : ℕ → ThreadInfo → (ℕ → ThreadInfo) → ℕ → ThreadInfo
put_thread a i f x = if a == x then i else f x

abbrev pub info_delete : ℕ → Threads → Threads
info_delete a w = record w { freed = w.freed ++ a ∷ [] }

unfoldable pub mutex_find : Threads → ℕ → Option ℕ
unfolding get
mutex_find w id = get w.mutexes (mutex_key id)

unfoldable pub mutex_init : (mem : Bool) → Threads → Threads
unfolding init
mutex_init mem w = record w { mutexes = (init mem w.mutexes 128 false none).1 }

-- The data that a table gives to a deletion function, without NULL.
unfoldable pub present : List (Option ℕ) → List ℕ
present [] = []
present (none ∷ xs) = present xs
present (some a ∷ xs) = a ∷ present xs

unfoldable pub mutex_exit : Threads → Threads
unfolding destroy present
mutex_exit w =
    let r = destroy w.mutexes true in record w { mutexes = r.0; freed = w.freed ++ present r.1 }

-- `chunk` is the calloc of the info, `ready` says that pthread_mutex_init succeeds, and `mem` that the
-- table has memory. The result is the id of the mutex, or 0.
abbrev pub mutex_inserted : ℕ → ℕ → Threads → Bool × Htable ℕ → ℕ × Threads
mutex_inserted a id w (true, t) = (id, record w { mutexes = t })
mutex_inserted a id w (false, t) = (0, info_delete a (record w { mutexes = t }))

unfoldable pub mutex_create :
    (chunk : Option ℕ) (ready mem : Bool) → Threads → List ℕ → Option (ℕ × Threads)
unfolding insert
mutex_create none ready mem w name = none
mutex_create (some a) ready mem w name =
    let id = w.mutex_id in
    let w' = record w {
      minfo = put_mutex a (record { id = id; name = name; thread = 0 }) w.minfo;
      mutex_id = id + 1;
    } in
    if ready
    then some (mutex_inserted a id w' (insert mem w'.mutexes (mutex_key id) (some a)))
    else some (0, info_delete a w')

abbrev pub set_waiting : ℕ → ℕ → Threads → Threads
set_waiting self mutex w = record w {
  tinfo = put_thread self (record (w.tinfo self) { mutex = mutex }) w.tinfo;
}

abbrev pub set_owner : ℕ → ℕ → Threads → Threads
set_owner a thread w = record w {
  minfo = put_mutex a (record (w.minfo a) { thread = thread }) w.minfo;
}

-- The end of iw_mutex_lock: the thread owns the mutex, and waits no longer.
abbrev pub take_mutex : ℕ → ℕ → Threads → Threads
take_mutex self a w = set_waiting self 0 (set_owner a (w.tinfo self).thread w)

-- The mutex was not free, and has been locked after waiting: it is looked up again, and the info that
-- was found first is used.
abbrev pub taken_at : ℕ → ℕ → Threads → Option ℕ → Bool × Threads
taken_at self a w none = (false, w)
taken_at self a w (some again) = (true, take_mutex self a w)

unfoldable pub taken : ℕ → ℕ → ℕ → Threads → Bool × Threads
unfolding mutex_find
taken self mutex a w = taken_at self a w (mutex_find w mutex)

unfoldable pub locking :
    (free : Bool) (others : Threads → Threads) → Threads → ℕ → ℕ → Option ℕ → Bool × Threads
unfolding taken
locking free others w self mutex none = (false, w)
locking free others w self mutex (some a) =
    let w' = set_waiting self mutex w in
    if free then (true, take_mutex self a w') else taken self mutex a (others w')

-- `self` is the info of the calling thread, `free` says that pthread_mutex_trylock succeeds, and
-- `others` is what the other threads do while the caller waits.
unfoldable pub mutex_lock :
    (free : Bool) (others : Threads → Threads) → Threads → ℕ → ℕ → Bool × Threads
unfolding mutex_find locking
mutex_lock free others w self mutex = locking free others w self mutex (mutex_find w mutex)

unfoldable pub mutex_unlock : Threads → ℕ → Option Threads
unfolding mutex_find
mutex_unlock w mutex = elim (mutex_find w mutex) [ none ↦ none | some a ↦ some (set_owner a 0 w) ]

abbrev pub unlinked : Option ℕ → Threads → Threads
unlinked none w = w
unlinked (some a) w = info_delete a w

unfoldable pub mutex_destroy : Threads → ℕ → Threads
unfolding remove
mutex_destroy w mutex =
    let r = remove w.mutexes (mutex_key mutex) in unlinked r.0 (record w { mutexes = r.1 })

-- The info of a new thread: it logs, waits for no mutex, and is no client's.
abbrev pub info_create : Option ℕ → List ℕ → ℕ → Threads → Option (ℕ × Threads)
info_create none name thread w = none
info_create (some a) name thread w = some (
  a,
  record w {
    tinfo =
        put_thread a
          (record { name = name; thread = thread; mutex = 0; log = true; client = false }) w.tinfo;
  },
)

unfoldable pub thread_init : (mem : Bool) → Threads → Threads
unfolding init
thread_init mem w = record w { threads = (init mem w.threads 128 false none).1 }

-- The insertion that iw_thread_callback and iw_thread_register_main make.
unfoldable pub register : (mem : Bool) → Threads → ℕ → Bool × Threads
unfolding insert
register mem w a =
    let r = insert mem w.threads (thread_key (w.tinfo a).thread) (some a) in
    (r.0, record w { threads = r.1 })

abbrev pub registered_main : (mem : Bool) → Threads → Option (ℕ × Threads) → Bool × Threads
unfolding register
registered_main mem w none = (false, record w { main_tinfo = none })
registered_main mem w (some (a, w')) = register mem (record w' { main_tinfo = some a }) a

unfoldable pub register_main : (chunk : Option ℕ) (mem : Bool) → Threads → ℕ → Bool × Threads
register_main chunk mem w self =
    registered_main mem w (info_create chunk (77 ∷ 97 ∷ 105 ∷ 110 ∷ []) self w)

-- iw_thread_create_int: `handle` is what pthread_create gives on success. The new thread registers
-- itself when it runs, by `register`. The results are the truth and the value of `*tid`.
abbrev pub started :
    (handle : Option ℕ) → Bool → Threads → Option (ℕ × Threads) → Bool × ℕ × Threads
started handle client w none = (false, 0, w)
started none client w (some (a, w')) = (false, 0, info_delete a w')
started (some thread) client w (some (a, w')) = (
  true,
  thread,
  record w' {
    tinfo = put_thread a (record (w'.tinfo a) { client = client; thread = thread }) w'.tinfo;
  },
)

unfoldable pub create_int : (chunk handle : Option ℕ) → Threads → List ℕ → Bool → Bool × ℕ × Threads
create_int chunk handle w name client = started handle client w (info_create chunk name 0 w)

unfoldable pub create : (chunk handle : Option ℕ) → Threads → List ℕ → Bool × ℕ × Threads
unfolding create_int
create chunk handle w name = create_int chunk handle w name true

abbrev pub without_main : Option ℕ → Threads → Threads
without_main none w = w
without_main (some a) w =
    let r = delete w.threads (thread_key (w.tinfo a).thread) true in
    record w { threads = r.1; freed = w.freed ++ r.2; main_tinfo = none }

unfoldable pub thread_exit : Threads → Threads
unfolding destroy present delete
thread_exit w =
    let w' = without_main w.main_tinfo w in
    let r = destroy w'.threads true in record w' { threads = r.0; freed = w'.freed ++ present r.1 }

-- The info of a thread: the caller's own for the id 0.
unfoldable pub info_of : Threads → Option ℕ → ℕ → Option ℕ
unfolding get
info_of w self threadid = if threadid == 0 then self else get w.threads (thread_key threadid)

abbrev pub log_of : Threads → Option ℕ → Bool
log_of w none = false
log_of w (some a) = (w.tinfo a).log

unfoldable pub get_log : Threads → Option ℕ → ℕ → Bool
unfolding info_of
get_log w self threadid = log_of w (info_of w self threadid)

abbrev pub put_log : ℕ → Bool → (ℕ → ThreadInfo) → ℕ → ThreadInfo
put_log a log_on f = put_thread a (record (f a) { log = log_on }) f

abbrev pub with_log : Threads → Bool → Option ℕ → Bool × Threads
with_log w log_on none = (false, w)
with_log w log_on (some a) = (true, record w { tinfo = put_log a log_on w.tinfo })

unfoldable pub set_log : Threads → Option ℕ → ℕ → Bool → Bool × Threads
unfolding info_of
set_log w self threadid log_on = with_log w log_on (info_of w self threadid)
