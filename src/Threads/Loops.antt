-- ===== src/Threads/Loops.antt =====
-- The loops over the threads in src/iw_thread.c: setting the log of all, waiting for the clients, and
-- the search for a deadlock.
use insta_works.Base.{
  ℕ, zero, suc, Bool, true, false, Option, none, some, ◌++◌, ◌==◌, if◌then◌else◌,
}
use insta_works.Htable.{Htable, get, delete}
use insta_works.Htable.Walk.{get_first, get_next}
use insta_works.Threads.{Threads, ThreadInfo, thread_key, put_log, mutex_find}

-- One round for each thread that the table gives, `rounds` at most.
unfoldable pub set_log_loop : ℕ → Htable ℕ → Bool → (ℕ → ThreadInfo) → Option ℕ × ℕ → ℕ → ThreadInfo
set_log_loop zero t log_on f r = f
set_log_loop (suc k) t log_on f (none, hash) = f
set_log_loop (suc k) t log_on f (some a, hash) =
    set_log_loop k t log_on (put_log a log_on f) (get_next t hash)

unfoldable pub set_log_all : (rounds : ℕ) → Threads → Bool → Threads
unfolding set_log_loop
set_log_all rounds w log_on = record w {
  tinfo = set_log_loop rounds w.threads log_on w.tinfo (get_first w.threads 0);
}

-- The inner loop of iw_thread_wait_all: the next thread that is a client's.
unfoldable pub next_client : ℕ → Threads → Option ℕ × ℕ → Option ℕ
next_client zero w r = none
next_client (suc k) w (none, hash) = none
next_client (suc k) w (some a, hash) =
    if (w.tinfo a).client then some a else next_client k w (get_next w.threads hash)

abbrev pub joined : ℕ → Threads → Threads
joined a w =
    let r = delete w.threads (thread_key (w.tinfo a).thread) true in
    record w { threads = r.1; freed = w.freed ++ r.2 }

-- Each round joins a thread, which has ended then, and takes it out of the table; no other thread
-- changes the table meanwhile.
unfoldable pub wait_all : (rounds : ℕ) → Threads → Threads
unfolding next_client
wait_all zero w = w
wait_all (suc k) w = elim (next_client (suc k) w (get_first w.threads 0)) [
  | none ↦ w
  | some a ↦ wait_all k (joined a w)
]

-- What a search is at when its rounds are used up, or how it ended.
pub data Search : Type 0 where
  found : Search
  no_cycle : Search
  running : Search

-- The thread that owns the mutex at `a`, if it is registered.
unfoldable pub owner : Threads → ℕ → Option ℕ
unfolding get
owner w a = get w.threads (thread_key (w.minfo a).thread)

-- The inner loop of iw_thread_deadlock_check, from the thread `cur`, or NULL. Where the mutex is not
-- in the table, `continue` goes on with the same thread.
unfoldable pub chase : ℕ → Threads → (first : ℕ) → (cur : Option ℕ) → Search
unfolding mutex_find owner
chase zero w first cur = Search.running
chase (suc k) w first none = Search.no_cycle
chase (suc k) w first (some cur) = elim ((w.tinfo cur).mutex == 0) [
  | true ↦ Search.no_cycle
  | false ↦ elim (mutex_find w (w.tinfo cur).mutex) [
    | none ↦ chase k w first (some cur)
    | some a ↦ elim (owner w a) [
      | none ↦ chase k w first none
      | some thread ↦ if thread == first then Search.found else chase k w first (some thread)
    ]
  ]
]

-- The outer loop: `rounds` bounds the threads, and `k` the rounds of each search.
unfoldable pub deadlock_loop : (rounds k : ℕ) → Threads → Option ℕ × ℕ → Search
unfolding chase
deadlock_loop zero k w r = Search.running
deadlock_loop (suc rounds) k w (none, hash) = Search.no_cycle
deadlock_loop (suc rounds) k w (some curr, hash) = elim (chase k w curr (some curr)) [
  | Search.found ↦ Search.found
  | Search.running ↦ Search.running
  | Search.no_cycle ↦ deadlock_loop rounds k w (get_next w.threads hash)
]

unfoldable pub deadlock_check : (rounds k : ℕ) → Threads → Search
unfolding deadlock_loop
deadlock_check rounds k w = deadlock_loop rounds k w (get_first w.threads 0)
