-- ===== src/Threads/Owners.antt =====
-- Who owns a mutex and who waits for it in src/iw_mutex.c, and the switches for the log in
-- src/iw_thread.c.
use mathlib.Core.List.{map}
use insta_works.Base.{
  ℕ, zero, suc, ◌+◌, ◌≡◌, refl, sym, subst, ap, ◌∙◌, Bool, true, false, ◌&&◌, Bool-cases, inl, inr,
  Option, none, some, List, [], ◌∷◌, arith, ◌==◌, ==_refl, ==_iff, if◌then◌else◌, length, member,
}
use insta_works.Htable.{Htable}
use insta_works.Htable.Valid.{IsValid, nodes}
use insta_works.Htable.Walk.{collect, get_first, get_next}
use insta_works.Htable.Walk.Visits.{items, collect_all}
use insta_works.Threads.{
  Threads, ThreadInfo, put_log, mutex_find, mutex_lock, set_waiting, take_mutex, taken_at, locking,
  log_of, with_log, info_of, get_log, set_log,
}
use insta_works.Threads.Loops.{set_log_loop, set_log_all}

-- What a thread that got the mutex at `a` leaves: it owns it, waits for none, and the other infos
-- are as they were.
pub record Takes (w : Threads) (self a : ℕ) (w' : Threads) : Type 0 where
  pub owner : (w'.minfo a).thread ≡ (w.tinfo self).thread
  pub idle : (w'.tinfo self).mutex ≡ 0
  pub other_mutexes : (b : ℕ) → (a == b) ≡ false → w'.minfo b ≡ w.minfo b
  pub other_threads : (b : ℕ) → (self == b) ≡ false → w'.tinfo b ≡ w.tinfo b
  pub table : w'.mutexes ≡ w.mutexes

lock_taken-Takes :
    (w : Threads) (self mutex a : ℕ) → Takes w self a (take_mutex self a (set_waiting self mutex w))
lock_taken-Takes w self mutex a = record {
  owner = rw (==_refl a, ==_refl self) refl;
  idle = rw (==_refl self) refl;
  other_mutexes = λ b e. rw e refl;
  other_threads = λ b e. rw e refl;
  table = refl;
}

-- iw_mutex_lock of a known mutex that is free returns true; the calling thread owns the mutex
-- then and waits for none, and no other info has changed.
pub mutex_lock-Takes :
    (others : Threads → Threads) (w : Threads) (self mutex a : ℕ)
    → mutex_find w mutex ≡ some a
    → ((mutex_lock true others w self mutex).0 ≡ true)
      × Takes w self a (mutex_lock true others w self mutex).1
unfolding mutex_lock
mutex_lock-Takes others w self mutex a e =
    subst (λ r. (r.0 ≡ true) × Takes w self a r.1) (sym (ap (locking true others w self mutex) e))
      (refl, lock_taken-Takes w self mutex a)

-- If a mutex is destroyed while a thread waits for it, iw_mutex_lock returns false and leaves
-- everything as the others left it: the thread is still marked as waiting.
pub mutex_lock_abandoned :
    (others : Threads → Threads) (w : Threads) (self mutex a : ℕ)
    → mutex_find w mutex ≡ some a
    → mutex_find (others (set_waiting self mutex w)) mutex ≡ none
    → mutex_lock false others w self mutex ≡ (false, others (set_waiting self mutex w))
unfolding mutex_lock
mutex_lock_abandoned others w self mutex a e gone =
    ap (locking false others w self mutex) e
    ∙ ap (taken_at self a (others (set_waiting self mutex w))) gone

same_twice :
    (m log_on : Bool) {i j : ThreadInfo}
    → i ≡ j
    → (if m then record i { log = log_on } else record i { log = log_on })
      ≡ record j { log = log_on }
same_twice true log_on e = ap (λ (i : ThreadInfo). record i { log = log_on }) e
same_twice false log_on e = ap (λ (i : ThreadInfo). record i { log = log_on }) e

log_twice :
    (a b : ℕ) (log_on : Bool) (xs : List ℕ) (f : ℕ → ThreadInfo)
    → (if member b xs then record (put_log a log_on f b) { log = log_on } else put_log a log_on f b)
      ≡ (if member b (a ∷ xs) then record (f b) { log = log_on } else f b)
log_twice a b log_on xs f = elim (Bool-cases (a == b)) [
  | inl e ↦
      let same : b ≡ a = sym ((==_iff a b).0 e) in
      let self : (b == a) ≡ true = rw same (==_refl a) in
      rw (e, self) (same_twice (member b xs) log_on (ap f (sym same)))
  | inr e ↦ let other : (b == a) ≡ false = ground arith in rw (e, other) refl
]

loop-logged :
    (rounds : ℕ) (t : Htable ℕ) (log_on : Bool) (f : ℕ → ThreadInfo) (r : Option ℕ × ℕ)
    (xs : List ℕ) (b : ℕ)
    → collect t rounds r ≡ xs
    → set_log_loop rounds t log_on f r b
      ≡ (if member b xs then record (f b) { log = log_on } else f b)
unfolding set_log_loop collect
loop-logged zero t log_on f r [] b e = refl
loop-logged zero t log_on f r (x ∷ xs) b e = absurd cc
loop-logged (suc k) t log_on f (none, h) [] b e = refl
loop-logged (suc k) t log_on f (none, h) (x ∷ xs) b e = absurd cc
loop-logged (suc k) t log_on f (some a, h) [] b e = absurd cc
loop-logged (suc k) t log_on f (some a, h) (x ∷ xs) b e =
    let first : a ≡ x = cc in
    let others : collect t k (get_next t h) ≡ xs = cc in
    let rest = loop-logged k t log_on (put_log a log_on f) (get_next t h) xs b others in
    rest
    ∙ log_twice a b log_on xs f
    ∙ ap (λ y. if member b (y ∷ xs) then record (f b) { log = log_on } else f b) first

-- iw_thread_set_log_all on a valid table of the threads xs switches the log of exactly these
-- threads; their other fields and all other infos are as they were.
pub set_log_all-logs :
    (w : Threads) (log_on : Bool) (xs : List ℕ) (b : ℕ)
    → IsValid w.threads
    → items (nodes w.threads) ≡ map some xs
    → (set_log_all (length (nodes w.threads) + 1) w log_on).tinfo b
      ≡ (if member b xs then record (w.tinfo b) { log = log_on } else w.tinfo b)
unfolding set_log_all
set_log_all-logs w log_on xs b v same =
    loop-logged (length (nodes w.threads) + 1) w.threads log_on w.tinfo (get_first w.threads 0) xs b
      (collect_all w.threads 0 xs v same)

info_kept :
    (w : Threads) (self : Option ℕ) (threadid : ℕ) (log_on : Bool) (o : Option ℕ)
    → info_of (with_log w log_on o).1 self threadid ≡ info_of w self threadid
unfolding info_of
info_kept w self threadid log_on none = refl
info_kept w self threadid log_on (some a) = refl

log_written :
    (w : Threads) (log_on : Bool) (o : Option ℕ)
    → log_of (with_log w log_on o).1 o ≡ ((with_log w log_on o).0 && log_on)
log_written w log_on none = refl
log_written w log_on (some a) = rw (log_of, ==_refl a) refl

-- What iw_thread_set_log has switched, iw_thread_get_log reads; for an unknown thread both return
-- false.
pub get_log-set_log :
    (w : Threads) (self : Option ℕ) (threadid : ℕ) (log_on : Bool)
    → get_log (set_log w self threadid log_on).1 self threadid
      ≡ ((set_log w self threadid log_on).0 && log_on)
unfolding set_log get_log
get_log-set_log w self threadid log_on =
    let o = info_of w self threadid in
    ap (log_of (with_log w log_on o).1) (info_kept w self threadid log_on o)
    ∙ log_written w log_on o
