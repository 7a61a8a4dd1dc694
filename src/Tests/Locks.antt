-- ===== src/Tests/Locks.antt =====
-- The threads and mutexes of src/iw_thread.c and src/iw_mutex.c on two threads and two mutexes.
use mathlib.Core.List.{map, flatten}
use insta_works.Base.{
  ℕ, ◌+◌, ◌/◌, ◌≤◌, ◌≡◌, refl, sym, subst, ap, ◌∙◌, true, false, none, some, [], ◌∷◌, arith, ◌==◌,
  if◌then◌else◌, length,
}
use insta_works.Hash.{hash_data, hash_loop, hash_step}
use insta_works.Htable.{Htable, init, insert, replace, find, push, add_node, get}
use insta_works.Htable.Valid.{IsValid, nodes}
use insta_works.Htable.Start.{init-Starts}
use insta_works.Htable.Insert.{insert-Inserts}
use insta_works.Htable.Walk.Visits.{items}
use insta_works.Threads.{Threads, key_of, mutex_key, thread_key, mutex_find}
use insta_works.Threads.Loops.{Search, deadlock_check, owner}
use insta_works.Threads.Deadlock.{Waits, Chain, last, step, steps}
use insta_works.Threads.Verdict.{
  Verdict, AllIdle, deadlock_check-Verdict, deadlock_check-finds, deadlock_check-hangs,
}

abbrev pub blank : Htable ℕ
blank = record {
  fn = λ k. 0;
  size = 0;
  iw_mem_alloc = false;
  num_elems = 0;
  collisions = 0;
  table = [];
}

abbrev pub empty : Htable ℕ
empty = (init true blank 2 false none).1

pub empty-IsValid : IsValid empty
empty-IsValid = (init-Starts blank 2 false none (omega arith)).valid

abbrev pub one_thread : Htable ℕ
one_thread = (insert true empty (thread_key 2) (some 20)).1

abbrev pub two_threads : Htable ℕ
two_threads = (insert true one_thread (thread_key 1) (some 10)).1

abbrev pub one_mutex : Htable ℕ
one_mutex = (insert true empty (mutex_key 1) (some 100)).1

abbrev pub two_mutexes : Htable ℕ
two_mutexes = (insert true one_mutex (mutex_key 2) (some 200)).1

one_thread-IsValid : IsValid one_thread
one_thread-IsValid = (insert-Inserts true empty (thread_key 2) (some 20) empty-IsValid).valid

pub two_threads-IsValid : IsValid two_threads
two_threads-IsValid =
    (insert-Inserts true one_thread (thread_key 1) (some 10) one_thread-IsValid).valid

-- The threads 1 and 2 wait for the mutexes `first` and `second`, which the threads 2 and `holder` own.
abbrev pub world : ℕ → ℕ → ℕ → Threads
world first second holder = record {
  mutexes = two_mutexes;
  threads = two_threads;
  minfo = λ a. record { id = a / 100; name = []; thread = if a == 100 then 2 else holder };
  tinfo = λ a. record {
    name = [];
    thread = a / 10;
    mutex = if a == 10 then first else second;
    log = false;
    client = true;
  };
  mutex_id = 3;
  main_tinfo = none;
  freed = [];
}

pub threads_are : items (nodes two_threads) ≡ map some (10 ∷ 20 ∷ [])
unfolding get insert replace find push add_node init hash_data hash_loop hash_step flatten key_of
threads_are = refl

mutex_1 : mutex_find (world 1 2 1) 1 ≡ some 100
unfolding mutex_find get insert replace find push add_node init hash_data hash_loop hash_step key_of
mutex_1 = refl

owner_2 : owner (world 1 2 1) 100 ≡ some 20
unfolding owner get insert replace find push add_node init hash_data hash_loop hash_step key_of
owner_2 = refl

ten_Waits : Waits (world 1 2 1) 10 20
unfolding mutex_find owner get insert replace find push add_node init hash_data hash_loop hash_step
    key_of
ten_Waits = record { waits = refl; mutex = 100; finds = refl; owned = refl }

twenty_Waits : Waits (world 1 2 1) 20 10
unfolding mutex_find owner get insert replace find push add_node init hash_data hash_loop hash_step
    key_of
twenty_Waits = record { waits = refl; mutex = 200; finds = refl; owned = refl }

abbrev circle : Chain (world 1 2 1) 10 10
circle = step ten_Waits (last twenty_Waits)

deadlock_check-Verdict_example :
    Verdict
      (world 1 2 1)
      (10 ∷ 20 ∷ [])
      (deadlock_check (length (nodes two_threads) + 1) 5 (world 1 2 1))
deadlock_check-Verdict_example =
    deadlock_check-Verdict 5 (world 1 2 1) (10 ∷ 20 ∷ []) two_threads-IsValid threads_are

two_steps : steps (world 1 2 1) circle ≤ 2
unfolding steps
two_steps = omega arith

none_before : (w : Threads) → AllIdle w []
unfolding AllIdle
none_before w = tt

deadlock_check-finds_example :
    deadlock_check (length (nodes two_threads) + 1) 2 (world 1 2 1) ≡ Search.found
deadlock_check-finds_example =
    deadlock_check-finds 2 (world 1 2 1) [] 10 (20 ∷ []) circle two_threads-IsValid threads_are
      (none_before (world 1 2 1)) two_steps (omega arith)

-- The second thread waits for a mutex that it owns itself.
to_self : Waits (world 1 2 2) 10 20
unfolding mutex_find owner get insert replace find push add_node init hash_data hash_loop hash_step
    key_of
to_self = record { waits = refl; mutex = 100; finds = refl; owned = refl }

itself : Waits (world 1 2 2) 20 20
unfolding mutex_find owner get insert replace find push add_node init hash_data hash_loop hash_step
    key_of
itself = record { waits = refl; mutex = 200; finds = refl; owned = refl }

Waits-once : {w : Threads} {a b c : ℕ} → Waits w a b → Waits w a c → b ≡ c
Waits-once {w = w} {b = b} {c = c} s s' =
    let m : some s.mutex ≡ some s'.mutex = sym s.finds ∙ s'.finds in
    let same : s.mutex ≡ s'.mutex = cc in
    let o : some b ≡ some c = sym s.owned ∙ ap (owner w) same ∙ s'.owned in cc

stays : {a b : ℕ} → a ≡ 20 → Chain (world 1 2 2) a b → b ≡ 20
stays e (last {a = a} {b = b} s) =
    sym (Waits-once itself (subst (λ x. Waits (world 1 2 2) x b) e s))
stays e (step {a = a} {b = b} s c) =
    stays (sym (Waits-once itself (subst (λ x. Waits (world 1 2 2) x b) e s))) c

never_ten : ¬ Chain (world 1 2 2) 20 10
never_ten c = let e = stays refl c in absurd (omega (arith, e))

deadlock_check-hangs_example :
    deadlock_check (length (nodes two_threads) + 1) 1000 (world 1 2 2) ≡ Search.running
deadlock_check-hangs_example =
    deadlock_check-hangs 1000 (world 1 2 2) [] 10 20 (20 ∷ []) two_threads-IsValid threads_are
      (none_before (world 1 2 2)) to_self (last itself) never_ten (omega arith)

mutex_1_free : mutex_find (world 0 0 0) 1 ≡ some 100
unfolding mutex_find get insert replace find push add_node init hash_data hash_loop hash_step key_of
mutex_1_free = refl

bernstein : one_mutex.fn ≡ hash_data
unfolding insert replace find push add_node init hash_data hash_loop hash_step key_of
bernstein = refl
