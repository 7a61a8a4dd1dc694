-- ===== src/Threads/Verdict.antt =====
-- iw_thread_deadlock_check of src/iw_thread.c over a whole table of threads.
use mathlib.Core.List.{map}
use insta_works.Base.{
  ℕ, zero, suc, ◌+◌, ◌≤◌, ◌<◌, ◌≡◌, refl, sym, subst, ap, ◌∙◌, true, false, Option, none, some,
  List, [], ◌∷◌, ◌++◌, arith, ◌==◌, length,
}
use insta_works.Htable.{Node}
use insta_works.Htable.Valid.{IsValid, nodes}
use insta_works.Htable.Walk.{collect, get_first, get_next}
use insta_works.Htable.Walk.Visits.{items, collect_all}
use insta_works.Threads.{Threads, mutex_find}
use insta_works.Threads.Loops.{Search, chase, deadlock_loop, deadlock_check}
use insta_works.Threads.Deadlock.{
  Waits, Chain, steps, chase-Chain, chase-no_chain, chase-steps, chase-round, chase-idle,
  chase-miss, chase-gone_for_ever, not_first,
}

abbrev then_rest : Search → Search → Search
then_rest s rest = elim s [
  | Search.found ↦ Search.found
  | Search.running ↦ Search.running
  | Search.no_cycle ↦ rest
]

-- The search from each of the threads in turn.
unfoldable answer : ℕ → Threads → List ℕ → Search
answer k w [] = Search.no_cycle
answer k w (a ∷ xs) = then_rest (chase k w a (some a)) (answer k w xs)

-- None of the threads waits for itself.
unfoldable pub NoneBlocked : Threads → List ℕ → Type 0
NoneBlocked w [] = Unit
NoneBlocked w (a ∷ xs) = (¬ Chain w a a) × NoneBlocked w xs

unfoldable pub AllIdle : Threads → List ℕ → Type 0
AllIdle w [] = Unit
AllIdle w (a ∷ xs) = (((w.tinfo a).mutex == 0) ≡ true) × AllIdle w xs

-- What each answer of the check means.
unfoldable pub Verdict : Threads → List ℕ → Search → Type 0
Verdict w xs Search.found = (a : ℕ) × Chain w a a
Verdict w xs Search.no_cycle = NoneBlocked w xs
Verdict w xs Search.running = Unit

length-items : (l : List (Node ℕ)) (xs : List ℕ) → items l ≡ map some xs → length xs ≡ length l
length-items [] [] e = refl
length-items [] (x ∷ xs) e = absurd cc
length-items (n ∷ l) [] e = absurd cc
length-items (n ∷ l) (x ∷ xs) e = ap suc (length-items l xs cc)

module _ (k : ℕ) (w : Threads) where
  loop-answer :
      (rounds : ℕ) (r : Option ℕ × ℕ) (xs : List ℕ)
      → collect w.threads rounds r ≡ xs
      → length xs < rounds
      → deadlock_loop rounds k w r ≡ answer k w xs
  unfolding deadlock_loop answer collect
  loop-answer zero r xs e lt = absurd (omega arith)
  loop-answer (suc n) (none, h) [] e lt = refl
  loop-answer (suc n) (none, h) (x ∷ xs) e lt = absurd cc
  loop-answer (suc n) (some a, h) [] e lt = absurd cc
  loop-answer (suc n) (some a, h) (x ∷ xs) e lt =
      let first : a ≡ x = cc in
      let others : collect w.threads n (get_next w.threads h) ≡ xs = cc in
      let rest = loop-answer n (get_next w.threads h) xs others (omega arith) in
      ap (λ b. then_rest (chase k w a (some a)) b) rest ∙ ap (λ b. answer k w (b ∷ xs)) first

  idle_ends :
      (a n : ℕ) → ((w.tinfo a).mutex == 0) ≡ true → 0 < n → chase n w a (some a) ≡ Search.no_cycle
  idle_ends a zero e pos = absurd (omega arith)
  idle_ends a (suc n) e pos = chase-idle w n a a e

  first_hangs :
      (a b n : ℕ)
      → Waits w a b
      → Chain w b b
      → ¬ Chain w b a
      → chase n w a (some a) ≡ Search.running
  unfolding chase
  first_hangs a b zero s cycle apart = refl
  first_hangs a b (suc n) s cycle apart =
      chase-miss w n a a b s (not_first w a b b apart cycle)
      ∙ chase-round w n a b b cycle apart cycle cycle

  then_rest-Verdict :
      (a : ℕ) (xs : List ℕ) (s rest : Search)
      → chase k w a (some a) ≡ s
      → Verdict w xs rest
      → Verdict w (a ∷ xs) (then_rest s rest)
  unfolding Verdict NoneBlocked
  then_rest-Verdict a xs Search.found rest e v = (a, chase-Chain w k a a e)
  then_rest-Verdict a xs Search.running rest e v = tt
  then_rest-Verdict a xs Search.no_cycle Search.found e v = v
  then_rest-Verdict a xs Search.no_cycle Search.running e v = v
  then_rest-Verdict a xs Search.no_cycle Search.no_cycle e v = (chase-no_chain w k a a e, v)

  answer-Verdict : (xs : List ℕ) → Verdict w xs (answer k w xs)
  unfolding answer Verdict NoneBlocked
  answer-Verdict [] = tt
  answer-Verdict (a ∷ xs) =
      then_rest-Verdict a xs (chase k w a (some a)) (answer k w xs) refl (answer-Verdict xs)

  check-answer :
      (xs : List ℕ)
      → IsValid w.threads
      → items (nodes w.threads) ≡ map some xs
      → deadlock_check (length (nodes w.threads) + 1) k w ≡ answer k w xs
  unfolding deadlock_check
  check-answer xs v same =
      let all = collect_all w.threads 0 xs v same in
      loop-answer (length (nodes w.threads) + 1) (get_first w.threads 0) xs all
        (omega (arith, length-items (nodes w.threads) xs same))

  -- If iw_thread_deadlock_check on a valid table of the threads xs answers true, some thread
  -- waits for itself, over one mutex or more; if it answers false, none of the threads xs does. A
  -- search that is still running after k rounds is not judged.
  pub deadlock_check-Verdict :
      (xs : List ℕ)
      → IsValid w.threads
      → items (nodes w.threads) ≡ map some xs
      → Verdict w xs (deadlock_check (length (nodes w.threads) + 1) k w)
  deadlock_check-Verdict xs v same =
      subst (Verdict w xs) (sym (check-answer xs v same)) (answer-Verdict xs)

  answer-finds :
      (before : List ℕ) (a : ℕ) (after : List ℕ) (c : Chain w a a)
      → AllIdle w before
      → steps w c ≤ k
      → 0 < k
      → answer k w (before ++ a ∷ after) ≡ Search.found
  unfolding answer AllIdle
  answer-finds [] a after c idle le pos = rw (chase-steps w k a a c le) refl
  answer-finds (b ∷ before) a after c idle le pos =
      let no = idle_ends b k idle.0 pos in rw no (answer-finds before a after c idle.1 le pos)

  answer-running :
      (before : List ℕ) (a : ℕ) (after : List ℕ)
      → AllIdle w before
      → 0 < k
      → chase k w a (some a) ≡ Search.running
      → answer k w (before ++ a ∷ after) ≡ Search.running
  unfolding answer AllIdle
  answer-running [] a after idle pos stuck = rw stuck refl
  answer-running (x ∷ before) a after idle pos stuck =
      let no = idle_ends x k idle.0 pos in rw no (answer-running before a after idle.1 pos stuck)

  -- If the threads that the table gives before a thread wait for no mutex, and the thread waits
  -- for itself over a chain of n mutexes, then iw_thread_deadlock_check answers true as soon as
  -- its searches have n rounds, and at least one.
  pub deadlock_check-finds :
      (before : List ℕ) (a : ℕ) (after : List ℕ) (c : Chain w a a)
      → IsValid w.threads
      → items (nodes w.threads) ≡ map some (before ++ a ∷ after)
      → AllIdle w before
      → steps w c ≤ k
      → 0 < k
      → deadlock_check (length (nodes w.threads) + 1) k w ≡ Search.found
  deadlock_check-finds before a after c v same idle le pos =
      check-answer (before ++ a ∷ after) v same ∙ answer-finds before a after c idle le pos

  -- If the first thread that waits, waits for a mutex of a thread on a cycle that it is not on
  -- itself, then iw_thread_deadlock_check never ends: it is still running after any number k > 0
  -- of rounds.
  pub deadlock_check-hangs :
      (before : List ℕ) (a b : ℕ) (after : List ℕ)
      → IsValid w.threads
      → items (nodes w.threads) ≡ map some (before ++ a ∷ after)
      → AllIdle w before
      → Waits w a b
      → Chain w b b
      → ¬ Chain w b a
      → 0 < k
      → deadlock_check (length (nodes w.threads) + 1) k w ≡ Search.running
  deadlock_check-hangs before a b after v same idle s cycle apart pos =
      check-answer (before ++ a ∷ after) v same
      ∙ answer-running before a after idle pos (first_hangs a b k s cycle apart)

  -- If the first thread that waits, waits for a mutex that is not in the table, then
  -- iw_thread_deadlock_check never ends: it is still running after any number k > 0 of rounds.
  pub deadlock_check-gone :
      (before : List ℕ) (a : ℕ) (after : List ℕ)
      → IsValid w.threads
      → items (nodes w.threads) ≡ map some (before ++ a ∷ after)
      → AllIdle w before
      → ((w.tinfo a).mutex == 0) ≡ false
      → mutex_find w (w.tinfo a).mutex ≡ none
      → 0 < k
      → deadlock_check (length (nodes w.threads) + 1) k w ≡ Search.running
  deadlock_check-gone before a after v same idle waits gone pos =
      check-answer (before ++ a ∷ after) v same
      ∙ answer-running before a after idle pos (chase-gone_for_ever w k a a waits gone)
