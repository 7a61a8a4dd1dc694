-- ===== src/Threads/Deadlock.antt =====
-- iw_thread_deadlock_check of src/iw_thread.c: what its answers say of the threads that wait for each
-- other, and when it goes on for ever.
use insta_works.Base.{
  ℕ, zero, suc, ◌≤◌, ◌≡◌, refl, sym, subst, ◌∙◌, true, false, Bool-cases, Option-cases, inl, inr,
  none, some, arith, ◌==◌, ==_iff, ==_refl, if◌then◌else◌,
}
use insta_works.Threads.{Threads, mutex_find}
use insta_works.Threads.Loops.{Search, chase, owner}

-- The thread `a` waits for a mutex that the thread `b` owns.
pub record Waits (w : Threads) (a b : ℕ) : Type 0 where
  pub waits : ((w.tinfo a).mutex == 0) ≡ false
  pub mutex : ℕ
  pub finds : mutex_find w (w.tinfo a).mutex ≡ some mutex
  pub owned : owner w mutex ≡ some b

-- `b` is reached from `a` in one step or more.
pub data Chain (w : Threads) : ℕ → ℕ → Type 0 where
  last : {a b : ℕ} → Waits w a b → Chain w a b
  step : {a b c : ℕ} → Waits w a b → Chain w b c → Chain w a c

-- What a round of the search finds of the thread `a`.
pub data Round (w : Threads) (a : ℕ) : Type 0 where
  idle : ((w.tinfo a).mutex == 0) ≡ true → Round w a
  gone : ((w.tinfo a).mutex == 0) ≡ false → mutex_find w (w.tinfo a).mutex ≡ none → Round w a
  unowned :
      ((w.tinfo a).mutex == 0) ≡ false
      → (m : ℕ) → mutex_find w (w.tinfo a).mutex ≡ some m
      → owner w m ≡ none
      → Round w a
  blocked : (b : ℕ) → Waits w a b → Round w a

module _ (w : Threads) where
  look_at : (a : ℕ) → Round w a
  look_at a = elim (Bool-cases ((w.tinfo a).mutex == 0)) [
    | inl e ↦ idle e
    | inr e ↦ elim (Option-cases (mutex_find w (w.tinfo a).mutex)) [
      | inl none_there ↦ gone e none_there
      | inr (m, there) ↦ elim (Option-cases (owner w m)) [
        | inl nobody ↦ unowned e m there nobody
        | inr (b, has) ↦ blocked b (record { waits = e; mutex = m; finds = there; owned = has })
      ]
    ]
  ]

  module _ (k first a : ℕ) where
    pub chase-idle :
        ((w.tinfo a).mutex == 0) ≡ true → chase (suc k) w first (some a) ≡ Search.no_cycle
    unfolding chase
    chase-idle e = rw (chase, e) refl

    pub chase-gone :
        ((w.tinfo a).mutex == 0) ≡ false
        → mutex_find w (w.tinfo a).mutex ≡ none
        → chase (suc k) w first (some a) ≡ chase k w first (some a)
    unfolding chase
    chase-gone e f = rw (chase, e, f) refl

    pub chase-unowned :
        ((w.tinfo a).mutex == 0) ≡ false
        → (m : ℕ) → mutex_find w (w.tinfo a).mutex ≡ some m
        → owner w m ≡ none
        → chase (suc k) w first (some a) ≡ chase k w first none
    unfolding chase
    chase-unowned e m f g = rw (chase, e, f, g) refl

    pub chase-Waits :
        (b : ℕ)
        → Waits w a b
        → chase (suc k) w first (some a)
          ≡ (if b == first then Search.found else chase k w first (some b))
    unfolding chase
    chase-Waits b s = rw (chase, s.waits, s.finds, s.owned) refl

    pub chase-hit :
        (b : ℕ) → Waits w a b → (b == first) ≡ true → chase (suc k) w first (some a) ≡ Search.found
    chase-hit b s e = chase-Waits b s ∙ rw e refl

    pub chase-miss :
        (b : ℕ)
        → Waits w a b
        → (b == first) ≡ false
        → chase (suc k) w first (some a) ≡ chase k w first (some b)
    chase-miss b s e = chase-Waits b s ∙ rw e refl

  nowhere_lost : (k first : ℕ) → ¬ (chase k w first none ≡ Search.found)
  unfolding chase
  nowhere_lost zero first e = cc
  nowhere_lost (suc k) first e = cc

  -- What a search finds is a chain from where it is to the thread it began with.
  pub chase-Chain :
      (k first cur : ℕ) → chase k w first (some cur) ≡ Search.found → Chain w cur first
  unfolding chase
  chase-Chain zero first cur e = absurd cc
  chase-Chain (suc k) first cur e = elim (look_at cur) [
    | idle i ↦ let no = sym e ∙ chase-idle k first cur i in absurd cc
    | gone i m ↦ chase-Chain k first cur (sym (chase-gone k first cur i m) ∙ e)
    | unowned i m f g ↦ absurd (nowhere_lost k first (sym (chase-unowned k first cur i m f g) ∙ e))
    | blocked b s ↦ elim (Bool-cases (b == first)) [
      | inl same ↦ last (subst (Waits w cur) ((==_iff b first).0 same) s)
      | inr other ↦ step s (chase-Chain k first b (sym (chase-miss k first cur b s other) ∙ e))
    ]
  ]

  -- A search that ends without a cycle was not on one.
  pub chase-no_chain :
      (k first cur : ℕ) → chase k w first (some cur) ≡ Search.no_cycle → ¬ Chain w cur first
  unfolding chase
  chase-no_chain zero first cur e c = cc
  chase-no_chain (suc k) first cur e (last s) =
      let hit = chase-hit k first cur first s (==_refl first) in let no = sym e ∙ hit in cc
  chase-no_chain (suc k) first cur e (step {b = b} s c) = elim (Bool-cases (b == first)) [
    | inl same ↦ let no = sym e ∙ chase-hit k first cur b s same in cc
    | inr other ↦ chase-no_chain k first b (sym (chase-miss k first cur b s other) ∙ e) c
  ]

  unfoldable pub steps : {a b : ℕ} → Chain w a b → ℕ
  steps (last s) = 1
  steps (step s c) = suc (steps c)

  -- As many rounds as the chain has steps find it.
  pub chase-steps :
      (k first cur : ℕ) (c : Chain w cur first)
      → steps c ≤ k
      → chase k w first (some cur) ≡ Search.found
  unfolding steps
  chase-steps zero first cur (last s) le = absurd (omega arith)
  chase-steps zero first cur (step s c) le = absurd (omega arith)
  chase-steps (suc k) first cur (last s) le = chase-hit k first cur first s (==_refl first)
  chase-steps (suc k) first cur (step {b = b} s c) le = elim (Bool-cases (b == first)) [
    | inl same ↦ chase-hit k first cur b s same
    | inr other ↦ chase-miss k first cur b s other ∙ chase-steps k first b c (omega arith)
  ]

  pub Chain-append : {a b c : ℕ} → Chain w a b → Chain w b c → Chain w a c
  Chain-append (last s) d = step s d
  Chain-append (step s c) d = step s (Chain-append c d)

  pub not_first : (first b cur : ℕ) → ¬ Chain w b first → Chain w b cur → (cur == first) ≡ false
  not_first first b cur apart to = elim (Bool-cases (cur == first)) [
    | inl same ↦ absurd (apart (subst (Chain w b) ((==_iff cur first).0 same) to))
    | inr other ↦ other
  ]

  -- On a cycle that the first thread is not on, the search goes round for ever.
  pub chase-round :
      (k first cur b : ℕ)
      → Chain w b b
      → ¬ Chain w b first
      → Chain w b cur
      → Chain w cur b
      → chase k w first (some cur) ≡ Search.running
  unfolding chase
  chase-round zero first cur b cycle apart to back = refl
  chase-round (suc k) first cur b cycle apart to (last s) =
      chase-miss k first cur b s (not_first first b b apart cycle)
      ∙ chase-round k first b b cycle apart cycle cycle
  chase-round (suc k) first cur b cycle apart to (step {b = d} s c) =
      let there = Chain-append to (last s) in
      chase-miss k first cur d s (not_first first b d apart there)
      ∙ chase-round k first d b cycle apart there c

  -- A thread that waits for a mutex that is gone is looked at for ever.
  pub chase-gone_for_ever :
      (k first a : ℕ)
      → ((w.tinfo a).mutex == 0) ≡ false
      → mutex_find w (w.tinfo a).mutex ≡ none
      → chase k w first (some a) ≡ Search.running
  unfolding chase
  chase-gone_for_ever zero first a waits gone_ = refl
  chase-gone_for_ever (suc k) first a waits gone_ =
      chase-gone k first a waits gone_ ∙ chase-gone_for_ever k first a waits gone_
