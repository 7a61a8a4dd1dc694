-- ===== src/Threads/Signals.antt =====
-- The signal handler of src/iw_thread.c and its installation. The report of a crash is one act; what is
-- logged is left out.
use insta_works.Base.{
  ℕ, zero, suc, ◌≡◌, refl, ap, arith, replicate, false, Option, none, some, List, [], ◌∷◌, ◌++◌,
  if◌then◌else◌, ◌==◌,
}
use insta_works.ValStore.{ValStore}
use insta_works.ValStore.Typed.{get_number, get_string}
use insta_works.Cfg.Names.{cfg_crashhandler_enable, cfg_crashhandler_file, cfg_prg_name}
use insta_works.Main.{is_on}

pub data Signal : Type 0 where
  sigusr1 : Signal
  sigint : Signal
  sigill : Signal
  sigabrt : Signal
  sigfpe : Signal
  sigbus : Signal
  sigsegv : Signal

pub data Effect : Type 0 where
  terminates_loop : Effect
  opens : List ℕ → Effect
  -- To a file, with the name of the program.
  reports : ℕ → List ℕ → Signal → Effect
  closes : ℕ → Effect
  -- exit, and _exit.
  exits : Effect
  exits_at_once : Effect

-- `none` is the NULL info of a thread that is not registered, which is dereferenced.
abbrev pub after_usr1 : Option ℕ → ℕ → Option (List Effect × ℕ)
after_usr1 none count = none
after_usr1 (some tinfo) count = some ([], count)

abbrev pub after_int : ℕ → Option (List Effect × ℕ)
after_int count = some (if suc count == 1 then terminates_loop ∷ [] else exits ∷ [], suc count)

abbrev pub reported : Signal → Option (List ℕ) → Option ℕ → List Effect
reported sig prg none = []
reported sig prg (some fd) = reports fd (elim prg [ none ↦ [] | some p ↦ p ]) sig ∷ closes fd ∷ []

-- `fd_of` gives the descriptor of the file of the report, or `none` for -1.
abbrev pub after_crash :
    (fd_of : List ℕ → Option ℕ) → Option (List ℕ) → Option (List ℕ) → Signal → List Effect
after_crash fd_of none prg sig = exits_at_once ∷ []
after_crash fd_of (some file) prg sig =
    opens file ∷ reported sig prg (fd_of file) ++ exits_at_once ∷ []

module _ {Address Regex : Type 0} (store : ValStore Address Regex) where
  abbrev pub crashes : (fd_of : List ℕ → Option ℕ) → ℕ → Signal → Option (List Effect × ℕ)
  unfolding get_string
  crashes fd_of count sig =
      let file = get_string store cfg_crashhandler_file in
      let prg = get_string store cfg_prg_name in some (after_crash fd_of file prg sig, count)

  -- iw_thread_signal with the info of the thread and `s_sigint_cnt`.
  unfoldable pub thread_signal :
      (fd_of : List ℕ → Option ℕ) (tinfo : Option ℕ) → ℕ → Signal → Option (List Effect × ℕ)
  thread_signal fd_of tinfo count sigusr1 = after_usr1 tinfo count
  thread_signal fd_of tinfo count sigint = after_int count
  thread_signal fd_of tinfo count sigill = crashes fd_of count sigill
  thread_signal fd_of tinfo count sigabrt = crashes fd_of count sigabrt
  thread_signal fd_of tinfo count sigfpe = crashes fd_of count sigfpe
  thread_signal fd_of tinfo count sigbus = crashes fd_of count sigbus
  thread_signal fd_of tinfo count sigsegv = crashes fd_of count sigsegv

  -- The signals that iw_thread_install_sighandler has handled.
  unfoldable pub install_sighandler : List Signal
  unfolding get_number
  install_sighandler =
      sigusr1
      ∷ sigint
      ∷ (if is_on (get_number store cfg_crashhandler_enable)
          then sigill ∷ sigabrt ∷ sigfpe ∷ sigbus ∷ sigsegv ∷ []
          else [])

  -- The effects of interrupts, one after the other.
  abbrev interrupts : (fd_of : List ℕ → Option ℕ) (tinfo : Option ℕ) → ℕ → ℕ → List Effect
  unfolding thread_signal
  interrupts fd_of tinfo zero count = []
  interrupts fd_of tinfo (suc n) count = elim (thread_signal fd_of tinfo count sigint) [
    | none ↦ []
    | some r ↦ r.0 ++ interrupts fd_of tinfo n r.1
  ]

  -- The first interrupt ends the main loop, and the handler exits on every later one.
  interrupts-exits :
      (fd_of : List ℕ → Option ℕ) (tinfo : Option ℕ) (n : ℕ)
      → interrupts fd_of tinfo (suc n) 0 ≡ terminates_loop ∷ replicate n exits
  unfolding thread_signal
  interrupts-exits fd_of tinfo n = ap (λ xs. terminates_loop ∷ xs) (later n 0)
    where
      later : (n k : ℕ) → interrupts fd_of tinfo n (suc k) ≡ replicate n exits
      later zero k = refl
      later (suc n) k =
          let apart : (suc (suc k) == 1) ≡ false = ground arith in
          rw (interrupts, apart) (ap (λ xs. exits ∷ xs) (later n (suc k)))
