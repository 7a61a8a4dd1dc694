-- ===== src/Cmds/Builtin.antt =====
-- The functions of the predefined commands of src/iw_cmds.c that take no part in the log, and
-- iw_thread_callstack of src/iw_thread.c; what is printed is left out.
use insta_works.Base.{ℕ, Bool, true, false, Option, none, some, List, [], ◌∷◌, ◌++◌, if◌then◌else◌}
use insta_works.Htable.{get}
use insta_works.Threads.{Threads, thread_key}
use insta_works.Cmds.{ParseInfo, get_token}

pub data Builtin : Type 0 where
  cmd_help : Builtin
  cmd_thread_dump : Builtin
  cmd_mutex_dump : Builtin
  cmd_callstack : Builtin
  cmd_log_lvl : Builtin
  cmd_log_thread : Builtin
  cmd_memory_show : Builtin
  cmd_memory_summary : Builtin
  cmd_memory_brief : Builtin
  cmd_syslog_dump : Builtin
  cmd_syslog_clear : Builtin
  cmd_iwver : Builtin
  cmd_quit : Builtin

-- The address of the function.
abbrev pub fn_of : Builtin → ℕ
fn_of cmd_help = 0
fn_of cmd_thread_dump = 1
fn_of cmd_mutex_dump = 2
fn_of cmd_callstack = 3
fn_of cmd_log_lvl = 4
fn_of cmd_log_thread = 5
fn_of cmd_memory_show = 6
fn_of cmd_memory_summary = 7
fn_of cmd_memory_brief = 8
fn_of cmd_syslog_dump = 9
fn_of cmd_syslog_clear = 10
fn_of cmd_iwver = 11
fn_of cmd_quit = 12

-- What a command function has another part do.
pub data Act : Type 0 where
  shows_help : Act
  dumps_threads : Act
  dumps_mutexes : Act
  -- SIGUSR1 is sent to the thread.
  signals : ℕ → Act
  shows_memory : Act
  summarizes_memory : Act
  briefs_memory : Act
  displays_syslog : Act
  clears_syslog : Act
  calls_shutdown : Act
  terminates_loop : Act

-- iw_thread_callstack.
unfoldable pub thread_callstack : Threads → ℕ → List Act
unfolding get
thread_callstack w thread = elim (get w.threads (thread_key thread)) [
  | none ↦ []
  | some a ↦ signals thread ∷ []
]

-- `strtoul` is that of the C library with the base 16; `none` is an error in errno.
unfoldable pub run_callstack : (strtoul : List ℕ → Option ℕ) → Threads → ParseInfo → List Act × Bool
unfolding get_token thread_callstack
run_callstack strtoul w info = elim (get_token info).0 [
  | none ↦ ([], false)
  | some text ↦ elim (strtoul text) [
    | none ↦ ([], false)
    | some thread ↦ (thread_callstack w thread, true)
  ]
]

-- `shutdown` says whether the program has set that callback.
unfoldable pub run_quit : (shutdown : Bool) → List Act × Bool
run_quit shutdown = ((if shutdown then calls_shutdown ∷ [] else []) ++ terminates_loop ∷ [], true)

-- What the function of a command does and returns; `none` for those of "log", which are in Cmds/Log.
unfoldable pub run :
    (strtoul : List ℕ → Option ℕ) (shutdown : Bool)
    → Threads
    → Builtin
    → ParseInfo
    → Option (List Act × Bool)
unfolding run_callstack run_quit
run strtoul shutdown w cmd_help info = some (shows_help ∷ [], true)
run strtoul shutdown w cmd_thread_dump info = some (dumps_threads ∷ [], true)
run strtoul shutdown w cmd_mutex_dump info = some (dumps_mutexes ∷ [], true)
run strtoul shutdown w cmd_callstack info = some (run_callstack strtoul w info)
run strtoul shutdown w cmd_log_lvl info = none
run strtoul shutdown w cmd_log_thread info = none
run strtoul shutdown w cmd_memory_show info = some (shows_memory ∷ [], true)
run strtoul shutdown w cmd_memory_summary info = some (summarizes_memory ∷ [], true)
run strtoul shutdown w cmd_memory_brief info = some (briefs_memory ∷ [], true)
run strtoul shutdown w cmd_syslog_dump info = some (displays_syslog ∷ [], true)
run strtoul shutdown w cmd_syslog_clear info = some (clears_syslog ∷ [], true)
run strtoul shutdown w cmd_iwver info = some ([], true)
run strtoul shutdown w cmd_quit info = some (run_quit shutdown)
