-- ===== src/Cmds/Predefined.antt =====
-- iw_cmd_init of src/iw_cmds.c, which adds the predefined commands.
use insta_works.Base.{
  ℕ, suc, Bool, true, false, Option, none, some, List, [], ◌∷◌, ◌++◌, if◌then◌else◌, codes,
}
use insta_works.Base.Int.{ℤ}
use insta_works.Htable.{init}
use insta_works.Main.{is_on}
use insta_works.Cmds.Builtin.{
  fn_of, cmd_help, cmd_thread_dump, cmd_mutex_dump, cmd_callstack, cmd_log_lvl, cmd_log_thread,
  cmd_memory_show, cmd_memory_summary, cmd_memory_brief, cmd_syslog_dump, cmd_syslog_clear,
  cmd_iwver, cmd_quit,
}
use insta_works.Cmds.{Cmds, CmdInfo, put_info, blank_table, cmd_add}

pub record Entry : Type 0 where
  pub parent : Option (List ℕ)
  pub cmd : List ℕ
  pub cmd_fn : Option ℕ
  pub info : List ℕ
  pub help : List ℕ

abbrev entry : Option (List ℕ) → List ℕ → Option ℕ → List ℕ → List ℕ → Entry
entry parent cmd cmd_fn info help = record {
  parent = parent;
  cmd = cmd;
  cmd_fn = cmd_fn;
  info = info;
  help = help;
}

abbrev log_entries : List Entry
log_entries =
    entry none (codes "log") none (codes "Log-related commands")
      (codes "Commands related to debug log settings.")
    ∷ entry (some (codes "log")) (codes "lvl") (some (fn_of cmd_log_lvl))
        (codes "Set the program log level")
        (codes "Enables debug log output with the given log level.")
    ∷ entry (some (codes "log")) (codes "thread") (some (fn_of cmd_log_thread))
        (codes "Enables or disables logging for threads")
        (codes "Enables or disables logging for individual threads.")
    ∷ []

abbrev summary_help : List ℕ
summary_help =
    codes "Displays the memory allocated by the process. Only shows the number of allocation"
    ++ 10 ∷ codes "for a given file, line, and size."

abbrev memory_entries : List Entry
memory_entries =
    entry none (codes "memory") none (codes "Display memory information")
      (codes "Displays the memory allocated by the process.")
    ∷ entry (some (codes "memory")) (codes "show") (some (fn_of cmd_memory_show))
        (codes "Display all allocations")
        (codes "Displays all the memory allocated by the process.")
    ∷ entry (some (codes "memory")) (codes "summary") (some (fn_of cmd_memory_summary))
        (codes "Display a summary of allocations") summary_help
    ∷ entry (some (codes "memory")) (codes "brief") (some (fn_of cmd_memory_brief))
        (codes "Display a brief summary of allocations")
        (codes "Displays the top number of places where memory was allocated by the process.")
    ∷ []

abbrev syslog_entries : List Entry
syslog_entries =
    entry none (codes "syslog") none (codes "Execute a syslog related command")
      (codes "Commands related to syslogs.")
    ∷ entry (some (codes "syslog")) (codes "show") (some (fn_of cmd_syslog_dump))
        (codes "Display the syslog buffer") (codes "Displays the syslogs sent by the process.")
    ∷ entry (some (codes "syslog")) (codes "clear") (some (fn_of cmd_syslog_clear))
        (codes "Clear the syslog buffer") (codes "Clears all messages from the syslog buffer.")
    ∷ []

abbrev quit_entry : Entry
quit_entry =
    entry none (codes "quit") (some (fn_of cmd_quit)) (codes "Shut down the program")
      (codes "Sends a command to the running program that causes it to shut down")

-- The commands in the order of the calls; `allow` is the setting that adds the last one.
unfoldable pub predefined : (allow : Option ℤ) → List Entry
predefined allow =
    entry none (codes "help") (some (fn_of cmd_help)) (codes "Display help")
        (codes "Displays help for the possible commands.")
      ∷ entry none (codes "threads") (some (fn_of cmd_thread_dump))
          (codes "Display thread information")
          (codes "Display information for all the threads running in the process.")
      ∷ entry none (codes "mutexes") (some (fn_of cmd_mutex_dump))
          (codes "Display mutex information")
          (codes "Display information for all the mutexes created in the process.")
      ∷ entry none (codes "callstack") (some (fn_of cmd_callstack))
          (codes "Display callstacks for a given thread")
          (codes "Displays the callstack for the given thread ID.")
      ∷ log_entries
    ++ memory_entries
    ++ syslog_entries
    ++ entry none (codes "iwver") (some (fn_of cmd_iwver)) (codes "Displays InstaWorks version")
        (codes "Displays the InstaWorks version information.")
      ∷ (if is_on allow then quit_entry ∷ [] else [])

-- The root, whose table has memory if `ready`.
abbrev pub root_info : (ready : Bool) → CmdInfo
unfolding init
root_info ready = record {
  cmd = [];
  info = [];
  help = [];
  children = (init ready blank_table 100 false none).1;
  cmd_fn = none;
  parent = none;
}

abbrev pub all_added : Option Cmds → Option (Bool × Cmds)
all_added none = none
all_added (some c) = some (true, c)

-- `chunk` is the calloc of the n-th node; `mem` and `mem'` say whether its own table and its place in the
-- parent's table have memory.
module _ (chunk : ℕ → Option ℕ) (mem mem' : ℕ → Bool) where
  -- The calls of iw_cmd_add from the n-th, whose results are not looked at; `none` dereferences NULL.
  unfoldable pub add_all : ℕ → Cmds → List Entry → Option Cmds
  unfolding cmd_add
  add_all n c [] = some c
  add_all n c (e ∷ es) =
      elim (cmd_add 2 16 (chunk n) (mem n) (mem' n) c e.parent e.cmd e.cmd_fn e.info e.help) [
        | none ↦ none
        | some r ↦ add_all (suc n) r.1 es
      ]

  unfoldable pub cmd_init : (ready : Bool) → Cmds → Option ℤ → Option (Bool × Cmds)
  unfolding add_all predefined
  cmd_init ready c allow =
      let c' = record c { infos = put_info c.root (root_info ready) c.infos } in
      all_added (add_all 0 c' (predefined allow))
