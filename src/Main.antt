-- ===== src/Main.antt =====
-- src/iw_main.c and src/iw_health.c: the start of a program as a server or a client, and the order in
-- which the parts of the library are started and stopped. What the parts do is left out: a call is
-- noted. Whether daemon, the command server, the program's own start and the client succeed are
-- arguments.
use insta_works.Base.{
  ℕ, zero, suc, Bool, true, false, ◌&&◌, ◌||◌, not, Option, none, some, List, [], ◌∷◌, ◌++◌, ◌==◌,
  if◌then◌else◌, drop,
}
use insta_works.Base.Int.{ℤ, pos}
use insta_works.Ip.{strrchr}
use insta_works.ValStore.{ValStore, Platform}
use insta_works.ValStore.Typed.{get_number}
use insta_works.Cfg.{Cfg, put_string}
use insta_works.Cfg.Setup.{cfg_init}
use insta_works.Cfg.Names.{
  cfg_loglevel, cfg_webgui_enable, cfg_healthcheck_enable, cfg_foreground, cfg_daemonize,
  cfg_prg_name,
}
use insta_works.Cmdline.Loop.{Ret, ret_unknown, ret_invalid}

pub data Part : Type 0 where
  cmdline : Part
  web_gui : Part
  health : Part
  cmd_srv : Part
  cmds : Part
  syslog : Part
  threads : Part
  mutexes : Part
  memory : Part
  config : Part
  log : Part

pub data Call : Type 0 where
  starts : Part → Call
  stops : Part → Call
  sets_log : ℤ → Call
  registers_main : Call
  calls_term_fn : Call
  waits_for_threads : Call

-- `s_initialized`, `s_main_go` and `s_term_fn`, and the calls that were made.
pub record Main : Type 0 where
  pub initialized : Bool
  pub main_go : Bool
  pub term_fn : Bool
  pub calls : List Call

-- `ptr != NULL && *ptr`
abbrev pub is_on : Option ℤ → Bool
is_on none = false
is_on (some (pos zero)) = false
is_on (some n) = true

module _ {Address Regex : Type 0} (store : ValStore Address Regex) where
  abbrev pub level_calls : Option ℤ → List Call
  level_calls none = []
  level_calls (some level) = if is_on (some level) then sets_log level ∷ [] else []

  -- iw_health_init
  unfoldable pub health_init : List Call
  unfolding get_number
  health_init = if is_on (get_number store cfg_healthcheck_enable) then starts health ∷ [] else []

  unfoldable pub init_calls : List Call
  unfolding get_number health_init
  init_calls =
      level_calls (get_number store cfg_loglevel)
      ++ starts threads
        ∷ registers_main
        ∷ starts mutexes
        ∷ starts memory
        ∷ starts syslog
        ∷ starts cmds
        ∷ (health_init
            ++ (if is_on (get_number store cfg_webgui_enable) then starts web_gui ∷ [] else []))

  unfoldable pub main_init : Main → Main
  unfolding init_calls
  main_init m =
      if m.initialized then m else record m { initialized = true; calls = m.calls ++ init_calls }

unfoldable pub exit_calls : List Call
exit_calls =
    stops cmdline
    ∷ stops web_gui
    ∷ stops health
    ∷ stops cmd_srv
    ∷ stops cmds
    ∷ stops syslog
    ∷ stops threads
    ∷ stops mutexes
    ∷ stops memory
    ∷ stops config
    ∷ stops log
    ∷ []

unfoldable pub main_exit : Main → Main
unfolding exit_calls
main_exit m = record m { initialized = false; calls = m.calls ++ exit_calls }

unfoldable pub main_loop_terminate : Main → Main
main_loop_terminate m = record m {
  main_go = false;
  calls = m.calls ++ (if m.term_fn then calls_term_fn ∷ [] else []) ++ waits_for_threads ∷ [];
}

-- The loop of the health thread: `go` and `deadlock` say what `s_health_go` and the check are in the
-- n-th second. Whether it ends with a deadlock; `none` if it goes on after `k` seconds.
unfoldable pub health_thread : ℕ → ℕ → (go deadlock : ℕ → Bool) → Option Bool
health_thread zero n go deadlock = none
health_thread (suc k) n go deadlock =
    let rest = health_thread k (suc n) go deadlock in
    if not (go n) then some false else if deadlock n then some true else rest

-- IW_MAIN_EXIT
pub data MainExit : Type 0 where
  srv_invalid_parameter : MainExit
  srv_failed : MainExit
  srv_ok : MainExit
  srv_no_opts : MainExit
  clnt_failed : MainExit
  clnt_ok : MainExit

-- What the calls of the operating system and of the program give.
pub record World : Type 0 where
  pub daemon_starts : Bool
  pub server_starts : Bool
  pub main_fn : Bool
  pub client : Bool

-- The result of the options, if it ends iw_main.
unfoldable pub early_exit : (parse_options : Bool) → Ret → (argc : ℕ) → Option MainExit
early_exit false ret argc = none
early_exit true ret_invalid argc = some srv_invalid_parameter
early_exit true ret_unknown argc = some srv_invalid_parameter
early_exit true ret argc = if argc == 1 then some srv_no_opts else none

-- The loop `while(s_main_go)`, where `go` is the flag in the n-th second; `false` if it goes on.
unfoldable pub main_loop : ℕ → ℕ → (go : ℕ → Bool) → Bool
main_loop zero n go = false
main_loop (suc k) n go = let rest = main_loop k (suc n) go in if go n then rest else true

-- The branch of the server, in at most `seconds` seconds; `none` if it runs on.
unfoldable pub serve : (daemonize : Bool) → World → Bool → List Call → Option (MainExit × List Call)
serve daemonize w ends calls =
    if daemonize && not w.daemon_starts
    then some (srv_failed, [])
    else if not w.server_starts
    then some (srv_failed, calls)
    else if not w.main_fn
    then some (srv_failed, calls ++ starts cmd_srv ∷ [])
    else if ends
    then some (srv_ok, calls ++ starts cmd_srv ∷ [])
    else none

module _ {Address Regex Value : Type 0} (p : Platform Address Regex) (mem : ℕ → Bool) where
  -- The name of the program is the part of argv[0] behind the last slash, if there is one.
  unfoldable pub name_program : Cfg Address Regex Value → List ℕ → Cfg Address Regex Value
  unfolding put_string strrchr
  name_program c arg = elim (strrchr b'/' arg) [
    | none ↦ c
    | some i ↦ put_string p mem c cfg_prg_name (drop (suc i) arg)
  ]

  -- The configuration before the options are read.
  unfoldable pub prepared : Cfg Address Regex Value → List ℕ → Cfg Address Regex Value
  unfolding name_program cfg_init
  prepared c arg = cfg_init p mem (name_program c arg)

-- What iw_init calls, which does its work once.
unfoldable pub first_calls : {Address Regex : Type 0} → ValStore Address Regex → Main → List Call
unfolding main_init
first_calls store m = (main_init store (record m { calls = [] })).calls

-- iw_main from the options on, with the store that they leave; the calls are those of iw_init and of
-- the command server's start.
unfoldable pub main_run :
    {Address Regex : Type 0}
    → ValStore Address Regex
    → Main
    → World
    → (seconds : ℕ) (go : ℕ → Bool) → Option MainExit
    → Option (MainExit × List Call)
unfolding get_number first_calls serve main_loop
main_run store m w seconds go (some e) = some (e, [])
main_run store m w seconds go none =
    let daemonize = is_on (get_number store cfg_daemonize) in
    if is_on (get_number store cfg_foreground) || daemonize
    then serve daemonize w (main_loop seconds 0 go) (first_calls store m)
    else some (if w.client then clnt_ok else clnt_failed, [])
