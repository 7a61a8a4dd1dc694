-- ===== src/Cmds/Log.antt =====
-- The commands "log lvl" and "log thread" of src/iw_cmds.c, over the log and the threads.
use insta_works.Base.{
  ℕ, ◌-◌, ◌%◌, ◌^◌, Bool, true, false, Option, none, some, List, [], ◌∷◌, ◌==◌, if◌then◌else◌, u32,
  same_text,
}
use insta_works.Base.Int.{ℤ, pos, negsuc}
use insta_works.Util.{util_strtoll}
use insta_works.Log.{Log, set_level}
use insta_works.Threads.{Threads, set_log}
use insta_works.Threads.Loops.{set_log_all}
use insta_works.Cmds.{ParseInfo, get_token}

-- A `long long` as an `unsigned int`.
abbrev pub to_unsigned : ℤ → ℕ
to_unsigned (pos n) = u32 n
to_unsigned (negsuc n) = 2 ^ 32 - 1 - n % 2 ^ 32

abbrev pub is_zero : ℤ → Bool
is_zero (pos n) = n == 0
is_zero (negsuc n) = false

-- The result and the log; `none` where iw_log_set_level reads freed memory.
abbrev pub level_set : Option Log → Option (Bool × Log)
level_set none = none
level_set (some l) = some (true, l)

abbrev pub level_read :
    (opens : List ℕ → Bool) (copied : Bool) → Log → Option (List ℕ) → Bool × ℤ → Option (Bool × Log)
unfolding set_level
level_read opens copied l dev (false, lvl) = some (false, l)
level_read opens copied l none (true, lvl) =
    if is_zero lvl
    then level_set (set_level opens copied l none (to_unsigned lvl))
    else some (false, l)
level_read opens copied l (some dev) (true, lvl) =
    level_set (set_level opens copied l (some dev) (to_unsigned lvl))

abbrev pub level_with :
    (opens : List ℕ → Bool) (copied : Bool)
    → Log
    → (lvlstr dev : Option (List ℕ)) → Option (Bool × Log)
unfolding util_strtoll level_read
level_with opens copied l none dev = some (false, l)
level_with opens copied l (some lvlstr) dev = level_read opens copied l dev (util_strtoll lvlstr 16)

unfoldable pub cmd_log_lvl :
    (opens : List ℕ → Bool) (copied : Bool) → Log → ParseInfo → Option (Bool × Log)
unfolding get_token level_with
cmd_log_lvl opens copied l info =
    let lvlstr = get_token info in
    let dev = get_token lvlstr.1 in level_with opens copied l lvlstr.0 dev.0

abbrev pub text_all : List ℕ
text_all = 97 ∷ 108 ∷ 108 ∷ []

abbrev pub text_on : List ℕ
text_on = 111 ∷ 110 ∷ []

abbrev pub text_off : List ℕ
text_off = 111 ∷ 102 ∷ 102 ∷ []

-- What the switch says.
unfoldable pub on_off : List ℕ → Option Bool
on_off str =
    if same_text str text_on then some true else if same_text str text_off then some false else none

-- A `long long` as a `pthread_t`.
abbrev pub to_thread : ℤ → ℕ
to_thread (pos n) = n
to_thread (negsuc n) = 2 ^ 64 - 1 - n

-- The number of the thread: 0 for all. That it could not be read is only printed.
unfoldable pub thread_number : List ℕ → ℤ
unfolding util_strtoll
thread_number str = if same_text str text_all then pos 0 else (util_strtoll str 16).1

module _ (rounds : ℕ) (w : Threads) (self : Option ℕ) where
  abbrev pub switch : ℤ → Option Bool → Bool × Threads
  unfolding set_log_all set_log
  switch threadid none = (false, w)
  switch threadid (some log_on) =
      if is_zero threadid
      then (true, set_log_all rounds w log_on)
      else set_log w self (to_thread threadid) log_on

  abbrev pub thread_with : (threadstr onoffstr : Option (List ℕ)) → Bool × Threads
  unfolding switch thread_number on_off
  thread_with none onoffstr = (false, w)
  thread_with (some threadstr) none = (false, w)
  thread_with (some threadstr) (some onoffstr) = switch (thread_number threadstr) (on_off onoffstr)

  unfoldable pub cmd_log_thread : ParseInfo → Bool × Threads
  unfolding get_token thread_with
  cmd_log_thread info =
      let threadstr = get_token info in
      let onoffstr = get_token threadstr.1 in thread_with threadstr.0 onoffstr.0
