-- ===== src/Log.antt =====
-- src/iw_log.c and includes/iw_log.h: the log levels, and the device that is logged to. A stream is the
-- standard output or an open file, which is known by a number. `none` is a read of the freed `s_dev`
-- or a second `free` of it. The texts that are logged are left out.
pub mod Levels
pub mod Device
pub mod Off
use insta_works.Base.{
  ℕ, zero, suc, ◌+◌, ◌*◌, ◌/◌, ◌%◌, Bool, true, false, ◌&&◌, ◌||◌, not, Option, none, some, List,
  [], ◌∷◌, ◌==◌, if◌then◌else◌, pred32, get_or, set, same_text,
}

-- `s_dev`: NULL, a string, or a pointer to freed memory.
pub data Dev : Type 0 where
  null : Dev
  live : List ℕ → Dev
  dangling : Dev

pub data Stream : Type 0 where
  stdout : Stream
  file : ℕ → Stream

pub record Log : Type 0 where
  pub dev : Dev
  pub fd : Option Stream
  pub level : ℕ
  -- The descriptions of the 32 levels.
  pub levels : List (Option (List ℕ))
  -- The open files, and the number of the next one.
  pub files : List ℕ
  pub next_file : ℕ
  pub initialized : Bool

abbrev pub log_iw : ℕ
log_iw = 1

abbrev pub log_syslog : ℕ
log_syslog = 2

abbrev pub log_mem : ℕ
log_mem = 4

abbrev pub log_web : ℕ
log_web = 8

abbrev pub log_gui : ℕ
log_gui = 16

-- `a & b` on `k` bits.
unfoldable pub bit_and : ℕ → ℕ → ℕ → ℕ
bit_and zero a b = 0
bit_and (suc k) a b = a % 2 * (b % 2) + 2 * bit_and k (a / 2) (b / 2)

-- DO_LOG
unfoldable pub do_log : Log → ℕ → Bool
unfolding bit_and
do_log l lvl = not (bit_and 32 lvl l.level == 0)

-- Whether iw_log_ex prints, where the thread's own switch is `thread_log`.
unfoldable pub log_ex : (thread_log : Bool) → Log → ℕ → Bool
unfolding do_log
log_ex thread_log l lvl = do_log l lvl && elim l.fd [ none ↦ false | some s ↦ thread_log ]

-- The loop that counts the zeros below the lowest bit, `k` at most.
unfoldable pub zeros : ℕ → ℕ → ℕ
zeros zero level = 0
zeros (suc k) level = let rest = zeros k (level / 2) in if level % 2 == 1 then 0 else suc rest

abbrev pub describe : Log → ℕ → List ℕ → Option (List ℕ) → Bool × Log
describe l cnt desc (some old) = (false, l)
describe l cnt desc none = (true, record l { levels = set l.levels cnt (some desc) })

unfoldable pub add_level : Log → ℕ → List ℕ → Bool × Log
unfolding bit_and zeros
add_level l level desc =
    let cnt = zeros 32 level in
    if bit_and 32 level (pred32 level) == 0
    then if cnt == 32 then (false, l) else describe l cnt desc (get_or l.levels cnt none)
    else (false, l)

-- iw_log_init: the descriptions are given by `texts`.
unfoldable pub log_init : (texts : ℕ → List ℕ) → Log → Log
unfolding add_level
log_init texts l =
    if l.initialized
    then l
    else let l1 = (add_level l log_iw (texts log_iw)).1 in
      let l2 = (add_level l1 log_syslog (texts log_syslog)).1 in
      let l3 = (add_level l2 log_mem (texts log_mem)).1 in
      let l4 = (add_level l3 log_web (texts log_web)).1 in
      record (add_level l4 log_gui (texts log_gui)).1 { initialized = true }

abbrev pub without_file : ℕ → List ℕ → List ℕ
without_file n [] = []
without_file n (m ∷ ms) = if n == m then ms else m ∷ without_file n ms

abbrev pub fclose : Stream → List ℕ → List ℕ
fclose Stream.stdout files = files
fclose (Stream.file n) files = without_file n files

unfoldable pub free_dev : Dev → Option Dev
free_dev Dev.null = some Dev.null
free_dev (Dev.live d) = some Dev.dangling
free_dev Dev.dangling = none

abbrev pub closed : Option Stream → List ℕ → List ℕ
closed none files = files
closed (some s) files = fclose s files

unfoldable pub log_exit : Log → Option Log
unfolding free_dev
log_exit l = elim (free_dev l.dev) [
  | none ↦ none
  | some d ↦ some (record l { dev = d; fd = none; files = closed l.fd l.files })
]

abbrev pub text_stdout : List ℕ
text_stdout = 115 ∷ 116 ∷ 100 ∷ 111 ∷ 117 ∷ 116 ∷ []

-- Whether the device is another one: `none` where strcmp reads freed memory.
unfoldable pub dev_change : Option (List ℕ) → Dev → Option Bool
dev_change none Dev.null = some true
dev_change (some dev) Dev.null = some true
dev_change none (Dev.live d) = some true
dev_change none Dev.dangling = some true
dev_change (some dev) (Dev.live d) = some (not (same_text dev d))
dev_change (some dev) Dev.dangling = none

-- The stream that is opened for a device, if it can be, and the files that are open then.
abbrev pub opened : (opens : List ℕ → Bool) → List ℕ → Log → Option (Stream × Log)
opened opens dev l =
    if same_text dev text_stdout
    then some (Stream.stdout, l)
    else if opens dev
    then some (
      Stream.file l.next_file,
      record l { files = l.next_file ∷ l.files; next_file = suc l.next_file },
    )
    else none

-- The old stream is closed, but for the standard output; `s_dev` is freed, and not cleared.
abbrev pub drop_dev : Stream → Dev → Log → Option Log
drop_dev s Dev.null l = some (record l { fd = none })
drop_dev s (Dev.live d) l = some (record l {
  fd = none;
  dev = Dev.dangling;
  files = if same_text d text_stdout then l.files else fclose s l.files;
})
drop_dev s Dev.dangling l = none

abbrev pub drop_old : Option Stream → Log → Option Log
drop_old none l = some l
drop_old (some s) l = drop_dev s l.dev l

abbrev pub put_level : ℕ → Option Log → Option Log
put_level level none = none
put_level level (some l) = some (record l { level = level })

-- `copied` says whether strdup has memory, which is not looked at.
abbrev pub put_dev : (copied : Bool) → List ℕ → Stream → Option Log → Option Log
put_dev copied dev s none = none
put_dev true dev s (some l) = some (record l { dev = Dev.live dev; fd = some s })
put_dev false dev s (some l) = some (record l { dev = Dev.null; fd = some s })

-- The device is changed, or closed: `none` for a device means NULL or a level of 0.
abbrev pub change_to : (copied : Bool) → List ℕ → ℕ → Log → Option (Stream × Log) → Option Log
change_to copied dev level l none = some l
change_to copied dev level l (some (s, l')) =
    put_level level (put_dev copied dev s (drop_old l'.fd l'))

unfoldable pub change_dev :
    (opens : List ℕ → Bool) (copied : Bool) → Log → Option (List ℕ) → ℕ → Option Log
change_dev opens copied l none level = put_level level (drop_old l.fd l)
change_dev opens copied l (some dev) level =
    if level == 0
    then put_level level (drop_old l.fd l)
    else change_to copied dev level l (opened opens dev l)

unfoldable pub set_level :
    (opens : List ℕ → Bool) (copied : Bool) → Log → Option (List ℕ) → ℕ → Option Log
unfolding dev_change change_dev
set_level opens copied l dev level = elim (dev_change dev l.dev) [
  | none ↦ none
  | some changed ↦
      if (level == l.level) && not changed
      then some l
      else if changed || (level == 0)
      then change_dev opens copied l dev level
      else some (record l { level = level })
]
