-- ===== src/Cmdline.antt =====
-- src/iw_cmdline.c and includes/iw_cmdline.h: the options of a program over the hash table, and the
-- processing of its arguments. An option's info and its value are known by their addresses. A callback
-- is a function of the arguments that are left. `settings` has the calls that set a number of the
-- configuration, in order.
pub mod Loop
pub mod Mandatory
pub mod Process
use insta_works.Base.{
  ℕ, Bool, true, false, Option, none, some, List, [], ◌∷◌, ◌++◌, ◌==◌, if◌then◌else◌,
}
use insta_works.Base.Int.{ℤ}
use insta_works.Htable.{Htable, init, insert, destroy}

pub data OptType : Type 0 where
  opt_flag : OptType
  opt_char : OptType
  opt_num : OptType
  opt_str : OptType
  opt_callback : OptType

-- The member of the union that was written last, or the cleared memory.
pub data OptVal : Type 0 where
  cleared : OptVal
  flag : Bool → OptVal
  num : ℤ → OptVal
  str : List ℕ → OptVal
  ch : ℕ → OptVal

pub record Opt : Type 0 where
  pub type : OptType
  pub is_set : Bool
  pub val : OptVal

-- What a callback returns, and the count and the value that it leaves.
abbrev pub Callback : Type 0
Callback = List (List ℕ) → Opt → Bool × ℤ × Opt

pub record OptInfo : Type 0 where
  pub option : List ℕ
  pub mandatory : Bool
  pub opt : ℕ
  pub proc_fn : Option Callback

pub record Cmdline : Type 0 where
  pub options : Htable ℕ
  pub infos : ℕ → OptInfo
  pub opts : ℕ → Opt
  -- The values of the options that are defined beforehand.
  pub foreground : ℕ
  pub daemon : ℕ
  pub loglevel : ℕ
  pub settings : List (List ℕ × OptVal)
  pub freed : List ℕ

abbrev pub put_opt : ℕ → Opt → (ℕ → Opt) → ℕ → Opt
put_opt a o f x = if a == x then o else f x

abbrev pub put_info : ℕ → OptInfo → (ℕ → OptInfo) → ℕ → OptInfo
put_info a i f x = if a == x then i else f x

-- The names of three settings.
pub record Names : Type 0 where
  pub foreground : List ℕ
  pub daemonize : List ℕ
  pub loglevel : List ℕ

abbrev pub check_opt : List ℕ → ℕ → Cmdline → Cmdline
check_opt name a c =
    if (c.opts a).is_set
    then record c { settings = c.settings ++ (name, (c.opts a).val) ∷ [] }
    else c

unfoldable pub check_opts : Names → Cmdline → Cmdline
check_opts names c =
    check_opt names.loglevel c.loglevel
      (check_opt names.daemonize c.daemon (check_opt names.foreground c.foreground c))

-- NULL is left alone.
unfoldable pub destroyed : List (Option ℕ) → List ℕ
destroyed [] = []
destroyed (none ∷ xs) = destroyed xs
destroyed (some a ∷ xs) = a ∷ destroyed xs

unfoldable pub cmdline_exit : Cmdline → Cmdline
unfolding destroy destroyed
cmdline_exit c =
    let r = destroy c.options true in record c { options = r.0; freed = c.freed ++ destroyed r.1 }

abbrev pub proc_of : OptType → Option Callback → Option Callback
proc_of opt_callback fn = fn
proc_of _ fn = none

-- `chunk` is the calloc of the info and `mem` the node of the table, whose failure is not seen.
unfoldable pub add_option :
    (chunk : Option ℕ) (mem : Bool)
    → Cmdline
    → (option : Option (List ℕ)) (has_help has_help_fn mandatory : Bool) (type : OptType)
    → (opt : Option ℕ) (proc_fn : Option Callback) → Bool × Cmdline
unfolding insert
add_option chunk mem c none has_help has_help_fn mandatory type opt proc_fn = (false, c)
add_option chunk mem c (some option) false false mandatory type opt proc_fn = (false, c)
add_option chunk mem c (some option) has_help has_help_fn mandatory type none proc_fn = (false, c)
add_option none mem c (some option) has_help has_help_fn mandatory type (some a) proc_fn =
    (false, c)
add_option (some i) mem c (some option) has_help has_help_fn mandatory type (some a) proc_fn = (
  true,
  record c {
    infos =
        put_info i
          (record {
            option = option;
            mandatory = mandatory;
            opt = a;
            proc_fn = proc_of type proc_fn;
          })
          c.infos;
    opts = put_opt a (record { type = type; is_set = false; val = cleared }) c.opts;
    options = (insert mem c.options (some option) (some i)).1;
  },
)

-- An option that is defined beforehand is called by one letter, or left out.
unfoldable pub add_predefined :
    (chunk : Option ℕ) (mem : Bool)
    → Cmdline
    → Option (List ℕ)
    → Bool
    → Bool
    → OptType
    → ℕ
    → Cmdline
unfolding add_option
add_predefined chunk mem c none has_help has_help_fn type a = c
add_predefined chunk mem c (some []) has_help has_help_fn type a = c
add_predefined chunk mem c (some (letter ∷ more)) has_help has_help_fn type a =
    (add_option chunk mem c (some (b'-' ∷ letter ∷ [])) has_help has_help_fn false type (some a)
      none).1

-- The letters of the options that are defined beforehand, from the configuration.
pub record Letters : Type 0 where
  pub foreground : Option (List ℕ)
  pub daemonize : Option (List ℕ)
  pub loglevel : Option (List ℕ)

-- `mem` is the table; `chunks` and `mems` are the allocations of the three options.
unfoldable pub cmdline_init :
    (mem : Bool) (chunks : ℕ → Option ℕ) (mems : ℕ → Bool) → Letters → Cmdline → Cmdline
unfolding init add_predefined
cmdline_init mem chunks mems l c =
    let c0 = record c { options = (init mem c.options 100 false none).1 } in
    let c1 = add_predefined (chunks 0) (mems 0) c0 l.foreground true false opt_flag c0.foreground in
    let c2 = add_predefined (chunks 1) (mems 1) c1 l.daemonize true false opt_flag c1.daemon in
    add_predefined (chunks 2) (mems 2) c2 l.loglevel false true opt_num c2.loglevel
