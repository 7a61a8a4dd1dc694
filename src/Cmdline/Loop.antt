-- ===== src/Cmdline/Loop.antt =====
-- iw_cmdline_process of src/iw_cmdline.c: the loop over the arguments and what it does with an option.
use insta_works.Base.{
  ℕ, zero, suc, ◌+◌, ◌-◌, leb, Bool, true, false, ◌&&◌, not, Option, none, some, List, [], ◌∷◌,
  ◌==◌, if◌then◌else◌,
}
use insta_works.Base.Int.{ℤ, pos, negsuc}
use insta_works.Util.{util_strtoll}
use insta_works.Htable.{get}
use insta_works.Htable.Walk.{get_first, get_next}
use insta_works.Cmdline.{
  OptType, OptVal, Opt, Callback, OptInfo, Cmdline, put_opt, Names, check_opts, opt_flag, opt_char,
  opt_num, opt_str, opt_callback, cleared, flag, num, str, ch,
}

pub data Ret : Type 0 where
  ret_none : Ret
  ret_unknown : Ret
  ret_invalid : Ret
  ret_ok : Ret
  -- A callback that is NULL is called, or argv is read in front of its beginning.
  ret_fault : Ret
  -- The rounds are used up.
  ret_running : Ret

-- The loops over all options: their values are cleared, and the mandatory ones are looked for; `none`
-- if the rounds are used up.
unfoldable pub clear_loop : ℕ → Cmdline → Option ℕ × ℕ → Option Cmdline
clear_loop zero c r = none
clear_loop (suc k) c (none, hash) = some c
clear_loop (suc k) c (some i, hash) =
    let a = (c.infos i).opt in
    let o = record (c.opts a) { is_set = false; val = cleared } in
    clear_loop k (record c { opts = put_opt a o c.opts }) (get_next c.options hash)

unfoldable pub all_mandatory : ℕ → Cmdline → Option ℕ × ℕ → Option Bool
all_mandatory zero c r = none
all_mandatory (suc k) c (none, hash) = some true
all_mandatory (suc k) c (some i, hash) =
    let rest = all_mandatory k c (get_next c.options hash) in
    if (c.infos i).mandatory && not (c.opts (c.infos i).opt).is_set then some false else rest

abbrev pub set_val : ℕ → OptVal → Cmdline → Cmdline
set_val a v c = record c { opts = put_opt a (record (c.opts a) { val = v }) c.opts }

abbrev pub mark : ℕ → Cmdline → Cmdline
mark a c = record c { opts = put_opt a (record (c.opts a) { is_set = true }) c.opts }

-- What the body of the loop does with an option: the number of arguments that it takes behind the
-- option, or how the call ends.
pub data Taken : Type 0 where
  taken : ℕ → Cmdline → Taken
  -- A callback has counted `m + 1` below 0.
  back : (m : ℕ) → Cmdline → Taken
  -- The option was not counted, or was.
  invalid : ℕ → Cmdline → Taken
  faults : Taken

abbrev pub take_char : ℕ → Cmdline → List (List ℕ) → Taken
take_char a c ((x ∷ []) ∷ more) = taken 1 (mark a (set_val a (ch x) c))
take_char a c _ = invalid 0 c

-- The number is written in any case.
abbrev pub take_number : ℕ → Cmdline → Bool × ℤ → Taken
take_number a c (true, n) = taken 1 (mark a (set_val a (num n) c))
take_number a c (false, n) = invalid 0 (set_val a (num n) c)

abbrev pub take_num : ℕ → Cmdline → List (List ℕ) → Taken
unfolding util_strtoll
take_num a c [] = invalid 0 c
take_num a c (text ∷ more) = take_number a c (util_strtoll text 0)

abbrev pub take_str : ℕ → Cmdline → List (List ℕ) → Taken
take_str a c [] = invalid 0 c
take_str a c (text ∷ more) = taken 1 (mark a (set_val a (str text) c))

-- The option itself is counted before the call, and once more by the loop.
abbrev pub called : ℕ → Cmdline → Bool × ℤ × Opt → Taken
called a c (false, cnt, o) = invalid 1 (record c { opts = put_opt a o c.opts })
called a c (true, pos cnt, o) = taken (1 + cnt) (mark a (record c { opts = put_opt a o c.opts }))
called a c (true, negsuc m, o) = back m (mark a (record c { opts = put_opt a o c.opts }))

abbrev pub take_callback : Option Callback → ℕ → Cmdline → List (List ℕ) → Taken
take_callback none a c more = faults
take_callback (some fn) a c more = called a c (fn more (c.opts a))

abbrev pub take_option : OptType → OptInfo → Cmdline → List (List ℕ) → Taken
take_option opt_flag i c more = taken 0 (mark i.opt (set_val i.opt (flag true) c))
take_option opt_char i c more = take_char i.opt c more
take_option opt_num i c more = take_num i.opt c more
take_option opt_str i c more = take_str i.opt c more
take_option opt_callback i c more = take_callback i.proc_fn i.opt c more

-- The result, `*processed`, and what is left.
abbrev pub Result : Type 0
Result = Ret × ℕ × Cmdline

abbrev pub found_ret : Bool → Ret
found_ret true = ret_ok
found_ret false = ret_none

abbrev pub at_end : Names → Bool → ℕ → Cmdline → Option Bool → Result
at_end names found_opts processed c none = (ret_running, processed, c)
at_end names found_opts processed c (some false) = (ret_invalid, processed, c)
at_end names found_opts processed c (some true) =
    (found_ret found_opts, processed, check_opts names c)

-- The arguments from `*processed` on.
unfoldable pub args_from : ℕ → List (List ℕ) → List (List ℕ)
args_from zero args = args
args_from (suc n) [] = []
args_from (suc n) (x ∷ args) = args_from n args

abbrev pub has_dash : List ℕ → Bool
has_dash [] = false
has_dash (c ∷ cs) = c == b'-'

-- An argument that is no option ends the call.
abbrev pub no_option : Names → Bool → ℕ → Cmdline → Bool → Result
no_option names found_opts processed c true = (ret_unknown, processed, check_opts names c)
no_option names found_opts processed c false = (found_ret found_opts, processed, check_opts names c)

module _ (names : Names) (rounds : ℕ) (argv : List (List ℕ)) where
  unfoldable pub process_loop : ℕ → Bool → ℕ → Cmdline → Result
  unfolding get all_mandatory args_from
  process_loop zero found_opts processed c = (ret_running, processed, c)
  process_loop (suc k) found_opts processed c = elim (args_from processed argv) [
    | [] ↦ at_end names found_opts processed c (all_mandatory rounds c (get_first c.options 0))
    | cur ∷ more ↦ elim (get c.options (some cur)) [
      | none ↦ no_option names found_opts processed c (has_dash cur)
      | some i ↦ elim (take_option (c.opts (c.infos i).opt).type (c.infos i) c more) [
        | taken n c' ↦ process_loop k true (processed + n + 1) c'
        | back m c' ↦
            let rest = process_loop k true (processed + 1 - m) c' in
            if leb m (processed + 1) then rest else (ret_fault, processed, c')
        | invalid n c' ↦ (ret_invalid, processed + n, c')
        | faults ↦ (ret_fault, processed, c)
      ]
    ]
  ]

  unfoldable pub process : ℕ → ℕ → Cmdline → Result
  unfolding process_loop clear_loop
  process k processed c = elim (clear_loop rounds c (get_first c.options 0)) [
    | none ↦ (ret_running, processed, c)
    | some c' ↦ process_loop k false processed c'
  ]
