-- ===== src/Cmdline/Process.antt =====
-- How iw_cmdline_process of src/iw_cmdline.c ends.
use insta_works.Base.{
  ℕ, zero, suc, ◌+◌, ◌-◌, ◌≡◌, ◌⊎◌, refl, sym, subst, Bool, true, false, Bool-cases, Option,
  Option-cases, inl, inr, none, some, List, [], ◌∷◌, leb, if◌then◌else◌,
}
use insta_works.Htable.{get}
use insta_works.Htable.Walk.{get_first, collect}
use insta_works.Cmdline.Mandatory.{AllSet, SomeUnset, all_mandatory-AllSet, all_mandatory-SomeUnset}
use insta_works.Cmdline.{Cmdline, Names, check_opts}
use insta_works.Cmdline.Loop.{
  ret_none, ret_unknown, ret_invalid, ret_ok, ret_fault, ret_running, Taken, taken, back, invalid,
  faults, Result, found_ret, at_end, has_dash, no_option, all_mandatory, args_from, take_option,
  process_loop, process, clear_loop,
}

-- All arguments were processed, and every mandatory option of the table was given.
pub record AtEnd (names : Names) (rounds : ℕ) (argv : List (List ℕ)) (processed : ℕ) (c : Cmdline)
    : Type 0 where
  before : Cmdline
  over : args_from processed argv ≡ []
  mandatory : AllSet before (collect before.options rounds (get_first before.options 0))
  left : c ≡ check_opts names before

-- The next argument is no option, and has a dash or has none.
pub record AtArgument (dash : Bool) (names : Names) (argv : List (List ℕ)) (processed : ℕ)
    (c : Cmdline) : Type 0 where
  before : Cmdline
  cur : List ℕ
  more : List (List ℕ)
  here : args_from processed argv ≡ cur ∷ more
  unknown : get before.options (some cur) ≡ none
  starts : has_dash cur ≡ dash
  left : c ≡ check_opts names before

-- The first argument, the one at `start`, is an option.
pub record WithOption (argv : List (List ℕ)) (start : ℕ) (c : Cmdline) : Type 0 where
  cur : List ℕ
  more : List (List ℕ)
  info : ℕ
  here : args_from start argv ≡ cur ∷ more
  known : get c.options (some cur) ≡ some info

-- Why a call is invalid: all arguments were processed and a mandatory option of the table was not given,
-- or an option could not take its argument, or its callback returned false.
pub data Refused (rounds : ℕ) (argv : List (List ℕ)) (c : Cmdline) : ℕ → Type 0 where
  missing :
      (p : ℕ)
      → args_from p argv ≡ []
      → SomeUnset c (collect c.options rounds (get_first c.options 0))
      → Refused rounds argv c p
  refused :
      (p i n : ℕ) (cur : List ℕ) (more : List (List ℕ)) (before : Cmdline)
      → args_from p argv ≡ cur ∷ more
      → get before.options (some cur) ≡ some i
      → take_option (before.opts (before.infos i).opt).type (before.infos i) before more
        ≡ invalid n c
      → Refused rounds argv c (p + n)

-- What each result of the call means that begins with the argument at `start` and cleared options.
unfoldable pub Stops : Names → ℕ → List (List ℕ) → (start : ℕ) → Cmdline → Result → Type 0
Stops names rounds argv start c0 (ret_ok, p, c) =
    WithOption argv start c0 × (AtEnd names rounds argv p c ⊎ AtArgument false names argv p c)
Stops names rounds argv start c0 (ret_none, p, c) =
    (p ≡ start) × (AtEnd names rounds argv p c ⊎ AtArgument false names argv p c)
Stops names rounds argv start c0 (ret_unknown, p, c) = AtArgument true names argv p c
Stops names rounds argv start c0 (ret_invalid, p, c) = Refused rounds argv c p
Stops names rounds argv start c0 (ret_fault, p, c) = Unit
Stops names rounds argv start c0 (ret_running, p, c) = Unit

module _ (names : Names) (rounds : ℕ) (argv : List (List ℕ)) where
  abbrev pub taking : Cmdline → ℕ → List (List ℕ) → Taken
  taking c i more = take_option (c.opts (c.infos i).opt).type (c.infos i) c more

  -- The rounds of the loop, by what they find.
  module _ (k : ℕ) (found_opts : Bool) (p : ℕ) (c : Cmdline) where
    loop-over :
        args_from p argv ≡ []
        → process_loop names rounds argv (suc k) found_opts p c
          ≡ at_end names found_opts p c (all_mandatory rounds c (get_first c.options 0))
    unfolding process_loop
    loop-over e = rw (process_loop, e) refl

    module _ (cur : List ℕ) (more : List (List ℕ)) (here : args_from p argv ≡ cur ∷ more) where
      loop-unknown :
          get c.options (some cur) ≡ none
          → process_loop names rounds argv (suc k) found_opts p c
            ≡ no_option names found_opts p c (has_dash cur)
      unfolding process_loop
      loop-unknown e = rw (process_loop, here, e) refl

      module _ (i : ℕ) (known : get c.options (some cur) ≡ some i) where
        loop-taken :
            (n : ℕ) (c' : Cmdline)
            → taking c i more ≡ taken n c'
            → process_loop names rounds argv (suc k) found_opts p c
              ≡ process_loop names rounds argv k true (p + n + 1) c'
        unfolding process_loop
        loop-taken n c' e = rw (process_loop, here, known, e) refl

        loop-back :
            (m : ℕ) (c' : Cmdline)
            → taking c i more ≡ back m c'
            → process_loop names rounds argv (suc k) found_opts p c ≡ (
                if leb m (p + 1)
                then process_loop names rounds argv k true (p + 1 - m) c'
                else (ret_fault, p, c'))
        unfolding process_loop
        loop-back m c' e = rw (process_loop, here, known, e) refl

        loop-invalid :
            (n : ℕ) (c' : Cmdline)
            → taking c i more ≡ invalid n c'
            → process_loop names rounds argv (suc k) found_opts p c ≡ (ret_invalid, p + n, c')
        unfolding process_loop
        loop-invalid n c' e = rw (process_loop, here, known, e) refl

        loop-faults :
            taking c i more ≡ faults
            → process_loop names rounds argv (suc k) found_opts p c ≡ (ret_fault, p, c)
        unfolding process_loop
        loop-faults e = rw (process_loop, here, known, e) refl

  module _ (start : ℕ) (c0 : Cmdline) where
    -- What the loop knows: an option was found, or nothing has been processed yet.
    unfoldable Begun : Bool → ℕ → Cmdline → Type 0
    Begun true p c = WithOption argv start c0
    Begun false p c = (p ≡ start) × (c ≡ c0)

    abbrev Ends : Result → Type 0
    Ends = Stops names rounds argv start c0

    found-Stops :
        (found_opts : Bool) (p : ℕ) (c c' : Cmdline)
        → Begun found_opts p c
        → AtEnd names rounds argv p c' ⊎ AtArgument false names argv p c'
        → Ends (found_ret found_opts, p, c')
    unfolding Stops Begun
    found-Stops true p c c' b s = (b, s)
    found-Stops false p c c' b s = (b.0, s)

    at_end-Stops :
        (found_opts : Bool) (p : ℕ) (c : Cmdline) (all : Option Bool)
        → Begun found_opts p c
        → args_from p argv ≡ []
        → all_mandatory rounds c (get_first c.options 0) ≡ all
        → Ends (at_end names found_opts p c all)
    unfolding Stops
    at_end-Stops found_opts p c none b over m = tt
    at_end-Stops found_opts p c (some false) b over m =
        missing p over (all_mandatory-SomeUnset rounds c (get_first c.options 0) m)
    at_end-Stops found_opts p c (some true) b over m =
        found-Stops found_opts p c (check_opts names c) b (
          inl (record {
            before = c;
            over = over;
            mandatory = all_mandatory-AllSet rounds c (get_first c.options 0) m;
            left = refl;
          }))

    no_option-Stops :
        (found_opts : Bool) (p : ℕ) (c : Cmdline) (cur : List ℕ) (more : List (List ℕ))
        (dash : Bool)
        → Begun found_opts p c
        → args_from p argv ≡ cur ∷ more
        → get c.options (some cur) ≡ none
        → has_dash cur ≡ dash
        → Ends (no_option names found_opts p c dash)
    unfolding Stops
    no_option-Stops found_opts p c cur more true b here unknown starts = record {
      before = c;
      cur = cur;
      more = more;
      here = here;
      unknown = unknown;
      starts = starts;
      left = refl;
    }
    no_option-Stops found_opts p c cur more false b here unknown starts =
        found-Stops found_opts p c (check_opts names c) b (
          inr (record {
            before = c;
            cur = cur;
            more = more;
            here = here;
            unknown = unknown;
            starts = starts;
            left = refl;
          }))

    -- An option that is found begins the call, or another one did.
    begun :
        (found_opts : Bool) (p : ℕ) (c : Cmdline) (cur : List ℕ) (more : List (List ℕ)) (i : ℕ)
        → Begun found_opts p c
        → args_from p argv ≡ cur ∷ more
        → get c.options (some cur) ≡ some i
        → WithOption argv start c0
    unfolding Begun
    begun true p c cur more i b here known = b
    begun false p c cur more i b here known = record {
      cur = cur;
      more = more;
      info = i;
      here = rw (← b.0) here;
      known = rw (← b.1) known;
    }

    -- One round, before `k` others.
    module _ (k : ℕ) (found_opts : Bool) (p : ℕ) (c : Cmdline) (b : Begun found_opts p c)
        (again : (q : ℕ) (c' : Cmdline)
          → WithOption argv start c0
          → Ends (process_loop names rounds argv k true q c')) where
      at_taken :
          (cur : List ℕ) (more : List (List ℕ))
          → args_from p argv ≡ cur ∷ more
          → (i : ℕ) → get c.options (some cur) ≡ some i
          → (t : Taken) → taking c i more ≡ t
          → Ends (process_loop names rounds argv (suc k) found_opts p c)
      unfolding Stops
      at_taken cur more here i known (taken n c') e =
          subst Ends (sym (loop-taken k found_opts p c cur more here i known n c' e))
            (again (p + n + 1) c' (begun found_opts p c cur more i b here known))
      at_taken cur more here i known (back m c') e =
          subst Ends (sym (loop-back k found_opts p c cur more here i known m c' e))
            (elim (Bool-cases (leb m (p + 1))) [
              | inl q ↦ rw q (again (p + 1 - m) c' (begun found_opts p c cur more i b here known))
              | inr q ↦ rw q tt
            ])
      at_taken cur more here i known (invalid n c') e =
          subst Ends (sym (loop-invalid k found_opts p c cur more here i known n c' e))
            (refused p i n cur more c here known e)
      at_taken cur more here i known faults e =
          subst Ends (sym (loop-faults k found_opts p c cur more here i known e)) tt

      at_args :
          (args : List (List ℕ))
          → args_from p argv ≡ args
          → Ends (process_loop names rounds argv (suc k) found_opts p c)
      at_args [] e =
          subst Ends (sym (loop-over k found_opts p c e)) (at_end-Stops found_opts p c _ b e refl)
      at_args (cur ∷ more) here = elim (Option-cases (get c.options (some cur))) [
        | inl e ↦
            subst Ends (sym (loop-unknown k found_opts p c cur more here e))
              (no_option-Stops found_opts p c cur more (has_dash cur) b here e refl)
        | inr (i, known) ↦ at_taken cur more here i known (taking c i more) refl
      ]

    loop-Stops :
        (k : ℕ) (found_opts : Bool) (p : ℕ) (c : Cmdline)
        → Begun found_opts p c
        → Ends (process_loop names rounds argv k found_opts p c)
    unfolding process_loop Stops Begun
    loop-Stops zero found_opts p c b = tt
    loop-Stops (suc k) found_opts p c b =
        at_args k found_opts p c b (λ q c' w. loop-Stops k true q c' w) (args_from p argv) refl

  -- How iw_cmdline_process ends that begins at an argument, when the loop over the options has cleared
  -- them. OK only if that argument is an option, NONE only if it has processed nothing; both only after
  -- all arguments, every mandatory option that the walk over the table visits being set, or at an
  -- argument that is no option and has no dash, where mandatory options are not looked at. UNKNOWN only
  -- at an argument that is no option and has a dash. In these cases the settings of the predefined options
  -- were made last. INVALID only if a mandatory option is not set after all arguments, or an option
  -- refused its arguments.
  pub process-Stops :
      (k processed : ℕ) (c c0 : Cmdline)
      → clear_loop rounds c (get_first c.options 0) ≡ some c0
      → Stops names rounds argv processed c0 (process names rounds argv k processed c)
  unfolding process Begun
  process-Stops k processed c c0 e =
      rw (process, e) (loop-Stops processed c0 k false processed c0 (refl, refl))
