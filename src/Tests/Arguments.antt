-- ===== src/Tests/Arguments.antt =====
-- The command line of src/iw_cmdline.c with one option.
use insta_works.Base.{ℕ, ◌+◌, ◌≡◌, refl, true, false, Option, none, some, List, [], ◌∷◌}
use insta_works.Htable.{Htable}
use insta_works.Hash.{hash_data, hash_loop, hash_step}
use insta_works.Htable.Walk.{get_first, get_next}
use insta_works.Cmdline.{Cmdline, Names, opt_flag, cleared, cmdline_init}
use insta_works.Cmdline.Loop.{process, clear_loop}
use insta_works.Cmdline.Process.{Stops, process-Stops}

abbrev blank : Htable ℕ
blank = record {
  fn = λ k. 0;
  size = 0;
  iw_mem_alloc = false;
  num_elems = 0;
  collisions = 0;
  table = [];
}

abbrev bare : Cmdline
bare = record {
  options = blank;
  infos = λ i. record { option = []; mandatory = false; opt = 0; proc_fn = none };
  opts = λ a. record { type = opt_flag; is_set = false; val = cleared };
  foreground = 1;
  daemon = 2;
  loglevel = 3;
  settings = [];
  freed = [];
}

-- "-f" runs in the foreground.
abbrev started : Cmdline
started =
    cmdline_init true (λ i. some (10 + i)) (λ i. true)
      (record { foreground = some (102 ∷ []); daemonize = none; loglevel = none }) bare

abbrev names : Names
names = record { foreground = 97 ∷ []; daemonize = 98 ∷ []; loglevel = 99 ∷ [] }

abbrev args : List (List ℕ)
args = (45 ∷ 102 ∷ []) ∷ (120 ∷ []) ∷ []

abbrev given : Option Cmdline → Cmdline
given none = started
given (some c) = c

abbrev ready : Cmdline
unfolding clear_loop
ready = given (clear_loop 4 started (get_first started.options 0))

clears : clear_loop 4 started (get_first started.options 0) ≡ some ready
unfolding clear_loop get_first get_next cmdline_init hash_data hash_loop hash_step
clears = refl

process-Stops_example : Stops names 4 args 0 ready (process names 4 args 3 0 started)
process-Stops_example = process-Stops names 4 args 3 0 started ready clears
