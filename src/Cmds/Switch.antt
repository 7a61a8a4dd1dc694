-- ===== src/Cmds/Switch.antt =====
-- What the command "log thread" of src/iw_cmds.c switches.
use mathlib.Core.List.{map}
use insta_works.Base.{
  ℕ, ◌+◌, ◌≡◌, refl, sym, subst, ap, ◌∙◌, Bool, true, Option, some, List, if◌then◌else◌, length,
  member,
}
use insta_works.Htable.Valid.{IsValid, nodes}
use insta_works.Htable.Walk.Visits.{items}
use insta_works.Threads.{Threads}
use insta_works.Threads.Loops.{set_log_all}
use insta_works.Threads.Owners.{set_log_all-logs}
use insta_works.Cmds.{ParseInfo, get_token}
use insta_works.Cmds.Log.{is_zero, on_off, thread_number, switch, thread_with, cmd_log_thread}

-- What a command that switches all threads returns and leaves.
pub record SwitchesAll (w : Threads) (xs : List ℕ) (on : Bool) (r : Bool × Threads) : Type 0 where
  pub returns : r.0 ≡ true
  pub logs :
      (b : ℕ) → r.1.tinfo b ≡ (if member b xs then record (w.tinfo b) { log = on } else w.tinfo b)

module _ (w : Threads) (self : Option ℕ) (xs : List ℕ) (on : Bool) (info : ParseInfo)
    (t o : List ℕ) where
  -- If the first word after "log thread" is "all", or a text that strtoll reads as 0, even one that is
  -- no number, and the second is "on" or "off", then the command returns true and switches the log of
  -- exactly the registered threads.
  pub cmd_log_thread-SwitchesAll :
      IsValid w.threads
      → items (nodes w.threads) ≡ map some xs
      → (get_token info).0 ≡ some t
      → (get_token (get_token info).1).0 ≡ some o
      → is_zero (thread_number t) ≡ true
      → on_off o ≡ some on
      → SwitchesAll w xs on (cmd_log_thread (length (nodes w.threads) + 1) w self info)
  unfolding cmd_log_thread
  cmd_log_thread-SwitchesAll v same first second zero_ on_ =
      let rounds = length (nodes w.threads) + 1 in
      let words : cmd_log_thread rounds w self info
          ≡ switch rounds w self (thread_number t) (on_off o) =
        ap (λ x. thread_with rounds w self x (get_token (get_token info).1).0) first
        ∙ ap (thread_with rounds w self (some t)) second in
      let choice : switch rounds w self (thread_number t) (on_off o)
          ≡ (true, set_log_all rounds w on) =
        ap (switch rounds w self (thread_number t)) on_ ∙ rw zero_ refl in
      subst (SwitchesAll w xs on) (sym (words ∙ choice))
        (record { returns = refl; logs = λ b. set_log_all-logs w on xs b v same })
