-- ===== src/Log/Off.antt =====
-- What iw_log_set_level of src/iw_log.c leaves when it turns the log off.
use insta_works.Base.{
  ℕ, ◌≡◌, refl, subst, ap, ◌∙◌, Bool, true, false, ◌||◌, not, Option, none, some, List, arith, ◌==◌,
  if◌then◌else◌, same_text,
}
use insta_works.Log.{
  Log, live, dangling, Stream, stdout, file, text_stdout, fclose, free_dev, log_exit, dev_change,
  drop_dev, drop_old, put_level, change_dev, set_level,
}
use insta_works.Log.Device.{Streams, IsOpen}

-- What a call that turns the logs off leaves: a freed pointer, which the next calls use.
pub record LeavesFreed (opens : List ℕ → Bool) (copied : Bool) (r : Option Log) : Type 0 where
  pub left : Log
  pub returns : r ≡ some left
  pub freed : left.dev ≡ dangling
  pub next_faults : (dev : List ℕ) (level : ℕ) → set_level opens copied left (some dev) level ≡ none
  pub exit_faults : log_exit left ≡ none

leaves :
    (opens : List ℕ → Bool) (copied : Bool) (l : Log) (r : Option Log)
    → l.dev ≡ dangling
    → r ≡ some l
    → LeavesFreed opens copied r
unfolding set_level log_exit dev_change free_dev
leaves opens copied l r e returns = record {
  left = l;
  returns = returns;
  freed = e;
  next_faults = λ dev level. rw (set_level, e) refl;
  exit_faults = rw (log_exit, e) refl;
}

change_known :
    (dev : Option (List ℕ)) (d : List ℕ) → (c : Bool) × (dev_change dev (live d) ≡ some c)
unfolding dev_change
change_known none d = (true, refl)
change_known (some dev) d = (not (same_text dev d), refl)

forced : {x : Option Log} (y : Option Log) (changed : Bool) → (if changed || true then x else y) ≡ x
forced y true = refl
forced y false = refl

module _ (opens : List ℕ → Bool) (copied : Bool) (l : Log) (s : Stream) (is : IsOpen l)
    (on : l.fd ≡ some s) where
  string_of : (d : List ℕ) × (l.dev ≡ live d)
  unfolding Streams
  string_of = go s (subst (λ fd. Streams l.next_file l.dev fd l.files) on is)
    where
      go :
          (s : Stream)
          → Streams l.next_file l.dev (some s) l.files
          → (d : List ℕ) × (l.dev ≡ live d)
      go stdout st = (text_stdout, st.0)
      go (file n) st = (st.0, st.1)

  dropped :
      drop_old l.fd l
      ≡ some (record l {
        fd = none;
        dev = dangling;
        files = if same_text string_of.0 text_stdout then l.files else fclose s l.files;
      })
  dropped = ap (λ fd. drop_old fd l) on ∙ ap (λ dev. drop_dev s dev l) string_of.1

  change_zero :
      (dev : Option (List ℕ)) → change_dev opens copied l dev 0 ≡ put_level 0 (drop_old l.fd l)
  unfolding change_dev
  change_zero none = refl
  change_zero (some dev) = refl

  -- Turning off a log that is on leaves s_dev pointing to freed memory: every later
  -- iw_log_set_level with a device reads it, and iw_log_exit frees it once more.
  pub set_level_off :
      (dev : Option (List ℕ))
      → (l.level == 0) ≡ false
      → LeavesFreed opens copied (set_level opens copied l dev 0)
  unfolding set_level change_dev
  set_level_off dev not_zero =
      let d = string_of in
      let apart : (0 == l.level) ≡ false = ground arith in
      let l' = record l {
        fd = none;
        dev = dangling;
        files = if same_text d.0 text_stdout then l.files else fclose s l.files;
        level = 0;
      } in
      leaves opens copied l' (set_level opens copied l dev 0) refl (
        rw (set_level, ap (dev_change dev) d.1 ∙ (change_known dev d.0).1, apart)
          (forced _ (change_known dev d.0).0 ∙ change_zero dev ∙ ap (put_level 0) dropped))
