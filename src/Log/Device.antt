-- ===== src/Log/Device.antt =====
-- The log device of src/iw_log.c: which streams are open, and what is left of a device that is closed.
use insta_works.Base.{
  ℕ, suc, ◌≤◌, ◌<◌, ◌≡◌, ◌⊎◌, refl, sym, subst, ap, ◌∙◌, Bool, true, false, ◌&&◌, ◌||◌, not,
  Bool-cases, inl, inr, Option, none, some, List, [], ◌∷◌, arith, ◌==◌, ==_refl, if◌then◌else◌,
  same_text, same_text_iff,
}
use insta_works.Log.{
  Log, Dev, live, dangling, Stream, stdout, file, text_stdout, without_file, dev_change, opened,
  drop_dev, drop_old, put_level, put_dev, change_to, change_dev, set_level,
}

-- The streams of a log: where there is one, its device is a string, and the standard output is the
-- stream of its own name; the open files are this stream's.
unfoldable pub Streams : (next_file : ℕ) → Dev → Option Stream → List ℕ → Type 0
Streams next_file dev none files = files ≡ []
Streams next_file dev (some stdout) files = (dev ≡ live text_stdout) × (files ≡ [])
Streams next_file dev (some (file n)) files =
    (d : List ℕ) × (dev ≡ live d)
    × (same_text d text_stdout ≡ false)
    × (files ≡ n ∷ [])
    × (n < next_file)

abbrev pub IsOpen : Log → Type 0
IsOpen l = Streams l.next_file l.dev l.fd l.files

-- A log with the file that has been opened for a new device, if one has.
abbrev with_new : Option ℕ → List ℕ → List ℕ
with_new none files = files
with_new (some m) files = m ∷ files

unfoldable Fresh : ℕ → Option ℕ → Type 0
Fresh next_file none = Unit
Fresh next_file (some m) = next_file ≤ m

-- The old stream is closed and the pointer is freed; what is new stays open.
record Drops (l : Log) (fd : Option Stream) (new : Option ℕ) (l' : Log) : Type 0 where
  drops : drop_old fd l ≡ some l'
  fd_none : l'.fd ≡ none
  files : l'.files ≡ with_new new []
  level : l'.level ≡ l.level
  levels : l'.levels ≡ l.levels
  next_file : l'.next_file ≡ l.next_file

without_old :
    (n : ℕ) (new : Option ℕ) (k : ℕ)
    → n < k
    → Fresh k new
    → without_file n (with_new new (n ∷ [])) ≡ with_new new []
unfolding Fresh
without_old n none k lt fresh = rw (==_refl n) refl
without_old n (some m) k lt fresh =
    let other : (n == m) ≡ false = ground arith in rw (other, ==_refl n) refl

drop_old-Drops :
    (l : Log) (fd : Option Stream) (old : List ℕ) (new : Option ℕ) (k : ℕ)
    → l.fd ≡ fd
    → Streams k l.dev fd old
    → l.files ≡ with_new new old
    → Fresh k new
    → (l' : Log) × Drops l fd new l'
unfolding Streams
drop_old-Drops l none old new k same s files fresh = (
  l,
  record {
    drops = refl;
    fd_none = same;
    files = files ∙ ap (with_new new) s;
    level = refl;
    levels = refl;
    next_file = refl;
  },
)
drop_old-Drops l (some stdout) old new k same s files fresh = (
  record l { fd = none; dev = dangling },
  record {
    drops = ap (λ d. drop_dev stdout d l) s.0;
    fd_none = refl;
    files = files ∙ ap (with_new new) s.1;
    level = refl;
    levels = refl;
    next_file = refl;
  },
)
drop_old-Drops l (some (file n)) old new k same s files fresh =
    let kept = files ∙ ap (with_new new) s.3 in
    let left : without_file n l.files ≡ with_new new [] =
      ap (without_file n) kept ∙ without_old n new k s.4 fresh in
    let l' = record l { fd = none; dev = dangling; files = without_file n l.files } in
    let cut : Bool → Option Log = λ b. some (record l {
      fd = none;
      dev = dangling;
      files = if b then l.files else without_file n l.files;
    }) in
    (
      l',
      record {
        drops = ap (λ d. drop_dev (file n) d l) s.1 ∙ ap cut s.2;
        fd_none = refl;
        files = left;
        level = refl;
        levels = refl;
        next_file = refl;
      },
    )

-- What a call that sets the level leaves: the level is the new one or nothing has changed, the open
-- files are those of the stream, and no description is touched.
pub record SetsLevel (l : Log) (level : ℕ) (r : Option Log) : Type 0 where
  pub left : Log
  pub returns : r ≡ some left
  pub opens : IsOpen left
  pub sets : (left.level ≡ level) ⊎ (left ≡ l)
  pub kept : left.levels ≡ l.levels

closes : (l : Log) (level : ℕ) → IsOpen l → SetsLevel l level (put_level level (drop_old l.fd l))
unfolding Streams Fresh
closes l level is =
    let d = drop_old-Drops l l.fd l.files none l.next_file refl is refl tt in
    let e = d.1 in
    record {
      left = record d.0 { level = level };
      returns = ap (put_level level) e.drops;
      opens = subst (λ fd. Streams d.0.next_file d.0.dev fd d.0.files) (sym e.fd_none) e.files;
      sets = inl refl;
      kept = e.levels;
    }

module _ (l : Log) (dev : List ℕ) (level : ℕ) (is : IsOpen l) where
  to_stdout :
      same_text dev text_stdout ≡ true
      → SetsLevel l level (change_to true dev level l (some (stdout, l)))
  unfolding Streams Fresh
  to_stdout same =
      let d = drop_old-Drops l l.fd l.files none l.next_file refl is refl tt in
      let e = d.1 in
      record {
        left = record d.0 { dev = live dev; fd = some stdout; level = level };
        returns = ap (λ o. put_level level (put_dev true dev stdout o)) e.drops;
        opens = (ap live (same_text_iff dev text_stdout same), e.files);
        sets = inl refl;
        kept = e.levels;
      }

  abbrev with_file : Log
  with_file = record l { files = l.next_file ∷ l.files; next_file = suc l.next_file }

  to_file :
      same_text dev text_stdout ≡ false
      → SetsLevel l level (change_to true dev level l (some (file l.next_file, with_file)))
  unfolding Streams Fresh
  to_file other =
      let d =
        drop_old-Drops with_file l.fd l.files (some l.next_file) l.next_file refl is refl
          (omega arith) in
      let e = d.1 in
      record {
        left = record d.0 { dev = live dev; fd = some (file l.next_file); level = level };
        returns = ap (λ o. put_level level (put_dev true dev (file l.next_file) o)) e.drops;
        opens = (dev, refl, other, e.files, omega (arith, e.next_file));
        sets = inl refl;
        kept = e.levels;
      }

  stays : SetsLevel l level (some l)
  stays = record { left = l; returns = refl; opens = is; sets = inr refl; kept = refl }

  changes :
      (opens : List ℕ → Bool) → SetsLevel l level (change_to true dev level l (opened opens dev l))
  changes opens = elim (Bool-cases (same_text dev text_stdout)) [
    | inl same ↦
        subst
          (λ b. SetsLevel l level (
            change_to true dev level l (
              if b
              then some (stdout, l)
              else if opens dev
              then some (file l.next_file, with_file)
              else none)))
          (sym same) (to_stdout same)
    | inr other ↦
        subst
          (λ b. SetsLevel l level (
            change_to true dev level l (
              if b
              then some (stdout, l)
              else if opens dev
              then some (file l.next_file, with_file)
              else none)))
          (sym other) (file_or_not (opens dev) other)
  ]
    where
      file_or_not :
          (b : Bool)
          → same_text dev text_stdout ≡ false
          → SetsLevel l level
              (change_to true dev level l (if b then some (file l.next_file, with_file) else none))
      file_or_not true other = to_file other
      file_or_not false other = stays

module _ (opens : List ℕ → Bool) (l : Log) (level : ℕ) (is : IsOpen l) where
  change_dev-SetsLevel :
      (dev : Option (List ℕ)) → SetsLevel l level (change_dev opens true l dev level)
  unfolding change_dev
  change_dev-SetsLevel none = closes l level is
  change_dev-SetsLevel (some dev) = by_level (level == 0)
    where
      by_level :
          (b : Bool)
          → SetsLevel l level (
              if b
              then put_level level (drop_old l.fd l)
              else change_to true dev level l (opened opens dev l))
      by_level true = closes l level is
      by_level false = changes l dev level is opens

  decided :
      (changed unchanged zero_level : Bool) (dev : Option (List ℕ))
      → SetsLevel l level (
          if unchanged
          then some l
          else if changed || zero_level
          then change_dev opens true l dev level
          else some (record l { level = level }))
  decided changed true zero_level dev = stays l [] level is
  decided true false zero_level dev = change_dev-SetsLevel dev
  decided false false true dev = change_dev-SetsLevel dev
  decided false false false dev = record {
    left = record l { level = level };
    returns = refl;
    opens = is;
    sets = inl refl;
    kept = refl;
  }

  -- If iw_log_set_level does not read a freed device name, and strdup has memory, it returns: the
  -- level is the new one or nothing has changed, exactly the stream in use is open, so that no file
  -- is leaked, and the descriptions are as they were.
  pub set_level-SetsLevel :
      (dev : Option (List ℕ)) (changed : Bool)
      → dev_change dev l.dev ≡ some changed
      → SetsLevel l level (set_level opens true l dev level)
  unfolding set_level
  set_level-SetsLevel dev changed e =
      rw (set_level, e) (decided changed ((level == l.level) && not changed) (level == 0) dev)
