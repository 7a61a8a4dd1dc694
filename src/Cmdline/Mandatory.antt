-- ===== src/Cmdline/Mandatory.antt =====
-- The search of iw_cmdline_process in src/iw_cmdline.c for a mandatory option that is not set.
use insta_works.Base.{
  ℕ, zero, suc, ◌≡◌, ◌⊎◌, Bool, true, false, ◌&&◌, not, Bool-cases, Option, inl, inr, none, some,
  List, [], ◌∷◌, arith,
}
use insta_works.Htable.Walk.{get_next, collect}
use insta_works.Cmdline.{Cmdline}
use insta_works.Cmdline.Loop.{all_mandatory}

-- Of some options, every mandatory one is set, or some mandatory one is not.
unfoldable pub AllSet : Cmdline → List ℕ → Type 0
AllSet c [] = Unit
AllSet c (i ∷ is) =
    ((c.infos i).mandatory ≡ true → (c.opts (c.infos i).opt).is_set ≡ true) × AllSet c is

unfoldable pub SomeUnset : Cmdline → List ℕ → Type 0
SomeUnset c [] = ⊥
SomeUnset c (i ∷ is) =
    (((c.infos i).mandatory ≡ true) × ((c.opts (c.infos i).opt).is_set ≡ false)) ⊎ SomeUnset c is

unset_test : (m s : Bool) → m && not s ≡ false → m ≡ true → s ≡ true
unset_test m s e q = ground arith

unset_parts : (m s : Bool) → m && not s ≡ true → (m ≡ true) × (s ≡ false)
unset_parts m s e = (ground arith, ground arith)

pub all_mandatory-AllSet :
    (k : ℕ) (c : Cmdline) (r : Option ℕ × ℕ)
    → all_mandatory k c r ≡ some true
    → AllSet c (collect c.options k r)
unfolding all_mandatory AllSet collect
all_mandatory-AllSet zero c r e = absurd cc
all_mandatory-AllSet (suc k) c (none, hash) e = tt
all_mandatory-AllSet (suc k) c (some i, hash) e =
    let m = (c.infos i).mandatory in
    let s = (c.opts (c.infos i).opt).is_set in
    elim (Bool-cases (m && not s)) [
      | inl q ↦ let no : some false ≡ some true = rw (all_mandatory, q) at e in absurd cc
      | inr q ↦
          let rest : all_mandatory k c (get_next c.options hash) ≡ some true =
            rw (all_mandatory, q) at e in
          (unset_test m s q, all_mandatory-AllSet k c (get_next c.options hash) rest)
    ]

pub all_mandatory-SomeUnset :
    (k : ℕ) (c : Cmdline) (r : Option ℕ × ℕ)
    → all_mandatory k c r ≡ some false
    → SomeUnset c (collect c.options k r)
unfolding all_mandatory SomeUnset collect
all_mandatory-SomeUnset zero c r e = absurd cc
all_mandatory-SomeUnset (suc k) c (none, hash) e = absurd cc
all_mandatory-SomeUnset (suc k) c (some i, hash) e =
    let m = (c.infos i).mandatory in
    let s = (c.opts (c.infos i).opt).is_set in
    elim (Bool-cases (m && not s)) [
      | inl q ↦ inl (unset_parts m s q)
      | inr q ↦
          let rest : all_mandatory k c (get_next c.options hash) ≡ some false =
            rw (all_mandatory, q) at e in
          inr (all_mandatory-SomeUnset k c (get_next c.options hash) rest)
    ]
