-- ===== src/ValStore/Keep.antt =====
-- iw_val_store_set keeps a controlled store within its criteria.
use mathlib.Core.Bool.{true≢false}
use insta_works.Base.{
  ℕ, ◌≡◌, ◌≢◌, ◌⊎◌, refl, sym, ◌∙◌, ap, Bool, true, false, Bool-cases, inl, inr, Option, none, some,
  List, [], arith, ◌==◌, ==_iff, if◌then◌else◌,
}
use insta_works.Hash.{hash_data}
use insta_works.Htable.{get, replace}
use insta_works.Htable.Writes.{get-lookup}
use insta_works.ValStore.{
  ValStore, Val, Criteria, Platform, ValRet, ret_ok, failed_to_create, is_ok, check, put, set_val,
  check_regexp, text_of, no_such_value, incorrect_type, failed_callback, failed_regexp,
}
use insta_works.ValStore.Checks.{check-Admits}
use insta_works.ValStore.Admit.{
  IsStore, value_at, criteria_at, IsAdmitted, Sets, get_val-value_at, put-Sets,
}

module _ {Address Regex : Type 0} (p : Platform Address Regex) where
  -- The verdict of iw_val_store_set before it writes.
  verdict : ValStore Address Regex → List ℕ → Val Address → ValRet
  verdict store name value =
      if store.controlled then check p (get store.names (some name)) name value else ret_ok

  set_val-ok :
      (mem : Bool) (store : ValStore Address Regex) (name : List ℕ) (value : Val Address)
      → is_ok (verdict store name value) ≡ true
      → set_val p mem store name value ≡ put p mem store name value
  unfolding set_val verdict
  set_val-ok mem store name value e = rw (set_val, e) refl

  set_val-no :
      (mem : Bool) (store : ValStore Address Regex) (name : List ℕ) (value : Val Address)
      → is_ok (verdict store name value) ≡ false
      → set_val p mem store name value
        ≡ record { ret = verdict store name value; store = store; freed = [] }
  unfolding set_val verdict
  set_val-no mem store name value e = rw (set_val, e) refl

  check_regexp-refuses :
      (r : Option Regex) (text : Option (List ℕ)) → check_regexp p r text ≢ failed_to_create
  unfolding check_regexp
  check_regexp-refuses none text e = cc
  check_regexp-refuses (some r) none e = cc
  check_regexp-refuses (some r) (some text) e = ground arith

  check-refuses :
      (crit : Option (Criteria Address Regex)) (name : List ℕ) (value : Val Address)
      → check p crit name value ≢ failed_to_create
  unfolding check
  check-refuses none name value e = cc
  check-refuses (some crit) name value e =
      ground (arith, check_regexp-refuses crit.regexp (text_of p value.v))

  refuses :
      (store : ValStore Address Regex) (name : List ℕ) (value : Val Address)
      → verdict store name value ≢ failed_to_create
  unfolding verdict
  refuses store name value e = elim (Bool-cases store.controlled) [
    | inl c ↦ check-refuses (get store.names (some name)) name value (rw c at e)
    | inr c ↦ let done : ret_ok ≡ failed_to_create = rw c at e in absurd cc
  ]

  -- iw_val_store_set on a store whose tables are valid and hash by iw_hash_data. It keeps them so, and
  -- keeps the criteria. Where it returns IW_VAL_RET_OK, the name reads as the value and the old value
  -- was destroyed; where it returns IW_VAL_RET_FAILED_TO_CREATE, the name has no value; with any other
  -- result the store is as before. The value of no other hash changes.
  pub set_val-Sets :
      (mem : Bool) (store : ValStore Address Regex) (name : List ℕ) (value : Val Address)
      → IsStore store
      → Sets p store name value (set_val p mem store name value)
  set_val-Sets mem store name value v = elim (Bool-cases (is_ok (verdict store name value))) [
    | inl e ↦ rw (set_val-ok mem store name value e) (put-Sets p mem store name value v)
    | inr e ↦ rw (set_val-no mem store name value e) (record {
      valid = v;
      names = refl;
      controlled = refl;
      written = λ q. absurd (true≢false (ap is_ok (sym q) ∙ e));
      refused = λ a b. (refl, refl);
      others = λ h q. refl;
      lost = λ q. absurd (refuses store name value q);
    })
  ]

  criteria-get :
      (store : ValStore Address Regex) (name : List ℕ)
      → IsStore store
      → get store.names (some name) ≡ criteria_at store (hash_data (some name))
  criteria-get store name v =
      get-lookup store.names (some name) ∙ ap (criteria_at store) (v.names_fn (some name))

  ok_ret : (r : ValRet) → is_ok r ≡ true → r ≡ ret_ok
  ok_ret ret_ok e = refl
  ok_ret failed_to_create e = absurd cc
  ok_ret no_such_value e = absurd cc
  ok_ret incorrect_type e = absurd cc
  ok_ret failed_callback e = absurd cc
  ok_ret failed_regexp e = absurd cc

  put-ret :
      (mem : Bool) (store : ValStore Address Regex) (name : List ℕ) (value : Val Address)
      → ((put p mem store name value).ret ≡ ret_ok)
        ⊎ ((put p mem store name value).ret ≡ failed_to_create)
  unfolding put
  put-ret mem store name value =
      elim (Bool-cases (replace mem store.table (some name) (some value) true).0) [
        | inl e ↦ inl (rw (put, e) refl)
        | inr e ↦ inr (rw (put, e) refl)
      ]

  -- Only the new value can stand under the name that was written.
  put-value_at :
      (mem : Bool) (store : ValStore Address Regex) (name : List ℕ) (value u : Val Address)
      → IsStore store
      → value_at (put p mem store name value).store (hash_data (some name)) ≡ some u
      → u ≡ value
  put-value_at mem store name value u v there =
      let w = put-Sets p mem store name value v in
      elim (put-ret mem store name value) [
        | inl e ↦
            let new : some value ≡ some u =
              sym (w.written e).0
              ∙ get_val-value_at p (put p mem store name value).store name w.valid
              ∙ there in
            cc
        | inr e ↦ let gone : none ≡ some u = sym (w.lost e) ∙ there in absurd cc
      ]

  verdict-check :
      (store : ValStore Address Regex) (name : List ℕ) (value : Val Address)
      → IsStore store
      → store.controlled ≡ true
      → is_ok (verdict store name value) ≡ true
      → check p (criteria_at store (hash_data (some name))) name value ≡ ret_ok
  unfolding verdict
  verdict-check store name value v c e =
      let same : verdict store name value ≡ check p (get store.names (some name)) name value =
        rw (verdict, c) refl in
      rw (← criteria-get store name v) (sym same ∙ ok_ret _ e)

  -- iw_val_store_set keeps a controlled store within its criteria: a value that it leaves in the store
  -- has the type of the criteria of a name with its hash, is accepted by their callback under that
  -- name, and its text matches their regular expression, where there is one.
  pub set_val-IsAdmitted :
      (mem : Bool) (store : ValStore Address Regex) (name : List ℕ) (value : Val Address)
      → IsStore store
      → IsAdmitted p store
      → IsAdmitted p (set_val p mem store name value).store
  unfolding IsAdmitted
  set_val-IsAdmitted mem store name value v a =
      elim (Bool-cases (is_ok (verdict store name value))) [
        | inr e ↦ rw (set_val-no mem store name value e) a
        | inl e ↦
            let w = put-Sets p mem store name value v in
            rw (set_val-ok mem store name value e) (λ c h u there.
              elim (Bool-cases (hash_data (some name) == h)) [
                | inr q ↦
                    let (n, same, passed) =
                      a (sym w.controlled ∙ c) h u (sym (w.others h q) ∙ there) in
                    (n, same, rw w.names passed)
                | inl q ↦
                    let same : hash_data (some name) ≡ h = (==_iff (hash_data (some name)) h).0 q in
                    let new : u ≡ value = put-value_at mem store name value u v (rw same there) in
                    let passed = verdict-check store name value v (sym w.controlled ∙ c) e in
                    (name, same, rw (w.names, ← same, new) (check-Admits p _ name value passed))
              ])
      ]
