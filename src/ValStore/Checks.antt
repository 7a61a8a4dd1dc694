-- ===== src/ValStore/Checks.antt =====
-- The checks of iw_val_store_set against what the criteria mean.
use insta_works.Base.{◌≡◌, refl, true, Bool-cases, inl, inr, Option, none, some, List, ℕ}
use insta_works.ValStore.{
  Val, Payload, ValType, type_none, type_number, type_string, type_address, unset, number, string,
  address, type_of, same_type, Criteria, Platform, ret_ok, incorrect_type, failed_callback,
  failed_regexp, text_of, check_regexp, calls, check,
}
use insta_works.ValStore.Admit.{
  HasType, of_none, of_number, of_string, of_address, Shows, shows_number, shows_string,
  shows_address, Admits,
}

module _ {Address Regex : Type 0} (p : Platform Address Regex) where
  type-HasType :
      (t : ValType) (v : Payload Address) → same_type t (type_of v) ≡ true → HasType p t v
  type-HasType type_none unset e = of_none
  type-HasType type_none (number n) e = absurd cc
  type-HasType type_none (string s) e = absurd cc
  type-HasType type_none (address a) e = absurd cc
  type-HasType type_number unset e = absurd cc
  type-HasType type_number (number n) e = of_number n
  type-HasType type_number (string s) e = absurd cc
  type-HasType type_number (address a) e = absurd cc
  type-HasType type_string unset e = absurd cc
  type-HasType type_string (number n) e = absurd cc
  type-HasType type_string (string s) e = of_string s
  type-HasType type_string (address a) e = absurd cc
  type-HasType type_address unset e = absurd cc
  type-HasType type_address (number n) e = absurd cc
  type-HasType type_address (string s) e = absurd cc
  type-HasType type_address (address a) e = of_address a

  text-shown : (v : Payload Address) (text : List ℕ) → Shows p v text → text_of p v ≡ some text
  text-shown v text (shows_number n) = refl
  text-shown v text (shows_string s) = refl
  text-shown v text (shows_address a) = refl

  matches :
      (r : Regex) (text : List ℕ)
      → check_regexp p (some r) (some text) ≡ ret_ok
      → p.regexec r text ≡ true
  unfolding check_regexp
  matches r text e = elim (Bool-cases (p.regexec r text)) [
    | inl q ↦ q
    | inr q ↦ let no : failed_regexp ≡ ret_ok = rw q at e in absurd cc
  ]

  -- The parts of the checks, of which each may refuse.
  module _ (crit : Criteria Address Regex) (name : List ℕ) (value : Val Address)
      (e : check p (some crit) name value ≡ ret_ok) where
    type_ok : same_type crit.type (type_of value.v) ≡ true
    unfolding check
    type_ok = elim (Bool-cases (same_type crit.type (type_of value.v))) [
      | inl q ↦ q
      | inr q ↦ let no : incorrect_type ≡ ret_ok = rw q at e in absurd cc
    ]

    call_ok : calls p crit.fn name value ≡ true
    unfolding check
    call_ok = elim (Bool-cases (calls p crit.fn name value)) [
      | inl q ↦ q
      | inr q ↦ let no : failed_callback ≡ ret_ok = rw (type_ok, q) at e in absurd cc
    ]

    regexp_ok : check_regexp p crit.regexp (text_of p value.v) ≡ ret_ok
    unfolding check
    regexp_ok = rw (type_ok, call_ok) at e

    checked : Admits p (some crit) name value
    checked = record {
      criteria = crit;
      stands = refl;
      type = type-HasType crit.type value.v type_ok;
      callback = λ fn q. rw q at call_ok;
      regexp =
          λ r text q shows. matches r text (rw (q, text-shown value.v text shows) at regexp_ok);
    }

  pub check-Admits :
      (crit : Option (Criteria Address Regex)) (name : List ℕ) (value : Val Address)
      → check p crit name value ≡ ret_ok
      → Admits p crit name value
  unfolding check
  check-Admits none name value e = absurd cc
  check-Admits (some crit) name value e = checked crit name value e
