-- ===== src/ValStore/Puts.antt =====
-- The calls that make a value and set it, against iw_val_store_set.
use insta_works.Base.{
  ℕ, ◌≡◌, refl, Bool, true, false, ◌&&◌, not, Bool-cases, Option-cases, inl, inr, Option, none,
  some, List, ◌==◌, if◌then◌else◌,
}
use insta_works.Hash.{hash_data}
use insta_works.Htable.Writes.{get-lookup}
use insta_works.ValStore.{
  ValStore, Val, Payload, Criteria, Setting, Platform, is_ok, or_destroy, set_val, get_persist,
  unset, number, string, address, ret_ok, get_val,
}
use insta_works.Base.Int.{ℤ}
use insta_works.Util.{util_strtoll}
use insta_works.ValStore.Typed.{
  set_new, to_int, set_number, set_string, set_address, set_parsed, set_existing_as,
  set_existing_value,
}
use insta_works.ValStore.Admit.{IsStore, IsAdmitted, value_at, criteria_at}
use insta_works.ValStore.Keep.{set_val-Sets, set_val-IsAdmitted}

module _ {Address Regex : Type 0} where
  -- Whether the criteria that stand for a hash are persistent.
  abbrev pub is_persistent : Option (Criteria Address Regex) → Bool
  is_persistent none = false
  is_persistent (some crit) = crit.persist

  pub get_persist-criteria_at :
      (store : ValStore Address Regex) (name : List ℕ)
      → IsStore store
      → get_persist store name ≡ is_persistent (criteria_at store (hash_data (some name)))
  unfolding get_persist
  get_persist-criteria_at store name v =
      rw (get_persist, get-lookup store.names (some name), v.names_fn (some name)) refl

module _ {Address Regex : Type 0} (p : Platform Address Regex) where
  -- `store'` has the criteria of `store`, and its values but for one name; where that is within its
  -- criteria, so is this.
  pub record Puts (store : ValStore Address Regex) (name : List ℕ) (store' : ValStore Address Regex)
      : Type 0 where
    pub valid : IsStore store'
    pub admitted : IsAdmitted p store → IsAdmitted p store'
    pub names : store'.names ≡ store.names
    pub controlled : store'.controlled ≡ store.controlled
    pub others :
        (h : ℕ) → (hash_data (some name) == h) ≡ false → value_at store' h ≡ value_at store h

  or_destroy-store :
      (value : Val Address) (s : Setting Address Regex) → (or_destroy p value s).store ≡ s.store
  unfolding or_destroy
  or_destroy-store value s = elim (Bool-cases (is_ok s.ret)) [
    | inl e ↦ rw (or_destroy, e) refl
    | inr e ↦ rw (or_destroy, e) refl
  ]

  pub set_new-Puts :
      (made mem : Bool) (store : ValStore Address Regex) (name : List ℕ) (v : Payload Address)
      → IsStore store
      → Puts store name (set_new p made mem store name v).store
  unfolding set_new
  set_new-Puts false mem store name v valid = record {
    valid = valid;
    admitted = λ a. a;
    names = refl;
    controlled = refl;
    others = λ h e. refl;
  }
  set_new-Puts true mem store name v valid =
      let value : Val Address = record { name = name; v = v } in
      let w = set_val-Sets p mem store name value valid in
      rw (or_destroy-store value (set_val p mem store name value)) (record {
        valid = w.valid;
        admitted = λ a. set_val-IsAdmitted p mem store name value valid a;
        names = w.names;
        controlled = w.controlled;
        others = w.others;
      })

  Puts-refl :
      (store : ValStore Address Regex) (name : List ℕ) → IsStore store → Puts store name store
  Puts-refl store name valid = record {
    valid = valid;
    admitted = λ a. a;
    names = refl;
    controlled = refl;
    others = λ h e. refl;
  }

  overruled :
      (b : Bool) (s : Setting Address Regex)
      → (if b then record s { ret = ret_ok } else s).store ≡ s.store
  overruled true s = refl
  overruled false s = refl

  set_address-Puts :
      (made mem : Bool) (store : ValStore Address Regex) (name : List ℕ) (a : Address)
      → IsStore store
      → Puts store name (set_address p made mem store name a).store
  unfolding set_address
  set_address-Puts made mem store name a valid =
      let there = made && not (p.overlay_null a) in
      rw (overruled there (set_new p there mem store name (address a)))
        (set_new-Puts there mem store name (address a) valid)

  set_parsed-Puts :
      (made mem : Bool) (store : ValStore Address Regex) (name : List ℕ) (r : Bool × ℤ)
      → IsStore store
      → Puts store name (set_parsed p made mem store name r).store
  unfolding set_parsed set_number
  set_parsed-Puts made mem store name (false, num) valid = Puts-refl store name valid
  set_parsed-Puts made mem store name (true, num) valid =
      set_new-Puts made mem store name (number (to_int num)) valid

  set_existing_as-Puts :
      (made mem : Bool) (store : ValStore Address Regex) (name value : List ℕ)
      → (v : Payload Address) → IsStore store
      → Puts store name (set_existing_as p made mem store name value v).store
  unfolding set_existing_as set_string
  set_existing_as-Puts made mem store name value unset valid = Puts-refl store name valid
  set_existing_as-Puts made mem store name value (string s) valid =
      set_new-Puts made mem store name (string value) valid
  set_existing_as-Puts made mem store name value (number n) valid =
      set_parsed-Puts made mem store name (util_strtoll value 0) valid
  set_existing_as-Puts made mem store name value (address a) valid =
      elim (Option-cases (p.str_to_addr value)) [
        | inl e ↦ rw (set_existing_as, e) (Puts-refl store name valid)
        | inr (a', e) ↦ rw (set_existing_as, e) (set_address-Puts made mem store name a' valid)
      ]

  pub set_existing_value-Puts :
      (made mem : Bool) (store : ValStore Address Regex) (name value : List ℕ)
      → IsStore store
      → Puts store name (set_existing_value p made mem store name value).store
  unfolding set_existing_value
  set_existing_value-Puts made mem store name value valid =
      elim (Option-cases (get_val store name)) [
        | inl e ↦ rw (set_existing_value, e) (Puts-refl store name valid)
        | inr (v, e) ↦
            rw (set_existing_value, e) (set_existing_as-Puts made mem store name value v.v valid)
      ]
