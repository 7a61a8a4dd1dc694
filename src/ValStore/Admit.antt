-- ===== src/ValStore/Admit.antt =====
-- The value store of src/iw_val_store.c against its criteria, and what setting a value does to the
-- others.
use insta_works.Base.{
  ℕ, ◌≡◌, ◌≢◌, refl, ◌∙◌, ap, Bool, true, false, Option, none, some, List, [], arith, ◌==◌, ==_refl,
  if◌then◌else◌,
}
use insta_works.Base.Int.{ℤ}
use insta_works.Hash.{Key, hash_data}
use insta_works.Htable.{Htable, replace}
use insta_works.Htable.Valid.{IsValid, lookup}
use insta_works.Htable.Writes.{item_of, get-lookup}
use insta_works.Htable.Insert.{freed_of, Replaces, replace-Replaces}
use insta_works.ValStore.{
  ValStore, Val, Payload, ValType, type_none, type_number, type_string, type_address, unset, number,
  string, address, Criteria, Setting, Platform, ret_ok, failed_to_create, put, get_val,
}

module _ {Address Regex : Type 0} where
  -- Both tables are valid and hash by iw_hash_data.
  pub record IsStore (store : ValStore Address Regex) : Type 0 where
    pub table : IsValid store.table
    pub names : IsValid store.names
    pub table_fn : (k : Key) → store.table.fn k ≡ hash_data k
    pub names_fn : (k : Key) → store.names.fn k ≡ hash_data k

  -- The value that stands for a hash.
  abbrev pub value_at : ValStore Address Regex → ℕ → Option (Val Address)
  value_at store h = item_of (lookup store.table h)

  abbrev pub criteria_at : ValStore Address Regex → ℕ → Option (Criteria Address Regex)
  criteria_at store h = item_of (lookup store.names h)

  module _ (p : Platform Address Regex) where
    -- A value of a type.
    pub data HasType : ValType → Payload Address → Type 0 where
      of_none : HasType type_none unset
      of_number : (n : ℤ) → HasType type_number (number n)
      of_string : (s : List ℕ) → HasType type_string (string s)
      of_address : (a : Address) → HasType type_address (address a)

    -- The text of a value.
    pub data Shows : Payload Address → List ℕ → Type 0 where
      shows_number : (n : ℤ) → Shows (number n) (p.print_number n)
      shows_string : (s : List ℕ) → Shows (string s) s
      shows_address : (a : Address) → Shows (address a) (p.addr_to_str a)

    -- There are criteria for the name, and the value is within them: it has their type, their callback
    -- accepts it, and its text, if it has one, matches their regular expression.
    pub record Admits (crit : Option (Criteria Address Regex)) (name : List ℕ) (v : Val Address)
        : Type 0 where
      pub criteria : Criteria Address Regex
      pub stands : crit ≡ some criteria
      pub type : HasType criteria.type v.v
      pub callback : (fn : List ℕ → Val Address → Bool) → criteria.fn ≡ some fn → fn name v ≡ true
      pub regexp :
          (r : Regex) (text : List ℕ)
          → criteria.regexp ≡ some r
          → Shows v.v text
          → p.regexec r text ≡ true

    -- In a controlled store every value is within the criteria of a name with its hash.
    unfoldable pub IsAdmitted : ValStore Address Regex → Type 0
    IsAdmitted store =
        store.controlled ≡ true
        → (h : ℕ) (v : Val Address) → value_at store h ≡ some v
        → (name : List ℕ) × (hash_data (some name) ≡ h) × Admits (criteria_at store h) name v

    -- What iw_val_store_set leaves. The store keeps its criteria. Where the call returns
    -- IW_VAL_RET_OK, the name reads as the value, and the old value was destroyed; where the checks
    -- refuse the value, nothing has changed; no other hash reads differently in any case.
    pub record Sets (store : ValStore Address Regex) (name : List ℕ) (value : Val Address)
        (s : Setting Address Regex) : Type 0 where
      pub valid : IsStore s.store
      pub names : s.store.names ≡ store.names
      pub controlled : s.store.controlled ≡ store.controlled
      pub written :
          s.ret ≡ ret_ok
          → (get_val s.store name ≡ some value)
            × (s.freed ≡ freed_of (value_at store (hash_data (some name))))
      pub refused : s.ret ≢ ret_ok → s.ret ≢ failed_to_create → (s.store ≡ store) × (s.freed ≡ [])
      pub others :
          (h : ℕ) → (hash_data (some name) == h) ≡ false → value_at s.store h ≡ value_at store h
      pub lost : s.ret ≡ failed_to_create → value_at s.store (hash_data (some name)) ≡ none

    -- What put makes of the result of iw_htable_replace.
    placed :
        ValStore Address Regex
        → Bool × Htable (Val Address) × List (Val Address)
        → Setting Address Regex
    placed store r = record {
      ret = if r.0 then ret_ok else failed_to_create;
      store = record store { table = r.1 };
      freed = r.2;
    }

    pub get_val-value_at :
        (store : ValStore Address Regex) (name : List ℕ)
        → IsStore store
        → get_val store name ≡ value_at store (hash_data (some name))
    unfolding get_val
    get_val-value_at store name v =
        get-lookup store.table (some name) ∙ ap (value_at store) (v.table_fn (some name))

    placed-Sets :
        (mem : Bool) (store : ValStore Address Regex) (name : List ℕ) (value : Val Address)
        → IsStore store
        → (r : Bool × Htable (Val Address) × List (Val Address))
        → Replaces mem store.table (hash_data (some name)) (some value) r
        → Sets store name value (placed store r)
    unfolding placed
    placed-Sets mem store name value v r w =
        let h = hash_data (some name) in
        let u = w.updates in
        let kept : IsStore (record store { table = r.1 }) = record {
          table = u.valid;
          names = v.names;
          table_fn = λ k. ap (λ f. f k) u.fn ∙ v.table_fn k;
          names_fn = v.names_fn;
        } in
        record {
          valid = kept;
          names = refl;
          controlled = refl;
          written = λ e.
              let m : mem ≡ true = ground (arith, w.returns) in
              (
                get_val-value_at (record store { table = r.1 }) name kept
                    ∙ rw (u.lookups h, ==_refl h, m),
                w.freed,
              );
          refused = λ a b. absurd (ground arith);
          others = λ q e. rw (u.lookups q, e);
          lost = λ e.
              let m : mem ≡ false = ground (arith, w.returns) in rw (u.lookups h, ==_refl h, m);
        }

    pub put-Sets :
        (mem : Bool) (store : ValStore Address Regex) (name : List ℕ) (value : Val Address)
        → IsStore store
        → Sets store name value (put p mem store name value)
    unfolding put placed
    put-Sets mem store name value v =
        placed-Sets mem store name value v (replace mem store.table (some name) (some value) true) (
          replace-Replaces mem store.table (some name) (some value) v.table
            (v.table_fn (some name)))
