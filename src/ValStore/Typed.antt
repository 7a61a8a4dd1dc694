-- ===== src/ValStore/Typed.antt =====
-- src/iw_val_store.c: the calls that make a value and set it, and those that read one of a type.
use insta_works.Base.{
  ℕ, ◌-◌, ◌%◌, ◌^◌, Bool, true, false, ◌&&◌, not, Option, none, some, List, [], if◌then◌else◌, ltb,
  take,
}
use insta_works.Base.Int.{ℤ, pos, negsuc}
use insta_works.Htable.{destroy}
use insta_works.Htable.Walk.{get_first, get_next}
use insta_works.Util.{util_strtoll}
use insta_works.ValStore.{
  ValStore, Criteria, Val, Payload, unset, number, string, address, Setting, Platform, ret_ok,
  failed_to_create, no_such_value, incorrect_type, failed_regexp, get_val, set_val, or_destroy,
}

-- The conversion of a `long long` to an `int`.
abbrev pub to_int : ℤ → ℤ
to_int (pos n) = let m = n % 2 ^ 32 in if ltb m (2 ^ 31) then pos m else negsuc (2 ^ 32 - 1 - m)
to_int (negsuc n) = let m = n % 2 ^ 32 in if ltb m (2 ^ 31) then negsuc m else pos (2 ^ 32 - 1 - m)

unfoldable pub number_of : {Address : Type 0} → Option (Val Address) → Option ℤ
number_of none = none
number_of (some value) = elim value.v [
  | number n ↦ some n
  | unset ↦ none
  | string s ↦ none
  | address a ↦ none
]

unfoldable pub string_of : {Address : Type 0} → Option (Val Address) → Option (List ℕ)
string_of none = none
string_of (some value) = elim value.v [
  | number n ↦ none
  | unset ↦ none
  | string s ↦ some s
  | address a ↦ none
]

unfoldable pub address_of : {Address : Type 0} → Option (Val Address) → Option Address
address_of none = none
address_of (some value) = elim value.v [
  | number n ↦ none
  | unset ↦ none
  | string s ↦ none
  | address a ↦ some a
]

module _ {Address Regex : Type 0} where
  unfoldable pub get_number : ValStore Address Regex → List ℕ → Option ℤ
  unfolding get_val number_of
  get_number store name = number_of (get_val store name)

  unfoldable pub get_string : ValStore Address Regex → List ℕ → Option (List ℕ)
  unfolding get_val string_of
  get_string store name = string_of (get_val store name)

  unfoldable pub get_address : ValStore Address Regex → List ℕ → Option Address
  unfolding get_val address_of
  get_address store name = address_of (get_val store name)

  -- The store, and what is destroyed of the two tables, in order.
  unfoldable pub store_destroy :
      ValStore Address Regex
      → ValStore Address Regex
        × List (Option (Val Address))
        × List (Option (Criteria Address Regex))
  unfolding destroy
  store_destroy store =
      let table = destroy store.table true in
      let names = destroy store.names true in
      (record store { table = table.0; names = names.0 }, table.1, names.1)

  unfoldable pub first_value : ValStore Address Regex → ℕ → Option (Val Address) × ℕ
  unfolding get_first
  first_value store token = get_first store.table token

  unfoldable pub next_value : ValStore Address Regex → ℕ → Option (Val Address) × ℕ
  unfolding get_next
  next_value store token = get_next store.table token

  module _ (p : Platform Address Regex) where
    -- The result, and the text in the buffer of `buff_len` bytes: `before` if nothing was written.
    unfoldable pub val_to_str : Payload Address → ℕ → List ℕ → Bool × List ℕ
    val_to_str (number n) buff_len before = (true, take (buff_len - 1) (p.print_number n))
    val_to_str (string s) buff_len before = (true, take (buff_len - 1) s)
    val_to_str (address a) buff_len before =
        (p.addr_printed a, take (buff_len - 1) (p.addr_to_str a))
    val_to_str unset buff_len before = (false, before)

    -- The common body of the three calls, with the value's allocation `made`.
    unfoldable pub set_new :
        (made mem : Bool)
        → ValStore Address Regex
        → List ℕ
        → Payload Address
        → Setting Address Regex
    unfolding set_val or_destroy
    set_new false mem store name v = record { ret = failed_to_create; store = store; freed = [] }
    set_new true mem store name v =
        let value : Val Address = record { name = name; v = v } in
        or_destroy p value (set_val p mem store name value)

    unfoldable pub set_number :
        (made mem : Bool) → ValStore Address Regex → List ℕ → ℤ → Setting Address Regex
    unfolding set_new
    set_number made mem store name num = set_new made mem store name (number num)

    unfoldable pub set_string :
        (made mem : Bool) → ValStore Address Regex → List ℕ → List ℕ → Setting Address Regex
    unfolding set_new
    set_string made mem store name str = set_new made mem store name (string str)

    -- `return false` behind a failed iw_val_store_set is IW_VAL_RET_OK.
    unfoldable pub set_address :
        (made mem : Bool) → ValStore Address Regex → List ℕ → Address → Setting Address Regex
    unfolding set_new
    set_address made mem store name a =
        let created = made && not (p.overlay_null a) in
        let s = set_new created mem store name (address a) in
        if created then record s { ret = ret_ok } else s

    unfoldable pub set_parsed :
        (made mem : Bool) → ValStore Address Regex → List ℕ → Bool × ℤ → Setting Address Regex
    unfolding set_number
    set_parsed made mem store name (false, num) = record {
      ret = failed_regexp;
      store = store;
      freed = [];
    }
    set_parsed made mem store name (true, num) = set_number made mem store name (to_int num)

    unfoldable pub set_existing_as :
        (made mem : Bool)
        → ValStore Address Regex
        → List ℕ
        → List ℕ
        → Payload Address
        → Setting Address Regex
    unfolding set_string set_parsed set_address
    set_existing_as made mem store name value (string s) = set_string made mem store name value
    set_existing_as made mem store name value (number n) =
        set_parsed made mem store name (util_strtoll value 0)
    set_existing_as made mem store name value (address a) = elim (p.str_to_addr value) [
      | none ↦ record { ret = failed_regexp; store = store; freed = [] }
      | some a' ↦ set_address made mem store name a'
    ]
    set_existing_as made mem store name value unset = record {
      ret = incorrect_type;
      store = store;
      freed = [];
    }

    unfoldable pub set_existing_value :
        (made mem : Bool) → ValStore Address Regex → List ℕ → List ℕ → Setting Address Regex
    unfolding get_val set_existing_as
    set_existing_value made mem store name value = elim (get_val store name) [
      | none ↦ record { ret = no_such_value; store = store; freed = [] }
      | some val ↦ set_existing_as made mem store name value val.v
    ]
