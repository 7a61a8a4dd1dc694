-- ===== src/ValStore.antt =====
-- src/iw_val_store.c and includes/iw_val_store.h: a store of typed values by name, over two hash
-- tables. What the calls write to `err_buff` is left out, and so are iw_val_to_str and the loss of a
-- criteria object that is not inserted. The allocator is the Boolean arguments: `made` says whether
-- a value or a criteria object could be allocated with its strings, `mem` whether a table's node
-- could.
pub mod Typed
pub mod Admit
pub mod Checks
pub mod Keep
pub mod Names
pub mod Start
pub mod Puts
use insta_works.Base.{
  ℕ, Bool, true, false, ◌&&◌, not, Option, none, some, List, [], ◌∷◌, ◌++◌, if◌then◌else◌,
}
use insta_works.Base.Int.{ℤ}
use insta_works.Hash.{Key}
use insta_works.Htable.{Htable, init, get, delete, replace, insert, destroy}
use insta_works.Util.{util_strtoll}

pub data ValRet : Type 0 where
  ret_ok : ValRet
  failed_to_create : ValRet
  no_such_value : ValRet
  incorrect_type : ValRet
  failed_callback : ValRet
  failed_regexp : ValRet

pub data ValType : Type 0 where
  type_none : ValType
  type_number : ValType
  type_string : ValType
  type_address : ValType

abbrev pub is_ok : ValRet → Bool
is_ok ret_ok = true
is_ok _ = false

-- The union of the value with its tag.
pub data Payload (Address : Type 0) : Type 0 where
  unset : Payload Address
  number : ℤ → Payload Address
  string : List ℕ → Payload Address
  address : Address → Payload Address

pub record Val (Address : Type 0) : Type 0 where
  pub name : List ℕ
  pub v : Payload Address

abbrev pub type_of : {Address : Type 0} → Payload Address → ValType
type_of unset = type_none
type_of (number n) = type_number
type_of (string s) = type_string
type_of (address a) = type_address

abbrev pub same_type : ValType → ValType → Bool
same_type type_none type_none = true
same_type type_number type_number = true
same_type type_string type_string = true
same_type type_address type_address = true
same_type _ _ = false

-- `regexp` is `none` where `regset` is false, `fn` where it is NULL.
pub record Criteria (Address Regex : Type 0) : Type 0 where
  pub type : ValType
  pub persist : Bool
  pub regexp : Option Regex
  pub fn : Option (List ℕ → Val Address → Bool)
  pub msg : Option (List ℕ)

pub record ValStore (Address Regex : Type 0) : Type 0 where
  pub table : Htable (Val Address)
  pub names : Htable (Criteria Address Regex)
  pub controlled : Bool

-- What a call that sets a value returns, the store, and the values that were destroyed.
pub record Setting (Address Regex : Type 0) : Type 0 where
  pub ret : ValRet
  pub store : ValStore Address Regex
  pub freed : List (Val Address)

-- The C library's regular expressions and `%d`, and the conversions of iw_ip.c: the text that
-- iw_ip_addr_to_str leaves, and whether it returns it or NULL. `overlay_null` says
-- whether the bytes that an address has in place of `v.string` are a NULL pointer.
pub record Platform (Address Regex : Type 0) : Type 0 where
  pub regexec : Regex → List ℕ → Bool
  pub regcomp : List ℕ → Option Regex
  pub print_number : ℤ → List ℕ
  pub addr_to_str : Address → List ℕ
  pub addr_printed : Address → Bool
  pub str_to_addr : List ℕ → Option Address
  pub overlay_null : Address → Bool
  -- `iw_memory_tracking`.
  pub tracked : Bool

module _ {Address Regex : Type 0} where
  -- `mem` and `mem'` are the allocations of the two tables. On failure, what the first table's
  -- destruction leaves.
  unfoldable pub initialize :
      (mem mem' : Bool) → ValStore Address Regex → Bool → Bool × ValStore Address Regex
  unfolding init destroy
  initialize false mem' store controlled =
      (false, record store { table = (init false store.table 1024 false none).1 })
  initialize true mem' store false =
      (true, record store { table = (init true store.table 1024 false none).1; controlled = false })
  initialize true false store true = (
    false,
    record store {
      table = (destroy (init true store.table 1024 false none).1 true).0;
      names = (init false store.names 1024 false none).1;
      controlled = true;
    },
  )
  initialize true true store true = (
    true,
    record store {
      table = (init true store.table 1024 false none).1;
      names = (init true store.names 1024 false none).1;
      controlled = true;
    },
  )

  unfoldable pub get_val : ValStore Address Regex → List ℕ → Option (Val Address)
  unfolding get
  get_val store name = get store.table (some name)

  -- The criteria object for the new name; `none` is a failed allocation.
  unfoldable pub create_criteria :
      (made : Bool)
      → ValType
      → Bool
      → Option (List ℕ)
      → Option (List ℕ → Val Address → Bool)
      → Option (Criteria Address Regex)
  create_criteria false type persist msg fn = none
  create_criteria true type persist msg fn =
      some (record { type = type; persist = persist; regexp = none; fn = fn; msg = msg })

  unfoldable pub add_name_internal :
      (mem : Bool)
      → ValStore Address Regex
      → List ℕ
      → Criteria Address Regex
      → Bool × ValStore Address Regex
  unfolding insert
  add_name_internal mem store name crit =
      let r = insert mem store.names (some name) (some crit) in (r.0, record store { names = r.1 })

  unfoldable pub add_name_callback :
      (made mem : Bool)
      → ValStore Address Regex
      → List ℕ
      → Option (List ℕ)
      → ValType
      → Option (List ℕ → Val Address → Bool)
      → Bool
      → Bool × ValStore Address Regex
  unfolding create_criteria add_name_internal
  add_name_callback made mem store name msg type fn persist =
      elim (create_criteria made type persist msg fn) [
        | none ↦ (false, store)
        | some crit ↦ add_name_internal mem store name crit
      ]

  unfoldable pub add_name :
      (made mem : Bool)
      → ValStore Address Regex
      → List ℕ
      → Option (List ℕ)
      → ValType
      → Bool
      → Bool × ValStore Address Regex
  unfolding add_name_callback
  add_name made mem store name msg type persist =
      add_name_callback made mem store name msg type none persist

  unfoldable pub get_persist : ValStore Address Regex → List ℕ → Bool
  unfolding get
  get_persist store name = elim (get store.names (some name)) [
    | none ↦ false
    | some crit ↦ crit.persist
  ]

  -- The store without the name and its value.
  unfoldable pub delete_name : ValStore Address Regex → List ℕ → ValStore Address Regex
  unfolding delete
  delete_name store name = record store {
    names = (delete store.names (some name) true).1;
    table = (delete store.table (some name) true).1;
  }

  module _ (p : Platform Address Regex) where
    unfoldable pub add_name_regexp :
        (made mem : Bool)
        → ValStore Address Regex
        → List ℕ
        → Option (List ℕ)
        → ValType
        → List ℕ
        → Bool
        → Bool × ValStore Address Regex
    unfolding create_criteria add_name_internal
    add_name_regexp made mem store name msg type regexp persist =
        elim (create_criteria made type persist msg none) [
          | none ↦ (false, store)
          | some crit ↦ elim (p.regcomp regexp) [
            | none ↦ (false, store)
            | some r ↦ add_name_internal mem store name (record crit { regexp = some r })
          ]
        ]

    -- The text that the regular expression is matched with; `none` is NULL.
    abbrev pub text_of : Payload Address → Option (List ℕ)
    text_of unset = none
    text_of (number n) = some (p.print_number n)
    text_of (string s) = some s
    text_of (address a) = some (p.addr_to_str a)

    unfoldable pub check_regexp : Option Regex → Option (List ℕ) → ValRet
    check_regexp none text = ret_ok
    check_regexp (some r) none = ret_ok
    check_regexp (some r) (some text) = if p.regexec r text then ret_ok else failed_regexp

    abbrev pub calls : Option (List ℕ → Val Address → Bool) → List ℕ → Val Address → Bool
    calls none name value = true
    calls (some fn) name value = fn name value

    -- The checks that iw_val_store_set makes in a controlled store.
    unfoldable pub check : Option (Criteria Address Regex) → List ℕ → Val Address → ValRet
    unfolding check_regexp
    check none name value = no_such_value
    check (some crit) name value =
        if not (same_type crit.type (type_of value.v))
        then incorrect_type
        else if not (calls crit.fn name value)
        then failed_callback
        else check_regexp crit.regexp (text_of value.v)

    -- The table is written.
    unfoldable pub put :
        (mem : Bool) → ValStore Address Regex → List ℕ → Val Address → Setting Address Regex
    unfolding replace
    put mem store name value =
        let r = replace mem store.table (some name) (some value) true in
        record {
          ret = if r.0 then ret_ok else failed_to_create;
          store = record store { table = r.1 };
          freed = r.2;
        }

    unfoldable pub set_val :
        (mem : Bool) → ValStore Address Regex → List ℕ → Val Address → Setting Address Regex
    unfolding check put get
    set_val mem store name value =
        let ret =
          if store.controlled then check (get store.names (some name)) name value else ret_ok in
        if is_ok ret
        then put mem store name value
        else record { ret = ret; store = store; freed = [] }

    -- A value that could not be set is destroyed.
    unfoldable pub or_destroy : Val Address → Setting Address Regex → Setting Address Regex
    or_destroy value s = if is_ok s.ret then s else record s { freed = s.freed ++ value ∷ [] }
