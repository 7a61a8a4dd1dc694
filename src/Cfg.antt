-- ===== src/Cfg.antt =====
-- src/iw_cfg.c: the configuration, which is a value store, and its file. The JSON library is a record
-- of the calls that are made of it; the calls that build the document to save are kept as a list. The
-- texts that go to the log are left out. `mem` says whether the n-th allocation gives memory: `allocs`
-- counts one for each path or file name, one for a value and one for its node.
pub mod Names
pub mod Setup
pub mod Load
pub mod File
pub mod Save
use insta_works.Base.{
  ℕ, zero, suc, ◌+◌, Bool, true, false, Option, none, some, List, [], ◌∷◌, ◌++◌, if◌then◌else◌,
  drop,
}
use insta_works.Base.Int.{ℤ}
use insta_works.Util.{util_concat}
use insta_works.Cfg.Names.{cfg}
use insta_works.ValStore.{
  ValStore, Val, Payload, unset, number, string, address, Criteria, Setting, Platform, type_number,
  type_string, ValType, add_name, add_name_regexp, get_persist,
}
use insta_works.ValStore.Typed.{set_number, set_string, store_destroy}

pub data JsonType : Type 0 where
  json_error : JsonType
  json_null : JsonType
  json_string : JsonType
  json_number : JsonType
  json_object : JsonType
  json_array : JsonType
  json_boolean : JsonType

-- A call of json_object_dotset_number or json_object_dotset_string.
pub data Member : Type 0 where
  member_number : List ℕ → ℤ → Member
  member_string : List ℕ → List ℕ → Member

-- The calls of parson, where `none` is NULL, and the conversion of a `double` to an `int`. The last
-- two fields are json_value_init_object with the object of its value, and
-- json_serialize_to_file_pretty of the value after some calls.
pub record Parson (Value Object Double : Type 0) : Type 0 where
  pub parse_file : List ℕ → Option Value
  pub value_get_type : Option Value → JsonType
  pub value_get_string : Option Value → Option (List ℕ)
  pub value_get_number : Option Value → Double
  pub value_get_boolean : Option Value → ℤ
  pub value_get_object : Option Value → Option Object
  pub object_get_count : Option Object → ℕ
  pub object_get_name : Option Object → ℕ → Option (List ℕ)
  pub object_get_value : Option Object → Option (List ℕ) → Option Value
  pub object_get_object : Option Object → List ℕ → Option Object
  pub to_int : Double → ℤ
  pub init_object : Option Value
  pub serialize : List Member → Option (List ℕ) → Bool

-- `iw_cfg`, `iw_cfg_file`, and the static flag of iw_cfg_init; the values that were destroyed, and the
-- JSON values that were made and not freed.
pub record Cfg (Address Regex Value : Type 0) : Type 0 where
  pub store : ValStore Address Regex
  pub file : Option (List ℕ)
  pub initialized : Bool
  pub freed : List (Val Address)
  pub live : List Value
  pub allocs : ℕ

-- What iw_cfg_add_number and iw_cfg_add_string do with a name: its type, and what it is set to.
pub record Entry : Type 0 where
  pub name : List ℕ
  pub persist : Bool
  pub msg : Option (List ℕ)
  pub regexp : Option (List ℕ)

abbrev pub dot : List ℕ
dot = b'.' ∷ []

-- NULL is left alone.
unfoldable pub destroyed {ℓ} : {A : Type ℓ} → List (Option A) → List A
destroyed [] = []
destroyed (none ∷ xs) = destroyed xs
destroyed (some a ∷ xs) = a ∷ destroyed xs

-- The types of the leaves, whose values the store may hold.
abbrev pub is_leaf : JsonType → Bool
is_leaf json_string = true
is_leaf json_number = true
is_leaf json_boolean = true
is_leaf _ = false

abbrev pub is_object : JsonType → Bool
is_object json_object = true
is_object _ = false

-- The loop `for(idx=0;idx < max;idx++)` with `n` rounds to go; `none` is a round without fuel.
unfoldable pub each {ℓ} : {A : Type ℓ} → (A → ℕ → Option A) → ℕ → ℕ → A → Option A
each body zero idx c = some c
each body (suc n) idx c = elim (body c idx) [ none ↦ none | some c' ↦ each body n (suc idx) c' ]

module _ {Address Regex : Type 0} (p : Platform Address Regex) where
  abbrev pub add_as :
      (made mem' : Bool)
      → ValStore Address Regex
      → Entry
      → ValType
      → Option (List ℕ)
      → Bool × ValStore Address Regex
  add_as made mem' store e type none = add_name made mem' store e.name e.msg type e.persist
  add_as made mem' store e type (some regexp) =
      add_name_regexp p made mem' store e.name e.msg type regexp e.persist

module _ {Address Regex Value : Type 0} (mem : ℕ → Bool) where
  -- The name of the file is a copy.
  unfoldable pub set_file : Cfg Address Regex Value → List ℕ → Cfg Address Regex Value
  set_file c file = record c {
    file = if mem c.allocs then some file else none;
    allocs = c.allocs + 1;
  }

module _ {Address Regex Value : Type 0} (p : Platform Address Regex) (mem : ℕ → Bool) where
  -- The store after a call that sets a value.
  unfoldable pub assigned :
      Cfg Address Regex Value → Setting Address Regex → Cfg Address Regex Value
  assigned c s = record c { store = s.store; freed = c.freed ++ s.freed; allocs = c.allocs + 2 }

  unfoldable pub put_number : Cfg Address Regex Value → List ℕ → ℤ → Cfg Address Regex Value
  unfolding assigned
  put_number c name n = assigned c (set_number p (mem c.allocs) (mem (c.allocs + 1)) c.store name n)

  unfoldable pub put_string : Cfg Address Regex Value → List ℕ → List ℕ → Cfg Address Regex Value
  unfolding assigned
  put_string c name str =
      assigned c (set_string p (mem c.allocs) (mem (c.allocs + 1)) c.store name str)

  -- The call that adds the name with its criteria.
  unfoldable pub add_entry : Cfg Address Regex Value → Entry → ValType → Cfg Address Regex Value
  unfolding add_name add_name_regexp
  add_entry c e type = record c {
    store = (add_as p (mem c.allocs) (mem (c.allocs + 1)) c.store e type e.regexp).1;
    allocs = c.allocs + 2;
  }

  unfoldable pub add_number : Cfg Address Regex Value → Entry → ℤ → Cfg Address Regex Value
  unfolding add_entry put_number
  add_number c e def = put_number (add_entry c e type_number) e.name def

  unfoldable pub add_string :
      Cfg Address Regex Value → Entry → Option (List ℕ) → Cfg Address Regex Value
  unfolding add_entry put_string
  add_string c e none = add_entry c e type_string
  add_string c e (some def) = put_string (add_entry c e type_string) e.name def

  abbrev pub put_text : Cfg Address Regex Value → List ℕ → Option (List ℕ) → Cfg Address Regex Value
  put_text c name none = c
  put_text c name (some str) = put_string c name str

  module _ {Object Double : Type 0} (json : Parson Value Object Double) where
    -- A leaf of each type.
    unfoldable pub put_leaf :
        Cfg Address Regex Value → List ℕ → Option Value → JsonType → Cfg Address Regex Value
    unfolding put_number put_string
    put_leaf c name val json_string = put_text c name (json.value_get_string val)
    put_leaf c name val json_number = put_number c name (json.to_int (json.value_get_number val))
    put_leaf c name val json_boolean = put_number c name (json.value_get_boolean val)
    put_leaf c name val _ = c

    abbrev pub put_persistent :
        Cfg Address Regex Value → List ℕ → Option Value → JsonType → Bool → Cfg Address Regex Value
    put_persistent c name val type true = put_leaf c name val type
    put_persistent c name val type false = c

    -- A value whose path is known, as its type asks; `descend` goes through the members of an object.
    abbrev pub visit :
        (Cfg Address Regex Value → Option Object → List ℕ → Option (Cfg Address Regex Value))
        → Cfg Address Regex Value
        → Option Value
        → JsonType
        → Option (List ℕ)
        → Option (Cfg Address Regex Value)
    visit descend c val type none = some c
    visit descend c val json_object (some full_name) =
        descend c (json.value_get_object val) full_name
    visit descend c val type (some full_name) = some (
        if is_leaf type
        then put_persistent c full_name val type (get_persist c.store full_name)
        else c)

    -- `free(full_name)` of a pointer of IW_REALLOC: the C library ends the program with `none` if memory
    -- is tracked, since the pointer is not one of its own then.
    abbrev pub freed_name :
        Bool → Option (List ℕ) → Option (Cfg Address Regex Value) → Option (Cfg Address Regex Value)
    freed_name tracked none r = r
    freed_name false (some full_name) r = r
    freed_name true (some full_name) r = none

    -- iw_cfg_get_json_obj on a depth of fuel; `none` if this is used up or the program was ended.
    unfoldable pub get_json_obj :
        ℕ → Cfg Address Regex Value → Option Object → ℕ → List ℕ → Option (Cfg Address Regex Value)
    unfolding each put_leaf
    get_json_obj zero c obj idx path = none
    get_json_obj (suc k) c obj idx path =
        let name = json.object_get_name obj idx in
        let val = json.object_get_value obj name in
        let full = util_concat (mem c.allocs) (some path ∷ some dot ∷ name ∷ []) in
        freed_name p.tracked full (
          visit
            (λ c sub full_name.
              each (λ c sub_idx. get_json_obj k c sub sub_idx full_name) (json.object_get_count sub)
                0 c)
            (record c { allocs = c.allocs + 1 }) val (json.value_get_type val) full)

    -- The members of the root's object of configurations, and json_value_free.
    unfoldable pub load_object :
        ℕ → Cfg Address Regex Value → Value → Option (Bool × Cfg Address Regex Value)
    unfolding each get_json_obj
    load_object depth c root =
        let obj = json.object_get_object (json.value_get_object (some root)) cfg in
        elim (each (λ c idx. get_json_obj depth c obj idx cfg) (json.object_get_count obj) 0
          (record c { live = root ∷ c.live })) [
            | none ↦ none
            | some c' ↦ some (true, record c' { live = drop 1 c'.live })
          ]

    abbrev pub load_root :
        ℕ → Cfg Address Regex Value → Option Value → Bool → Option (Bool × Cfg Address Regex Value)
    load_root depth c none is_obj = some (false, c)
    load_root depth c (some root) true = load_object depth c root
    load_root depth c (some root) false = some (false, record c { live = root ∷ c.live })

    -- iw_cfg_load; `none` if the objects are nested deeper than `depth`, or a name of tracked memory is
    -- freed.
    unfoldable pub load :
        ℕ → Cfg Address Regex Value → Option (List ℕ) → Option (Bool × Cfg Address Regex Value)
    unfolding set_file load_object
    load depth c none = some (false, c)
    load depth c (some file) =
        let root = json.parse_file file in
        load_root depth (set_file mem c file) root (is_object (json.value_get_type root))

  unfoldable pub cfg_exit : Cfg Address Regex Value → Cfg Address Regex Value
  unfolding store_destroy destroyed
  cfg_exit c =
      let (store, values, criteria) = store_destroy c.store in
      record c { store = store; file = none; freed = c.freed ++ destroyed values }
