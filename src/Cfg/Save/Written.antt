-- ===== src/Cfg/Save/Written.antt =====
-- iw_cfg_save of src/iw_cfg.c against the list of the values in the store.
use mathlib.Core.List.{map}
use insta_works.Base.{
  ℕ, zero, suc, ◌+◌, ◌≡◌, refl, sym, take, ap, ◌∙◌, Bool, true, false, Option, none, some, List, [],
  ◌∷◌, ◌++◌, if◌then◌else◌, length,
}
use insta_works.Htable.Valid.{nodes}
use insta_works.Htable.Walk.{collect}
use insta_works.Htable.Walk.Visits.{items, collect_all}
use insta_works.Base.Int.{ℤ}
use insta_works.Hash.{hash_data}
use insta_works.ValStore.{
  ValStore, Val, Payload, unset, number, string, address, Platform, get_persist,
}
use insta_works.ValStore.Puts.{is_persistent, get_persist-criteria_at}
use insta_works.ValStore.Typed.{first_value, next_value, val_to_str}
use insta_works.ValStore.Admit.{IsStore, criteria_at}
use insta_works.Cfg.{Cfg, Parson, Member, member_number, member_string, set_file}
use insta_works.Cfg.Save.{
  Saving, named_file, save_members, save_value, serialized, member_of, saved_of, save_loop, save,
}

module _ {Address Regex : Type 0} (p : Platform Address Regex) where
  -- The members of a document for some values: one for each value of a persistent setting that has a
  -- type, which has its name and its content, in the order of the list, and no other. An address stands
  -- as the text that iw_ip_addr_to_str leaves in a buffer of 128 bytes.
  pub data Documents (store : ValStore Address Regex)
      : List (Val Address) → List Member → Type 0 where
    no_values : Documents store [] []
    transient :
        {x : Val Address} {xs : List (Val Address)} {ms : List Member}
        → is_persistent (criteria_at store (hash_data (some x.name))) ≡ false
        → Documents store xs ms
        → Documents store (x ∷ xs) ms
    untyped :
        {x : Val Address} {xs : List (Val Address)} {ms : List Member}
        → x.v ≡ unset
        → Documents store xs ms
        → Documents store (x ∷ xs) ms
    a_number :
        {x : Val Address} {xs : List (Val Address)} {ms : List Member} {n : ℤ}
        → is_persistent (criteria_at store (hash_data (some x.name))) ≡ true
        → x.v ≡ number n
        → Documents store xs ms
        → Documents store (x ∷ xs) (member_number x.name n ∷ ms)
    a_string :
        {x : Val Address} {xs : List (Val Address)} {ms : List Member} {s : List ℕ}
        → is_persistent (criteria_at store (hash_data (some x.name))) ≡ true
        → x.v ≡ string s
        → Documents store xs ms
        → Documents store (x ∷ xs) (member_string x.name s ∷ ms)
    an_address :
        {x : Val Address} {xs : List (Val Address)} {ms : List Member} {a : Address}
        → is_persistent (criteria_at store (hash_data (some x.name))) ≡ true
        → x.v ≡ address a
        → Documents store xs ms
        → Documents store (x ∷ xs) (member_string x.name (take 127 (p.addr_to_str a)) ∷ ms)

  -- What the code writes for the values.
  unfoldable pub members : ValStore Address Regex → List (Val Address) → List Member
  members store [] = []
  members store (x ∷ xs) = saved_of p store x ++ members store xs

  member_of-Documents :
      (store : ValStore Address Regex) (name : List ℕ) (v : Payload Address)
      → (xs : List (Val Address)) (ms : List Member)
      → is_persistent (criteria_at store (hash_data (some name))) ≡ true
      → Documents store xs ms
      → Documents store
          (record { name = name; v = v } ∷ xs)
          (member_of p (record { name = name; v = v }) ++ ms)
  unfolding member_of val_to_str
  member_of-Documents store name unset xs ms e d = untyped refl d
  member_of-Documents store name (number n) xs ms e d = a_number e refl d
  member_of-Documents store name (string s) xs ms e d = a_string e refl d
  member_of-Documents store name (address a) xs ms e d = an_address e refl d

  saved_of-Documents :
      (store : ValStore Address Regex) (x : Val Address) (xs : List (Val Address))
      (ms : List Member) (b : Bool)
      → is_persistent (criteria_at store (hash_data (some x.name))) ≡ b
      → Documents store xs ms
      → Documents store (x ∷ xs) ((if b then member_of p x else []) ++ ms)
  saved_of-Documents store x xs ms true e d = member_of-Documents store x.name x.v xs ms e d
  saved_of-Documents store x xs ms false e d = transient e d

  members-Documents :
      (store : ValStore Address Regex) (xs : List (Val Address))
      → IsStore store
      → Documents store xs (members store xs)
  unfolding members
  members-Documents store [] v = no_values
  members-Documents store (x ∷ xs) v =
      saved_of-Documents store x xs (members store xs) (get_persist store x.name)
        (sym (get_persist-criteria_at store x.name v)) (members-Documents store xs v)

  save_loop-members :
      (store : ValStore Address Regex) (k : ℕ) (r : Option (Val Address) × ℕ)
      → save_loop p store k r ≡ members store (collect store.table k r)
  unfolding save_loop members collect next_value
  save_loop-members store zero r = refl
  save_loop-members store (suc k) (none, token) = refl
  save_loop-members store (suc k) (some value, token) =
      ap (λ ms. saved_of p store value ++ ms) (save_loop-members store k (next_value store token))

  module _ {Value Object Double : Type 0} (mem : ℕ → Bool) (json : Parson Value Object Double) where
    abbrev written_by : Option Object → List Member → Option (List ℕ) → Bool
    written_by none ms file = false
    written_by (some obj) ms file = json.serialize ms file

    abbrev written_to : Option Value → List Member → Option (List ℕ) → Bool
    written_to none ms file = false
    written_to (some val) ms file = written_by (json.value_get_object (some val)) ms file

    -- Whether the library makes a document with its object, and then writes it to the file.
    abbrev pub writes : List Member → Option (List ℕ) → Bool
    writes = written_to json.init_object

    -- What iw_cfg_save leaves of a configuration whose values are `xs`: `c'` is the configuration with
    -- the file name set.
    pub record Saves (c' : Cfg Address Regex Value) (xs : List (Val Address))
        (s : Saving Address Regex Value) : Type 0 where
      pub document : List Member
      pub documents : Documents c'.store xs document
      pub fails : s.result ≡ false
      pub store : s.cfg.store ≡ c'.store
      pub named : s.cfg.file ≡ c'.file
      pub written : s.written ≡ (if writes document c'.file then some document else none)
      pub freed : writes document c'.file ≡ true → s.cfg.live ≡ c'.live

    named_store :
        (c : Cfg Address Regex Value) (file : Option (List ℕ))
        → (named_file p mem json c file).store ≡ c.store
    unfolding set_file
    named_store c none = refl
    named_store c (some file) = refl

    -- The same of save_members, with the members that it is given, and whether it writes them.
    record Ends (c : Cfg Address Regex Value) (ms : List Member) (done : Bool)
        (s : Saving Address Regex Value) : Type 0 where
      fails : s.result ≡ false
      store : s.cfg.store ≡ c.store
      named : s.cfg.file ≡ c.file
      written : s.written ≡ (if done then some ms else none)
      freed : done ≡ true → s.cfg.live ≡ c.live

    serialized-Ends :
        (c : Cfg Address Regex Value) (val : Value) (ms : List Member) (done : Bool)
        → Ends c ms done (serialized p mem json c val ms done)
    serialized-Ends c val ms true = record {
      fails = refl;
      store = refl;
      named = refl;
      written = refl;
      freed = λ q. refl;
    }
    serialized-Ends c val ms false = record {
      fails = refl;
      store = refl;
      named = refl;
      written = refl;
      freed = λ q. absurd cc;
    }

    save_value-Ends :
        (c : Cfg Address Regex Value) (ms : List Member) (val : Value) (obj : Option Object)
        → Ends c ms (written_by obj ms c.file) (save_value p mem json c ms val obj)
    save_value-Ends c ms val (some obj) = serialized-Ends c val ms (json.serialize ms c.file)
    save_value-Ends c ms val none = serialized-Ends c val ms false

    save_members-Ends :
        (c : Cfg Address Regex Value) (ms : List Member) (val : Option Value)
        → Ends c ms (written_to val ms c.file) (save_members p mem json c ms val)
    save_members-Ends c ms none = record {
      fails = refl;
      store = refl;
      named = refl;
      written = refl;
      freed = λ q. absurd cc;
    }
    save_members-Ends c ms (some val) = save_value-Ends c ms val (json.value_get_object (some val))

    -- iw_cfg_save of a configuration whose store has valid tables with the values `xs`, none of them
    -- NULL, in as many rounds as there are nodes and one more. The document that it writes has one member
    -- for each value of a persistent setting that has a type, in the order of the table, and no other. It
    -- is written if the library makes the document and writes the file, and is freed then. The store is
    -- as before. The call returns false in any case.
    pub save-Saves :
        (c : Cfg Address Regex Value) (file : Option (List ℕ)) (xs : List (Val Address))
        → IsStore c.store
        → items (nodes c.store.table) ≡ map some xs
        → Saves
            (named_file p mem json c file)
            xs
            (save p mem json (length (nodes c.store.table) + 1) c file)
    unfolding save first_value set_file
    save-Saves c file xs v same =
        let c' = named_file p mem json c file in
        let here : c'.store ≡ c.store = named_store c file in
        let all : save_loop p c'.store (length (nodes c.store.table) + 1) (first_value c'.store 0)
            ≡ members c'.store xs =
          rw here (
            save_loop-members c.store (length (nodes c.store.table) + 1) (first_value c.store 0)
            ∙ ap (members c.store) (collect_all c.store.table 0 xs v.table same)) in
        let w = save_members-Ends c' (members c'.store xs) json.init_object in
        rw (save, all)
          (record {
            document = members c'.store xs;
            documents = rw here (members-Documents c.store xs v);
            fails = w.fails;
            store = w.store;
            named = w.named;
            written = w.written;
            freed = w.freed;
          })

    -- iw_cfg_save leaves the store as it is.
    pub save-store :
        (rounds : ℕ) (c : Cfg Address Regex Value)
        → (save p mem json rounds c none).cfg.store ≡ c.store
    unfolding save
    save-store rounds c =
        let w =
          save_members-Ends c (save_loop p c.store rounds (first_value c.store 0))
            json.init_object in
        w.store
