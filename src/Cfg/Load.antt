-- ===== src/Cfg/Load.antt =====
-- iw_cfg_load of src/iw_cfg.c: it ends, and only the values of persistent settings change.
use mathlib.Core.Bool.{true≢false}
use insta_works.Base.{
  ℕ, zero, suc, ◌+◌, ◌<◌, ◌≡◌, refl, sym, ◌∙◌, Bool, true, false, Bool-cases, inl, inr, Option,
  none, some, List, [], ◌∷◌, arith, ◌==◌, ==_iff, if◌then◌else◌,
}
use insta_works.Base.Int.{ℤ}
use insta_works.Hash.{hash_data}
use insta_works.Util.{util_concat}
use insta_works.ValStore.{Platform, Payload, number, string, get_persist}
use insta_works.ValStore.Typed.{set_number, set_string, set_new}
use insta_works.ValStore.Admit.{IsStore, IsAdmitted, value_at, criteria_at}
use insta_works.ValStore.Puts.{set_new-Puts, is_persistent, get_persist-criteria_at}
use insta_works.Cfg.{
  Cfg, Parson, JsonType, json_error, json_null, json_string, json_number, json_object, json_array,
  json_boolean, assigned, put_number, put_string, put_text, put_leaf, put_persistent, is_leaf, each,
  visit, freed_name, get_json_obj, dot,
}

module _ {Address Regex Value : Type 0} (p : Platform Address Regex) where
  -- What is kept of a configuration whose store has valid tables, when values of persistent settings
  -- are set: the store's criteria, every value of another setting, the file name and the JSON values;
  -- and a store that is within its criteria stays so.
  pub record Loads (c c' : Cfg Address Regex Value) : Type 0 where
    pub valid : IsStore c'.store
    pub admitted : IsAdmitted p c.store → IsAdmitted p c'.store
    pub names : c'.store.names ≡ c.store.names
    pub controlled : c'.store.controlled ≡ c.store.controlled
    pub others :
        (h : ℕ)
        → is_persistent (criteria_at c.store h) ≡ false
        → value_at c'.store h ≡ value_at c.store h
    pub live : c'.live ≡ c.live
    pub file : c'.file ≡ c.file

  Loads-refl : (c : Cfg Address Regex Value) → IsStore c.store → Loads c c
  Loads-refl c v = record {
    valid = v;
    admitted = λ a. a;
    names = refl;
    controlled = refl;
    others = λ h e. refl;
    live = refl;
    file = refl;
  }

  Loads-trans : (a b c : Cfg Address Regex Value) → Loads a b → Loads b c → Loads a c
  Loads-trans a b c first second = record {
    valid = second.valid;
    admitted = λ w. second.admitted (first.admitted w);
    names = second.names ∙ first.names;
    controlled = second.controlled ∙ first.controlled;
    others = λ h e.
        let same : is_persistent (criteria_at b.store h) ≡ false = rw first.names e in
        second.others h same ∙ first.others h e;
    live = second.live ∙ first.live;
    file = second.file ∙ first.file;
  }

  Counts :
      (c : Cfg Address Regex Value) → IsStore c.store → Loads c (record c { allocs = c.allocs + 1 })
  Counts c v = record {
    valid = v;
    admitted = λ a. a;
    names = refl;
    controlled = refl;
    others = λ h e. refl;
    live = refl;
    file = refl;
  }

  module _ (mem : ℕ → Bool) where
    put-Loads :
        (c : Cfg Address Regex Value) (name : List ℕ) (v : Payload Address) (made mem' : Bool)
        → IsStore c.store
        → get_persist c.store name ≡ true
        → Loads c (assigned p mem c (set_new p made mem' c.store name v))
    unfolding assigned
    put-Loads c name v made mem' valid may =
        let w = set_new-Puts p made mem' c.store name v valid in
        let h = hash_data (some name) in
        let here : is_persistent (criteria_at c.store h) ≡ true =
          sym (get_persist-criteria_at c.store name valid) ∙ may in
        record {
          valid = w.valid;
          admitted = w.admitted;
          names = w.names;
          controlled = w.controlled;
          others = λ q e. elim (Bool-cases (h == q)) [
            | inr d ↦ w.others q d
            | inl d ↦
                let same : h ≡ q = (==_iff h q).0 d in
                let no : is_persistent (criteria_at c.store h) ≡ false = rw same e in
                absurd (true≢false (sym here ∙ no))
          ];
          live = refl;
          file = refl;
        }

    put_number-Loads :
        (c : Cfg Address Regex Value) (name : List ℕ) (n : ℤ)
        → IsStore c.store
        → get_persist c.store name ≡ true
        → Loads c (put_number p mem c name n)
    unfolding put_number set_number
    put_number-Loads c name n v may =
        put-Loads c name (number n) (mem c.allocs) (mem (c.allocs + 1)) v may

    put_text-Loads :
        (c : Cfg Address Regex Value) (name : List ℕ) (str : Option (List ℕ))
        → IsStore c.store
        → get_persist c.store name ≡ true
        → Loads c (put_text p mem c name str)
    unfolding put_string set_string
    put_text-Loads c name none v may = Loads-refl c v
    put_text-Loads c name (some str) v may =
        put-Loads c name (string str) (mem c.allocs) (mem (c.allocs + 1)) v may

    module _ {Object Double : Type 0} (json : Parson Value Object Double) where
      put_leaf-Loads :
          (c : Cfg Address Regex Value) (name : List ℕ) (val : Option Value) (type : JsonType)
          → IsStore c.store
          → get_persist c.store name ≡ true
          → Loads c (put_leaf p mem json c name val type)
      unfolding put_leaf
      put_leaf-Loads c name val json_string v may =
          put_text-Loads c name (json.value_get_string val) v may
      put_leaf-Loads c name val json_number v may =
          put_number-Loads c name (json.to_int (json.value_get_number val)) v may
      put_leaf-Loads c name val json_boolean v may =
          put_number-Loads c name (json.value_get_boolean val) v may
      put_leaf-Loads c name val json_error v may = Loads-refl c v
      put_leaf-Loads c name val json_null v may = Loads-refl c v
      put_leaf-Loads c name val json_object v may = Loads-refl c v
      put_leaf-Loads c name val json_array v may = Loads-refl c v

      put_persistent-Loads :
          (c : Cfg Address Regex Value) (name : List ℕ) (val : Option Value) (type : JsonType)
          → (may : Bool) → IsStore c.store
          → get_persist c.store name ≡ may
          → Loads c (put_persistent p mem json c name val type may)
      put_persistent-Loads c name val type true v e = put_leaf-Loads c name val type v e
      put_persistent-Loads c name val type false v e = Loads-refl c v

      -- A result that is there, and keeps what Loads says.
      abbrev pub Loaded : Cfg Address Regex Value → Option (Cfg Address Regex Value) → Type 0
      Loaded c r = (c' : Cfg Address Regex Value) × (r ≡ some c') × Loads c c'

      pub each-Loaded :
          (body : Cfg Address Regex Value → ℕ → Option (Cfg Address Regex Value))
          → ((c : Cfg Address Regex Value) (idx : ℕ) → IsStore c.store → Loaded c (body c idx))
          → (n idx : ℕ) (c : Cfg Address Regex Value) → IsStore c.store
          → Loaded c (each body n idx c)
      unfolding each
      each-Loaded body f zero idx c v = (c, refl, Loads-refl c v)
      each-Loaded body f (suc n) idx c v =
          let (c', e, first) = f c idx v in
          let (c'', e', second) = each-Loaded body f n (suc idx) c' first.valid in
          (c'', rw (each, e) e', Loads-trans c c' c'' first second)

      -- The result of visit on a value that is no object.
      abbrev leaf_result :
          Cfg Address Regex Value → List ℕ → Option Value → JsonType → Cfg Address Regex Value
      leaf_result c name val type =
          if is_leaf type
          then put_persistent p mem json c name val type (get_persist c.store name)
          else c

      leaf-Loads :
          (c : Cfg Address Regex Value) (name : List ℕ) (val : Option Value) (type : JsonType)
          → IsStore c.store
          → Loads c (leaf_result c name val type)
      leaf-Loads c name val type v = elim (Bool-cases (is_leaf type)) [
        | inl e ↦ rw e (put_persistent-Loads c name val type (get_persist c.store name) v refl)
        | inr e ↦ rw e (Loads-refl c v)
      ]

      visit-Loaded :
          (descend : Cfg Address Regex Value
            → Option Object
            → List ℕ
            → Option (Cfg Address Regex Value))
          → (c : Cfg Address Regex Value) (val : Option Value) (type : JsonType)
          → (full : Option (List ℕ)) → IsStore c.store
          → (type ≡ json_object
              → (path : List ℕ) → Loaded c (descend c (json.value_get_object val) path))
          → Loaded c (visit p mem json descend c val type full)
      visit-Loaded descend c val type none v f = (c, refl, Loads-refl c v)
      visit-Loaded descend c val json_object (some name) v f = f refl name
      visit-Loaded descend c val json_error (some name) v f = (c, refl, Loads-refl c v)
      visit-Loaded descend c val json_null (some name) v f = (c, refl, Loads-refl c v)
      visit-Loaded descend c val json_array (some name) v f = (c, refl, Loads-refl c v)
      visit-Loaded descend c val json_string (some name) v f =
          (leaf_result c name val json_string, refl, leaf-Loads c name val json_string v)
      visit-Loaded descend c val json_number (some name) v f =
          (leaf_result c name val json_number, refl, leaf-Loads c name val json_number v)
      visit-Loaded descend c val json_boolean (some name) v f =
          (leaf_result c name val json_boolean, refl, leaf-Loads c name val json_boolean v)

      -- The objects of a parsed file are a finite tree: a member that is an object is lower.
      pub record IsFinite (height : Option Object → ℕ) : Type 0 where
        pub lower :
            (obj : Option Object) (name : Option (List ℕ))
            → json.value_get_type (json.object_get_value obj name) ≡ json_object
            → height (json.value_get_object (json.object_get_value obj name)) < height obj

      freed_name-kept :
          (full : Option (List ℕ)) (r : Option (Cfg Address Regex Value))
          → p.tracked ≡ false
          → freed_name p mem json p.tracked full r ≡ r
      freed_name-kept none r off = refl
      freed_name-kept (some full) r off = rw off refl

      pub get_json_obj-Loaded :
          (height : Option Object → ℕ)
          → IsFinite height
          → p.tracked ≡ false
          → (k : ℕ) (c : Cfg Address Regex Value) (obj : Option Object) (idx : ℕ) (path : List ℕ)
          → height obj < k
          → IsStore c.store
          → Loaded c (get_json_obj p mem json k c obj idx path)
      unfolding get_json_obj
      get_json_obj-Loaded height fin off zero c obj idx path lt v = absurd (omega arith)
      get_json_obj-Loaded height fin off (suc k) c obj idx path lt v =
          let name = json.object_get_name obj idx in
          let val = json.object_get_value obj name in
          let counted = record c { allocs = c.allocs + 1 } in
          let (c', e, w) =
            visit-Loaded
              (λ c sub full_name.
                each (λ c sub_idx. get_json_obj p mem json k c sub sub_idx full_name)
                  (json.object_get_count sub) 0 c)
              counted val (json.value_get_type val)
              (util_concat (mem c.allocs) (some path ∷ some dot ∷ name ∷ [])) v
              (λ e full_name.
                let down = fin.lower obj name e in
                let sub = json.value_get_object val in
                each-Loaded (λ c sub_idx. get_json_obj p mem json k c sub sub_idx full_name)
                  (λ c idx v.
                    get_json_obj-Loaded height fin off k c sub idx full_name (omega arith) v)
                  (json.object_get_count sub) 0 counted v) in
          (
            c',
            freed_name-kept (util_concat (mem c.allocs) (some path ∷ some dot ∷ name ∷ [])) _ off
                ∙ e,
            Loads-trans c counted c' (Counts c v) w,
          )
