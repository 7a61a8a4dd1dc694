-- ===== src/Cfg/File.antt =====
-- iw_cfg_load of src/iw_cfg.c as a whole: its result, the file name, and what it leaves allocated.
use insta_works.Base.{
  ℕ, ◌<◌, ◌≡◌, refl, sym, Bool, true, false, Option, none, some, List, [], ◌∷◌, ◌++◌, drop,
  if◌then◌else◌,
}
use insta_works.ValStore.{ValStore, Platform}
use insta_works.ValStore.Admit.{IsStore, IsAdmitted, value_at, criteria_at}
use insta_works.ValStore.Puts.{is_persistent}
use insta_works.Cfg.{Cfg, Parson, is_object, get_json_obj, set_file, load_object, load_root, load}
use insta_works.Cfg.Load.{Loads, IsFinite, each-Loaded, get_json_obj-Loaded}
use insta_works.Cfg.Names.{cfg}

module _ {Address Regex : Type 0} (p : Platform Address Regex) where
  -- `store'` has valid tables, the criteria of `store`, and its values but for persistent settings; it
  -- is within its criteria if `store` is.
  pub record Settles (store store' : ValStore Address Regex) : Type 0 where
    pub valid : IsStore store'
    pub admitted : IsAdmitted p store → IsAdmitted p store'
    pub names : store'.names ≡ store.names
    pub controlled : store'.controlled ≡ store.controlled
    pub others :
        (h : ℕ) → is_persistent (criteria_at store h) ≡ false → value_at store' h ≡ value_at store h

  Settles-refl : (store : ValStore Address Regex) → IsStore store → Settles store store
  Settles-refl store v = record {
    valid = v;
    admitted = λ a. a;
    names = refl;
    controlled = refl;
    others = λ h e. refl;
  }

  settled :
      {Value : Type 0} (c c' : Cfg Address Regex Value) → Loads p c c' → Settles c.store c'.store
  settled c c' w = record {
    valid = w.valid;
    admitted = w.admitted;
    names = w.names;
    controlled = w.controlled;
    others = w.others;
  }

  module _ {Value Object Double : Type 0} (mem : ℕ → Bool) (json : Parson Value Object Double) where
    -- Whether a file was parsed to an object.
    abbrev pub is_config : Option Value → Bool
    is_config none = false
    is_config (some root) = is_object (json.value_get_type (some root))

    -- The JSON value that the call forgets to free.
    abbrev pub forgotten : Option Value → List Value
    forgotten none = []
    forgotten (some root) = if is_object (json.value_get_type (some root)) then [] else root ∷ []

    -- What iw_cfg_load leaves, given the file and the value that it was parsed to.
    pub record LoadsFile (c : Cfg Address Regex Value) (name : Option (List ℕ))
        (root : Option Value) (r : Bool × Cfg Address Regex Value) : Type 0 where
      pub returns : r.0 ≡ is_config root
      pub settles : Settles c.store r.1.store
      pub live : r.1.live ≡ forgotten root ++ c.live
      pub copied :
          r.1.file ≡ elim name [ none ↦ c.file | some f ↦ if mem c.allocs then some f else none ]

    abbrev parsed : Option (List ℕ) → Option Value
    parsed none = none
    parsed (some file) = json.parse_file file

    -- The object of the configurations in a root.
    abbrev pub settings_of : Option Value → Option Object
    settings_of root = json.object_get_object (json.value_get_object root) cfg

    -- The outcome of load_root on a configuration whose file name is set.
    abbrev Ends : ℕ → Cfg Address Regex Value → Option Value → Bool → Type 0
    Ends depth c root is_obj =
        (r : Bool × Cfg Address Regex Value) × (load_root p mem json depth c root is_obj ≡ some r)
        × (r.0 ≡ is_config root)
        × Settles c.store r.1.store
        × (r.1.live ≡ forgotten root ++ c.live)
        × (r.1.file ≡ c.file)

    module _ (height : Option Object → ℕ) (fin : IsFinite p mem json height)
        (off : p.tracked ≡ false) (depth : ℕ) where
      load_root-Ends :
          (c : Cfg Address Regex Value) (root : Option Value) (is_obj : Bool)
          → height (settings_of root) < depth
          → is_object (json.value_get_type root) ≡ is_obj
          → IsStore c.store
          → Ends depth c root is_obj
      unfolding load_object
      load_root-Ends c none is_obj lt e v =
          ((false, c), refl, refl, Settles-refl c.store v, refl, refl)
      load_root-Ends c (some root) false lt e v = (
        (false, record c { live = root ∷ c.live }),
        refl,
        sym e,
        Settles-refl c.store v,
        rw e refl,
        refl,
      )
      load_root-Ends c (some root) true lt e v =
          let obj = settings_of (some root) in
          let rooted = record c { live = root ∷ c.live } in
          let (c', done, w) =
            each-Loaded p mem json (λ c idx. get_json_obj p mem json depth c obj idx cfg)
              (λ c idx v. get_json_obj-Loaded p mem json height fin off depth c obj idx cfg lt v)
              (json.object_get_count obj) 0 rooted v in
          (
            (true, record c' { live = drop 1 c'.live }),
            rw (load_object, done) refl,
            sym e,
            settled rooted c' w,
            rw (e, w.live) refl,
            w.file,
          )

      -- iw_cfg_load of a configuration whose store has valid tables that hash by iw_hash_data, where the
      -- objects of a parsed file are a tree that is lower than `depth` and memory is not tracked: it ends. It returns true exactly
      -- if the file was parsed to an object. The tables stay valid, the criteria are as before, no value
      -- changes but of persistent settings, and a store within its criteria stays so. A value that is
      -- parsed and no object is not freed. A given file name is kept in a copy, or lost without memory.
      pub load-LoadsFile :
          (c : Cfg Address Regex Value) (file : Option (List ℕ))
          → height (settings_of (parsed file)) < depth
          → IsStore c.store
          → (r : Bool × Cfg Address Regex Value) × (load p mem json depth c file ≡ some r)
            × LoadsFile c file (parsed file) r
      unfolding load set_file
      load-LoadsFile c none lt v = (
        (false, c),
        refl,
        record { returns = refl; settles = Settles-refl c.store v; live = refl; copied = refl },
      )
      load-LoadsFile c (some file) lt v =
          let root = json.parse_file file in
          let w =
            load_root-Ends (set_file mem c file) root (is_object (json.value_get_type root)) lt refl
              v in
          (w.0, w.1, record { returns = w.2; settles = w.3; live = w.4; copied = w.5 })
