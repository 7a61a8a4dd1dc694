-- ===== src/WebGui/Keeps.antt =====
-- The web GUI of src/iw_web_gui.c against the criteria of the configuration.
use insta_works.Base.{
  ℕ, ◌+◌, ◌≡◌, refl, ap, ◌∙◌, Bool, true, false, Bool-cases, Option-cases, inl, inr, Option, none,
  some, List, [], ◌∷◌, ◌++◌, if◌then◌else◌, codes,
}
use insta_works.Parse.{cmp}
use insta_works.ValStore.{
  ValStore, Val, Payload, Setting, Platform, unset, number, string, address, get_val,
  incorrect_type, failed_regexp,
}
use insta_works.ValStore.Typed.{get_string, set_existing_value}
use insta_works.ValStore.Admit.{IsStore, IsAdmitted}
use insta_works.ValStore.Puts.{set_existing_value-Puts}
use insta_works.WebReq.Request.{WebReq, Parameter, is_post}
use insta_works.Cfg.{Cfg, Parson, assigned}
use insta_works.Cfg.Save.{save}
use insta_works.Cfg.Names.{cfg_prg_name}
use insta_works.Cfg.Save.Written.{save-store}
use insta_works.WebGui.{
  Page, pg_none, pg_about, pg_runtime, pg_config, page_of, construct_style_sheet,
  construct_config_page, shown,
}
use insta_works.WebGui.Pages.{
  Gui, Answer, set_null, set_parameter, report, assign_loop, saved, assign_config_values,
  with_page_text, with_rows, construct_body, page_head, whole_page, answer_page, construct_web_page,
  construct_response,
}

module _ {Address Regex : Type 0} (p : Platform Address Regex) where
  -- `store'` has valid tables and the criteria of `store`; it is within them if `store` is.
  pub record KeepsCriteria (store store' : ValStore Address Regex) : Type 0 where
    pub valid : IsStore store'
    pub admitted : IsAdmitted p store → IsAdmitted p store'
    pub names : store'.names ≡ store.names
    pub controlled : store'.controlled ≡ store.controlled

  Keeps-refl : (store : ValStore Address Regex) → IsStore store → KeepsCriteria store store
  Keeps-refl store v = record { valid = v; admitted = λ a. a; names = refl; controlled = refl }

  Keeps-trans :
      (a b c : ValStore Address Regex) → KeepsCriteria a b → KeepsCriteria b c → KeepsCriteria a c
  Keeps-trans a b c first second = record {
    valid = second.valid;
    admitted = λ w. second.admitted (first.admitted w);
    names = second.names ∙ first.names;
    controlled = second.controlled ∙ first.controlled;
  }

  module _ {Value Object Double : Type 0} (mem : ℕ → Bool) (json : Parson Value Object Double) where
    set_null-Keeps :
        (store : ValStore Address Regex) (o : Option (Val Address)) (s : Setting Address Regex)
        → IsStore store
        → set_null p mem json store o ≡ some s
        → KeepsCriteria store s.store
    set_null-Keeps store none s v e =
        let same : store ≡ s.store = cc in rw (← same) (Keeps-refl store v)
    set_null-Keeps store (some val) s v e = of_payload val.v e
      where
        of_payload :
            (q : Payload Address)
            → elim q [
              | unset ↦ some (record { ret = incorrect_type; store = store; freed = [] })
              | number n ↦ none
              | string t ↦ none
              | address a ↦ some (record { ret = failed_regexp; store = store; freed = [] })
            ]
              ≡ some s
            → KeepsCriteria store s.store
        of_payload unset e = let same : store ≡ s.store = cc in rw (← same) (Keeps-refl store v)
        of_payload (number n) e = absurd cc
        of_payload (string t) e = absurd cc
        of_payload (address a) e =
            let same : store ≡ s.store = cc in rw (← same) (Keeps-refl store v)

    set_parameter-Keeps :
        (c : Cfg Address Regex Value) (name value : Option (List ℕ)) (s : Setting Address Regex)
        → IsStore c.store
        → set_parameter p mem json c name value ≡ some s
        → KeepsCriteria c.store s.store
    unfolding set_parameter
    set_parameter-Keeps c none value s v e = absurd cc
    set_parameter-Keeps c (some name) none s v e =
        set_null-Keeps c.store (get_val c.store name) s v e
    set_parameter-Keeps c (some name) (some value) s v e =
        let r = set_existing_value p (mem c.allocs) (mem (c.allocs + 1)) c.store name value in
        let w =
          set_existing_value-Puts p (mem c.allocs) (mem (c.allocs + 1)) c.store name value v in
        let same : r.store ≡ s.store = cc in
        rw (← same) (record {
          valid = w.valid;
          admitted = w.admitted;
          names = w.names;
          controlled = w.controlled;
        })

    assign_loop-Keeps :
        (params : List Parameter) (c : Cfg Address Regex Value) (out : List ℕ)
        → (r : List ℕ × Cfg Address Regex Value) → IsStore c.store
        → assign_loop p mem json params c out ≡ some r
        → KeepsCriteria c.store r.1.store
    unfolding assign_loop assigned
    assign_loop-Keeps [] c out r v e =
        let same : c.store ≡ r.1.store = cc in rw (← same) (Keeps-refl c.store v)
    assign_loop-Keeps (param ∷ params) c out r v e =
        elim (Option-cases (set_parameter p mem json c param.name param.value)) [
          | inl q ↦ let gone : none ≡ some r = rw (assign_loop, q) at e in absurd cc
          | inr (s, q) ↦
              let w = set_parameter-Keeps c param.name param.value s v q in
              let c' = assigned p mem c s in
              let out' = out ++ report p mem json param.name param.value s.ret in
              let rest : assign_loop p mem json params c' out' ≡ some r =
                rw (assign_loop, q) at e in
              Keeps-trans c.store s.store r.1.store w
                (assign_loop-Keeps params c' out' r w.valid rest)
        ]

    saved-Keeps :
        (rounds : ℕ) (o : Option (List ℕ × Cfg Address Regex Value))
        → (r : List ℕ × Cfg Address Regex Value) (c : Cfg Address Regex Value)
        → ((q : List ℕ × Cfg Address Regex Value) → o ≡ some q → KeepsCriteria c.store q.1.store)
        → saved p mem json rounds o ≡ some r
        → KeepsCriteria c.store r.1.store
    unfolding saved
    saved-Keeps rounds none r c f e = absurd cc
    saved-Keeps rounds (some (out, c')) r c f e =
        let same : (save p mem json rounds c' none).cfg.store ≡ r.1.store = cc in
        rw (← same, save-store p mem json rounds c') (f (out, c') refl)

    Body : Cfg Address Regex Value → Option (List ℕ × Cfg Address Regex Value) → Type 0
    Body c o = (r : List ℕ × Cfg Address Regex Value) → o ≡ some r → KeepsCriteria c.store r.1.store

    unchanged :
        (c : Cfg Address Regex Value) (out : List ℕ) → IsStore c.store → Body c (some (out, c))
    unfolding Body
    unchanged c out v r e =
        let same : c.store ≡ r.1.store = cc in rw (← same) (Keeps-refl c.store v)

    with_rows-Keeps :
        (gui : Gui) (c : Cfg Address Regex Value) (o : Option (List ℕ × Cfg Address Regex Value))
        → Body c o
        → Body c (with_rows p mem json gui o)
    unfolding Body
    with_rows-Keeps gui c none f r e = absurd cc
    with_rows-Keeps gui c (some q) f r e =
        of_text (construct_config_page p gui.rounds gui.value_buff gui.output_buff q.1.store) e
      where
        of_text :
            (o : Option (List ℕ))
            → with_page_text p mem json q.0 q.1 o ≡ some r
            → KeepsCriteria c.store r.1.store
        of_text none e = absurd cc
        of_text (some text) e = let same : q.1.store ≡ r.1.store = cc in rw (← same) (f q refl)

    assigned-Keeps :
        (rounds : ℕ) (req : WebReq) (c : Cfg Address Regex Value)
        → IsStore c.store
        → Body c (assign_config_values p mem json rounds req c)
    unfolding Body assign_config_values
    assigned-Keeps rounds req c v r e =
        saved-Keeps rounds (assign_loop p mem json req.parameters c []) r c
          (λ q same. assign_loop-Keeps req.parameters c [] q v same) e

    construct_body-Keeps :
        (gui : Gui) (req : WebReq) (c : Cfg Address Regex Value) (pg : Page)
        → IsStore c.store
        → Body c (construct_body p mem json gui req c pg)
    unfolding construct_body
    construct_body-Keeps gui req c pg_about v = unchanged c _ v
    construct_body-Keeps gui req c pg_runtime v = unchanged c _ v
    construct_body-Keeps gui req c pg_none v = unchanged c _ v
    construct_body-Keeps gui req c pg_config v =
        with_rows-Keeps gui c _ (posted (is_post req.method))
      where
        posted :
            (post : Bool)
            → Body c
                (if post then assign_config_values p mem json gui.rounds req c else some ([], c))
        posted true = assigned-Keeps gui.rounds req c v
        posted false = unchanged c [] v

    whole_page-Keeps :
        (head : List ℕ) (c : Cfg Address Regex Value)
        → (o : Option (List ℕ × Cfg Address Regex Value)) (a : Answer Address Regex Value)
        → Body c o
        → whole_page p mem json head o ≡ some a
        → KeepsCriteria c.store a.cfg.store
    unfolding Body
    whole_page-Keeps head c none a f e = absurd cc
    whole_page-Keeps head c (some q) a f e =
        let same : q.1.store ≡ a.cfg.store = cc in rw (← same) (f q refl)

    abbrev head_of : ValStore Address Regex → List ℕ
    head_of store = page_head (shown (get_string store cfg_prg_name))

    answer_page-Keeps :
        (gui : Gui) (req : WebReq) (c : Cfg Address Regex Value) (pg : Page)
        → (a : Answer Address Regex Value) → IsStore c.store
        → answer_page p mem json gui req c pg ≡ some a
        → KeepsCriteria c.store a.cfg.store
    unfolding answer_page
    answer_page-Keeps gui req c pg_none a v e =
        let same : c.store ≡ a.cfg.store = cc in rw (← same) (Keeps-refl c.store v)
    answer_page-Keeps gui req c pg_about a v e =
        whole_page-Keeps (head_of c.store) c _ a (construct_body-Keeps gui req c pg_about v) e
    answer_page-Keeps gui req c pg_runtime a v e =
        whole_page-Keeps (head_of c.store) c _ a (construct_body-Keeps gui req c pg_runtime v) e
    answer_page-Keeps gui req c pg_config a v e =
        whole_page-Keeps (head_of c.store) c _ a (construct_body-Keeps gui req c pg_config v) e

    -- The web GUI's callback, for any request, on a configuration whose store has valid tables that hash
    -- by iw_hash_data. Where it dereferences no NULL and no row of the configuration page is written
    -- behind its buffer, the tables stay valid, no setting gets other
    -- criteria, and a store that is within its criteria stays so: a value that a client posts is set only
    -- if it passes them.
    pub construct_response-KeepsCriteria :
        (gui : Gui) (req : WebReq) (c : Cfg Address Regex Value) (a : Answer Address Regex Value)
        → IsStore c.store
        → construct_response p mem json gui req c ≡ some a
        → KeepsCriteria c.store a.cfg.store
    unfolding construct_response construct_web_page
    construct_response-KeepsCriteria gui req c a v e =
        elim (Bool-cases (cmp (codes "/style.css") req.buff req.path)) [
          | inr q ↦ answer_page-Keeps gui req c (page_of req) a v (rw q at e)
          | inl q ↦
              let made : Answer Address Regex Value = record {
                result = true;
                page = construct_style_sheet p gui.css c.store;
                cfg = c;
              } in
              let done : some made ≡ some a = rw q at e in
              let same : c.store ≡ a.cfg.store = ap store_of done in
              rw (← same) (Keeps-refl c.store v)
        ]
      where
        store_of : Option (Answer Address Regex Value) → ValStore Address Regex
        store_of none = c.store
        store_of (some b) = b.cfg.store
