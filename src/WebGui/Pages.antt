-- ===== src/WebGui/Pages.antt =====
-- src/iw_web_gui.c: the pages that depend on the request, and the callback itself.
use insta_works.Base.{
  ℕ, ◌+◌, Bool, true, false, Option, none, some, List, [], ◌∷◌, ◌++◌, if◌then◌else◌, codes,
}
use insta_works.Parse.{cmp}
use insta_works.ValStore.{
  ValStore, Val, unset, number, string, address, Setting, Platform, ValRet, no_such_value,
  incorrect_type, failed_regexp, get_val,
}
use insta_works.ValStore.Typed.{get_string, set_existing_value}
use insta_works.WebReq.Request.{WebReq, Parameter, is_post}
use insta_works.Cfg.{Cfg, Parson, assigned}
use insta_works.Cfg.Save.{save}
use insta_works.Cfg.Names.{cfg_prg_name}
use insta_works.WebGui.{
  Page, pg_none, pg_about, pg_runtime, pg_config, page_of, shown, construct_menu,
  construct_style_sheet, construct_about_page, construct_config_page, construct_runtime_page,
  is_failure, failure_text,
}
use insta_works.WebGui.Texts.{head_opening, head_closing}

-- What the callback's functions depend on besides the configuration: the text of a style sheet file,
-- what the program's callback writes, the rounds of the loops over the values, and what is in the two
-- buffers of a row before it is made.
pub record Gui : Type 0 where
  pub css : List ℕ → Option (List ℕ)
  pub runtime : Option (List ℕ)
  pub rounds : ℕ
  pub value_buff : List ℕ
  pub output_buff : List ℕ

-- The result, what was written, and the configuration.
pub record Answer (Address Regex Value : Type 0) : Type 0 where
  pub result : Bool
  pub page : List ℕ
  pub cfg : Cfg Address Regex Value

-- The text in front of the body, for the name of the program.
unfoldable pub page_head : List ℕ → List ℕ
unfolding construct_menu
page_head prg =
    head_opening
    ++ prg
    ++ head_closing
    ++ codes "<body>\n<h1 style='text-align:center'>"
    ++ prg
    ++ codes "</h1>\n"
    ++ construct_menu

module _ {Address Regex Value Object Double : Type 0} (p : Platform Address Regex) (mem : ℕ → Bool)
    (json : Parson Value Object Double) where
  -- iw_val_store_set_existing_value of a value that is NULL, which iw_util_strtoll and the copy of a
  -- string dereference, and iw_ip_str_to_addr does not.
  abbrev pub set_null :
      ValStore Address Regex → Option (Val Address) → Option (Setting Address Regex)
  set_null store none = some (record { ret = no_such_value; store = store; freed = [] })
  set_null store (some val) = elim val.v [
    | unset ↦ some (record { ret = incorrect_type; store = store; freed = [] })
    | number n ↦ none
    | string s ↦ none
    | address a ↦ some (record { ret = failed_regexp; store = store; freed = [] })
  ]

  -- The call for a parameter, of which a text is NULL if it could not be decoded; `none` where NULL is
  -- dereferenced.
  unfoldable pub set_parameter :
      Cfg Address Regex Value → Option (List ℕ) → Option (List ℕ) → Option (Setting Address Regex)
  unfolding set_existing_value get_val
  set_parameter c none value = none
  set_parameter c (some name) none = set_null c.store (get_val c.store name)
  set_parameter c (some name) (some value) =
      some (set_existing_value p (mem c.allocs) (mem (c.allocs + 1)) c.store name value)

  -- What the round writes.
  abbrev pub report : Option (List ℕ) → Option (List ℕ) → ValRet → List ℕ
  report name value ret = if is_failure ret then failure_text (shown name) (shown value) else []

  -- The loop over the parameters.
  unfoldable pub assign_loop :
      List Parameter → Cfg Address Regex Value → List ℕ → Option (List ℕ × Cfg Address Regex Value)
  unfolding set_parameter assigned
  assign_loop [] c out = some (out, c)
  assign_loop (param ∷ params) c out = elim (set_parameter c param.name param.value) [
    | none ↦ none
    | some s ↦ assign_loop params (assigned p mem c s) (out ++ report param.name param.value s.ret)
  ]

  unfoldable pub saved :
      ℕ → Option (List ℕ × Cfg Address Regex Value) → Option (List ℕ × Cfg Address Regex Value)
  unfolding save
  saved rounds none = none
  saved rounds (some (out, c)) = some (out, (save p mem json rounds c none).cfg)

  -- What is written, and the configuration.
  unfoldable pub assign_config_values :
      ℕ → WebReq → Cfg Address Regex Value → Option (List ℕ × Cfg Address Regex Value)
  unfolding assign_loop saved
  assign_config_values rounds req c = saved rounds (assign_loop req.parameters c [])

  abbrev pub with_page_text :
      List ℕ → Cfg Address Regex Value → Option (List ℕ) → Option (List ℕ × Cfg Address Regex Value)
  with_page_text out c none = none
  with_page_text out c (some text) = some (out ++ text, c)

  abbrev pub with_rows :
      Gui → Option (List ℕ × Cfg Address Regex Value) → Option (List ℕ × Cfg Address Regex Value)
  with_rows gui none = none
  with_rows gui (some (out, c)) =
      with_page_text out c
        (construct_config_page p gui.rounds gui.value_buff gui.output_buff c.store)

  -- The body of a page, by the switch; `none` where NULL is dereferenced or a row overruns its buffer.
  unfoldable pub construct_body :
      Gui → WebReq → Cfg Address Regex Value → Page → Option (List ℕ × Cfg Address Regex Value)
  unfolding construct_about_page construct_config_page construct_runtime_page assign_config_values
  construct_body gui req c pg_about = some (construct_about_page p c.store, c)
  construct_body gui req c pg_runtime = some (construct_runtime_page gui.runtime, c)
  construct_body gui req c pg_config =
      with_rows gui
        (if is_post req.method then assign_config_values gui.rounds req c else some ([], c))
  construct_body gui req c pg_none = some ([], c)

  abbrev pub whole_page :
      List ℕ → Option (List ℕ × Cfg Address Regex Value) → Option (Answer Address Regex Value)
  whole_page head none = none
  whole_page head (some (body, c)) =
      some (record { result = true; page = head ++ body ++ codes "</body>\n</html>\n"; cfg = c })

  unfoldable pub answer_page :
      Gui → WebReq → Cfg Address Regex Value → Page → Option (Answer Address Regex Value)
  unfolding construct_body get_string page_head
  answer_page gui req c pg_none = some (record { result = false; page = []; cfg = c })
  answer_page gui req c pg =
      whole_page (page_head (shown (get_string c.store cfg_prg_name))) (construct_body gui req c pg)

  unfoldable pub construct_web_page :
      Gui → WebReq → Cfg Address Regex Value → Option (Answer Address Regex Value)
  unfolding page_of answer_page
  construct_web_page gui req c = answer_page gui req c (page_of req)

  -- The callback; `none` where NULL is dereferenced or a row of the configuration page overruns its
  -- buffer.
  unfoldable pub construct_response :
      Gui → WebReq → Cfg Address Regex Value → Option (Answer Address Regex Value)
  unfolding cmp construct_style_sheet construct_web_page
  construct_response gui req c =
      if cmp (codes "/style.css") req.buff req.path
      then some (record { result = true; page = construct_style_sheet p gui.css c.store; cfg = c })
      else construct_web_page gui req c
