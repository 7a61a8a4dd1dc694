-- ===== src/WebGui.antt =====
-- src/iw_web_gui.c: the built-in web GUI, as the callback of the web server. A page is what the
-- functions write. What the calls of the value store write to the error buffer is left out, and so is
-- the log.
pub mod Texts
pub mod Pages
pub mod Keeps
pub mod Routes
pub mod Answers
pub mod Rows
use insta_works.Base.{
  ℕ, zero, suc, ◌+◌, Bool, true, false, ◌&&◌, not, Option, none, some, List, [], ◌∷◌, ◌++◌, ◌==◌,
  if◌then◌else◌, ltb, length, drop, get_or, codes, replicate, take,
}
use insta_works.Parse.{cmp}
use insta_works.ValStore.{
  ValStore, Val, Setting, Platform, ValRet, ret_ok, no_such_value, incorrect_type, failed_to_create,
  failed_callback, failed_regexp, unset, number, string, address, get_val,
}
use insta_works.ValStore.Typed.{get_string, set_existing_value, first_value, next_value, val_to_str}
use insta_works.WebReq.{sanitize, Escaping}
use insta_works.WebReq.Request.{WebReq, Parameter, is_post}
use insta_works.WebSrv.{c_text}
use insta_works.Cfg.{Cfg, Parson, assigned}
use insta_works.Cfg.Save.{Saving, save}
use insta_works.Cfg.Names.{cfg_prg_name, cfg_prg_about, cfg_webgui_css_file}
use insta_works.WebGui.Texts.{
  style_sheet, about_opening, about_closing, about_library, head_opening, head_closing,
}

pub data Page : Type 0 where
  pg_none : Page
  pg_about : Page
  pg_runtime : Page
  pg_config : Page

-- The menu, and the page of each entry.
abbrev pub menu : List (List ℕ × Page)
menu =
    (codes "/About", pg_about)
    ∷ (codes "/Run-time", pg_runtime)
    ∷ (codes "/Configuration", pg_config)
    ∷ []

unfoldable pub menu_items : List (List ℕ × Page) → List ℕ
menu_items [] = []
menu_items ((entry, pg) ∷ entries) =
    codes "  <li><a href='"
    ++ drop 1 entry
    ++ codes "'>"
    ++ drop 1 entry
    ++ codes "</a></li>\n"
    ++ menu_items entries

unfoldable pub construct_menu : List ℕ
unfolding menu_items
construct_menu = codes "<ul id='menu'>\n" ++ menu_items menu ++ codes "</ul>\n"

-- What `%s` prints: the C library's text for NULL.
abbrev pub shown : Option (List ℕ) → List ℕ
shown none = codes "(null)"
shown (some text) = text

-- The loop of iw_web_gui_construct_web_page over the menu; the last entry that matches counts.
unfoldable pub menu_page : WebReq → List (List ℕ × Page) → Page → Page
unfolding cmp
menu_page req [] pg = pg
menu_page req ((entry, page) ∷ entries) pg =
    menu_page req entries (if cmp entry req.buff req.path then page else pg)

unfoldable pub page_of : WebReq → Page
unfolding menu_page cmp
page_of req =
    let pg =
      if ltb 0 req.path.len && get_or req.buff req.path.start 0 == b'/'
      then menu_page req menu pg_none
      else pg_none in
    if cmp (codes "/") req.buff req.path then pg_about else pg

-- Whether the call reports an error.
abbrev pub is_failure : ValRet → Bool
is_failure ret_ok = false
is_failure no_such_value = false
is_failure _ = true

abbrev pub failure_text : List ℕ → List ℕ → List ℕ
failure_text name value =
    codes "<p>Error: Failed to assigne value '" ++ name ++ codes "=" ++ value ++ codes "'</p>\n"

module _ {Address Regex : Type 0} (p : Platform Address Regex) where
  -- `css` gives the text of a file that can be opened.
  unfoldable pub construct_style_sheet :
      (css : List ℕ → Option (List ℕ)) → ValStore Address Regex → List ℕ
  unfolding get_string
  construct_style_sheet css store = elim (get_string store cfg_webgui_css_file) [
    | none ↦ style_sheet
    | some file ↦
        if ltb 0 (length file)
        then elim (css file) [ none ↦ style_sheet | some text ↦ text ]
        else style_sheet
  ]

  unfoldable pub construct_about_page : ValStore Address Regex → List ℕ
  unfolding get_string
  construct_about_page store =
      let prg = shown (get_string store cfg_prg_name) in
      codes "<h1>About '" ++ prg ++ codes "'</h1>\n" ++ elim (get_string store cfg_prg_about) [
        | none ↦ about_opening ++ prg ++ about_closing ++ about_library
        | some about ↦ codes "<p>" ++ about ++ codes "</p>\n"
      ]

  -- A row of the configuration page, from the value, what iw_val_to_str leaves in its buffer when it
  -- writes nothing, and what iw_web_req_sanitize finds in its own.
  unfoldable pub config_value : List ℕ → List ℕ → Val Address → Bool × Escaping
  unfolding val_to_str sanitize
  config_value value_buff output_buff value =
      sanitize (c_text (val_to_str p value.v 128 value_buff).1) output_buff

  unfoldable pub row_text : Val Address → Escaping → List ℕ
  unfolding c_text
  row_text value output =
      codes "<tr>\n  <td>"
      ++ value.name
      ++ codes "</td>\n  <td><input type='text' name='"
      ++ value.name
      ++ codes "' value='"
      ++ c_text output.buff
      ++ codes "'></td>\n</tr>\n"

  -- `none`: the row was written behind the end of its buffer, into the stack.
  unfoldable pub config_row : List ℕ → List ℕ → Val Address → Option (List ℕ)
  unfolding config_value row_text
  config_row value_buff output_buff value =
      let output = (config_value value_buff output_buff value).1 in
      if output.overrun then none else some (row_text value output)

  abbrev pub both : Option (List ℕ) → Option (List ℕ) → Option (List ℕ)
  both none rest = none
  both (some row) none = none
  both (some row) (some rows) = some (row ++ rows)

  -- The loop over the values in `k` rounds.
  unfoldable pub config_rows :
      ValStore Address Regex → List ℕ → List ℕ → ℕ → Option (Val Address) × ℕ → Option (List ℕ)
  unfolding config_row next_value
  config_rows store value_buff output_buff zero r = some []
  config_rows store value_buff output_buff (suc k) (none, token) = some []
  config_rows store value_buff output_buff (suc k) (some value, token) =
      both (config_row value_buff output_buff value)
        (config_rows store value_buff output_buff k (next_value store token))

  abbrev pub framed : Option (List ℕ) → Option (List ℕ)
  framed none = none
  framed (some rows) = some (
      codes "<h1>Configuration Settings</h1>\n<form method='post'>\n<table class='data'>\n"
      ++ codes "<tr><th>Name</th><th>Value</th></tr>\n"
      ++ rows
      ++ codes "</table>\n<input type='submit' name='Apply'>\n</form>\n")

  unfoldable pub construct_config_page :
      ℕ → List ℕ → List ℕ → ValStore Address Regex → Option (List ℕ)
  unfolding config_rows first_value
  construct_config_page rounds value_buff output_buff store =
      framed (config_rows store value_buff output_buff rounds (first_value store 0))

-- `runtime` is what the program's callback writes, if it has one.
unfoldable pub construct_runtime_page : (runtime : Option (List ℕ)) → List ℕ
construct_runtime_page none = codes "<h1>Run-time Statistics</h1>\n"
construct_runtime_page (some text) = codes "<h1>Run-time Statistics</h1>\n" ++ text
