-- ===== src/WebGui/Answers.antt =====
-- Which requests the callback of src/iw_web_gui.c answers.
use insta_works.Base.{
  ℕ, ◌+◌, ◌≤◌, ◌≡◌, refl, sym, ap, ◌∙◌, Bool, true, false, ◌||◌, Bool-cases, inl, inr, Option, none,
  some, List, [], arith, length, codes, same_text,
}
use insta_works.Parse.{cmp}
use insta_works.Parse.Slice.{slice}
use insta_works.ValStore.{Platform}
use insta_works.ValStore.Typed.{get_string}
use insta_works.WebReq.Request.{WebReq}
use insta_works.WebReq.Request.Bounds.{IsBounded}
use insta_works.Cfg.{Cfg, Parson}
use insta_works.Cfg.Names.{cfg_prg_name}
use insta_works.WebGui.{
  Page, pg_none, pg_about, pg_runtime, pg_config, page_of, construct_style_sheet, shown,
}
use insta_works.WebGui.Pages.{
  Gui, Answer, construct_body, page_head, whole_page, answer_page, construct_web_page,
  construct_response,
}
use insta_works.WebGui.Routes.{named, page_of-named, cmp-same_text, no_nul-IsString}

abbrev has_page : Page → Bool
has_page pg_none = false
has_page _ = true

-- The paths with a page, and that of the style sheet.
abbrev pub is_served : List ℕ → Bool
is_served path =
    same_text path (codes "/style.css")
    || same_text path (codes "/")
    || same_text path (codes "/About")
    || same_text path (codes "/Run-time")
    || same_text path (codes "/Configuration")

has_page-named :
    (path : List ℕ)
    → (same_text path (codes "/style.css") || has_page (named path)) ≡ is_served path
has_page-named path = grind (arith, Bool-cases)

module _ {Address Regex Value Object Double : Type 0} (p : Platform Address Regex) (mem : ℕ → Bool)
    (json : Parson Value Object Double) where
  -- A call of the callback with the configuration `c`, for a path.
  pub record Answers (c : Cfg Address Regex Value) (path : List ℕ) (a : Answer Address Regex Value)
      : Type 0 where
    pub result : a.result ≡ is_served path
    pub refused : a.result ≡ false → (a.page ≡ []) × (a.cfg ≡ c)

  -- The same, for what is known of the path.
  record Outcome (c : Cfg Address Regex Value) (served : Bool) (a : Answer Address Regex Value)
      : Type 0 where
    result : a.result ≡ served
    refused : a.result ≡ false → (a.page ≡ []) × (a.cfg ≡ c)

  accepted :
      (c : Cfg Address Regex Value) (a : Answer Address Regex Value)
      → a.result ≡ true
      → Outcome c true a
  accepted c a e = record {
    result = e;
    refused = λ f. let clash : true ≡ false = sym e ∙ f in absurd cc;
  }

  whole_page-result :
      (head : List ℕ) (o : Option (List ℕ × Cfg Address Regex Value))
      (a : Answer Address Regex Value)
      → whole_page p mem json head o ≡ some a
      → a.result ≡ true
  whole_page-result head none a e = absurd cc
  whole_page-result head (some q) a e = cc

  answer_page-Outcome :
      (gui : Gui) (req : WebReq) (c : Cfg Address Regex Value) (pg : Page)
      → (a : Answer Address Regex Value) → answer_page p mem json gui req c pg ≡ some a
      → Outcome c (has_page pg) a
  unfolding answer_page
  answer_page-Outcome gui req c pg_none a e = record { result = cc; refused = λ f. (cc, cc) }
  answer_page-Outcome gui req c pg_about a e = accepted c a (
      whole_page-result (page_head (shown (get_string c.store cfg_prg_name)))
        (construct_body p mem json gui req c pg_about) a e)
  answer_page-Outcome gui req c pg_runtime a e = accepted c a (
      whole_page-result (page_head (shown (get_string c.store cfg_prg_name)))
        (construct_body p mem json gui req c pg_runtime) a e)
  answer_page-Outcome gui req c pg_config a e = accepted c a (
      whole_page-result (page_head (shown (get_string c.store cfg_prg_name)))
        (construct_body p mem json gui req c pg_config) a e)

  -- The web GUI's callback on a request whose indices lie in its bytes, where it dereferences no NULL
  -- and no row of the configuration page is written behind its buffer:
  -- it returns true exactly for the paths of the style sheet, the root and the three entries of the
  -- menu, each byte for byte. For any other path it has written nothing and left the configuration as
  -- it was.
  pub construct_response-Answers :
      (gui : Gui) (req : WebReq) (c : Cfg Address Regex Value) (a : Answer Address Regex Value)
      → IsBounded req
      → construct_response p mem json gui req c ≡ some a
      → Answers c (slice req.buff req.path) a
  unfolding construct_response construct_web_page
  construct_response-Answers gui req c a b e =
      let le : req.path.start + req.path.len ≤ length req.buff = omega (arith, b.path, b.held) in
      let path = slice req.buff req.path in
      let style =
        cmp-same_text (codes "/style.css") req.buff req.path
          (no_nul-IsString (codes "/style.css") refl) le in
      elim (Bool-cases (same_text path (codes "/style.css"))) [
        | inl q ↦
            let found : cmp (codes "/style.css") req.buff req.path ≡ true = style ∙ q in
            let w : a.result ≡ true = sheet gui req c a (rw found at e) in
            let served : is_served path ≡ true = rw q refl in
            let o = accepted c a w in record { result = w ∙ sym served; refused = o.refused }
        | inr q ↦
            let missed : cmp (codes "/style.css") req.buff req.path ≡ false = style ∙ q in
            let o = answer_page-Outcome gui req c (page_of req) a (rw missed at e) in
            let pages : has_page (page_of req) ≡ is_served path =
              ap has_page (page_of-named req le)
              ∙ sym (ap (λ b. b || has_page (named path)) q)
              ∙ has_page-named path in
            record { result = o.result ∙ pages; refused = o.refused }
      ]
    where
      sheet :
          (gui : Gui) (req : WebReq) (c : Cfg Address Regex Value) (a : Answer Address Regex Value)
          → some (record { result = true; page = construct_style_sheet p gui.css c.store; cfg = c })
            ≡ some a
          → a.result ≡ true
      sheet gui req c a e = cc
