-- ===== src/WebGui/Routes.antt =====
-- The paths that the web GUI of src/iw_web_gui.c serves.
use insta_works.Base.{
  ℕ, zero, suc, ◌+◌, ◌≤◌, ◌≡◌, refl, sym, ◌∙◌, Bool, true, false, ◌&&◌, Bool-cases, inl, inr, List,
  [], ◌∷◌, arith, ◌==◌, if◌then◌else◌, ltb, length, drop, take, get_or, codes, same_text,
  same_text_refl, same_text_iff,
}
use insta_works.Parse.{ParseIndex, cmp}
use insta_works.Parse.Scan.{IsString}
use insta_works.Parse.Slice.{slice, cmp-slice}
use insta_works.WebReq.Request.{WebReq}
use insta_works.WebGui.{Page, pg_none, pg_about, pg_runtime, pg_config, menu_page, page_of}

-- iw_parse_cmp decides equality with the text of an index that lies in the buffer.
pub cmp-same_text :
    (compare buff : List ℕ) (i : ParseIndex)
    → IsString compare
    → i.start + i.len ≤ length buff
    → cmp compare buff i ≡ same_text (slice buff i) compare
cmp-same_text compare buff i s le =
    let both = cmp-slice compare buff i s le in
    elim (Bool-cases (cmp compare buff i)) [
      | inl e ↦ e ∙ sym (rw (both.0 e) (same_text_refl compare))
      | inr e ↦ elim (Bool-cases (same_text (slice buff i) compare)) [
        | inr f ↦ e ∙ sym f
        | inl f ↦
            let found = both.1 (same_text_iff (slice buff i) compare f) in
            let clash : true ≡ false = sym found ∙ e in absurd cc
      ]
    ]

-- The page of a path.
abbrev pub named : List ℕ → Page
named path =
    if same_text path (codes "/")
    then pg_about
    else if same_text path (codes "/Configuration")
    then pg_config
    else if same_text path (codes "/Run-time")
    then pg_runtime
    else if same_text path (codes "/About")
    then pg_about
    else pg_none

-- A text that begins with a byte is not empty, and begins with it in the buffer.
slice-cons :
    (buff : List ℕ) (start len c : ℕ) (cs : List ℕ)
    → take len (drop start buff) ≡ c ∷ cs
    → (ltb 0 len ≡ true) × (get_or buff start 0 ≡ c)
slice-cons [] zero zero c cs e = absurd cc
slice-cons [] zero (suc len) c cs e = absurd cc
slice-cons [] (suc start) zero c cs e = absurd cc
slice-cons [] (suc start) (suc len) c cs e = absurd cc
slice-cons (x ∷ xs) zero zero c cs e = absurd cc
slice-cons (x ∷ xs) zero (suc len) c cs e = (ground arith, cc)
slice-cons (x ∷ xs) (suc start) len c cs e = slice-cons xs start len c cs e

-- A path that the test for a slash refuses is no entry of the menu.
no_slash :
    (buff : List ℕ) (i : ParseIndex) (cs : List ℕ)
    → (ltb 0 i.len && (get_or buff i.start 0 == b'/')) ≡ false
    → same_text (slice buff i) (b'/' ∷ cs) ≡ false
no_slash buff i cs e = elim (Bool-cases (same_text (slice buff i) (b'/' ∷ cs))) [
  | inr f ↦ f
  | inl f ↦
      let (long, first) =
        slice-cons buff i.start i.len b'/' cs (same_text_iff (slice buff i) (b'/' ∷ cs) f) in
      let both : (ltb 0 i.len && (get_or buff i.start 0 == b'/')) ≡ true = rw (long, first) refl in
      let clash : true ≡ false = sym both ∙ e in absurd cc
]

abbrev no_nul : List ℕ → Bool
no_nul [] = true
no_nul (x ∷ xs) = ltb 0 x && no_nul xs

pub no_nul-IsString : (xs : List ℕ) → no_nul xs ≡ true → IsString xs
no_nul-IsString [] e = tt
no_nul-IsString (x ∷ xs) e = (ground arith, no_nul-IsString xs (ground arith))

pub page_of-named :
    (req : WebReq)
    → req.path.start + req.path.len ≤ length req.buff
    → page_of req ≡ named (slice req.buff req.path)
unfolding page_of menu_page
page_of-named req le =
    let about =
      cmp-same_text (codes "/About") req.buff req.path (no_nul-IsString (codes "/About") refl) le in
    let runtime =
      cmp-same_text (codes "/Run-time") req.buff req.path (no_nul-IsString (codes "/Run-time") refl)
        le in
    let config =
      cmp-same_text (codes "/Configuration") req.buff req.path
        (no_nul-IsString (codes "/Configuration") refl) le in
    let root = cmp-same_text (codes "/") req.buff req.path (no_nul-IsString (codes "/") refl) le in
    elim (Bool-cases (ltb 0 req.path.len && (get_or req.buff req.path.start 0 == b'/'))) [
      | inl g ↦ rw (page_of, g, root, config, runtime, about) refl
      | inr g ↦
          let a = no_slash req.buff req.path (codes "About") g in
          let r = no_slash req.buff req.path (codes "Run-time") g in
          let c = no_slash req.buff req.path (codes "Configuration") g in
          rw (page_of, g, root, c, r, a) refl
    ]
