-- ===== src/WebGui/Rows.antt =====
-- The rows of the configuration page in src/iw_web_gui.c.
use insta_works.Base.{ℕ, ◌≤◌, ◌<◌, ◌≡◌, refl, true, List, [], ◌∷◌, ◌++◌, arith, length, take_all}
use insta_works.Parse.Scan.{IsString}
use insta_works.ValStore.{Platform, Val, string}
use insta_works.ValStore.Typed.{val_to_str}
use insta_works.WebReq.Escape.{escaped, sanitize_overruns}
use insta_works.WebSrv.{c_text}
use insta_works.WebGui.{config_value}

c_text_whole : (text : List ℕ) → IsString text → c_text text ≡ text
unfolding c_text
c_text_whole [] s = refl
c_text_whole (c ∷ cs) s = ground (arith, c_text_whole cs s.1)

module _ {Address Regex : Type 0} (p : Platform Address Regex) where
  -- A setting with a text of at most 127 bytes and no NUL, of which all but the last bytes are already
  -- longer than 128 bytes when they are escaped: the row for it writes behind the 128 bytes that
  -- iw_web_gui_construct_config_page has for the escaped text.
  pub config_value_overruns :
      (value_buff output_buff name v w : List ℕ) (c : ℕ)
      → length (v ++ (c ∷ w)) ≤ 127
      → IsString (v ++ (c ∷ w))
      → length output_buff ≡ 128
      → 128 < length (escaped v)
      → let value : Val Address = record { name = name; v = string (v ++ (c ∷ w)) } in
        (config_value p value_buff output_buff value).1.overrun ≡ true
  unfolding config_value val_to_str
  config_value_overruns value_buff output_buff name v w c short s len long =
      rw (take_all 127 (v ++ (c ∷ w)) short, c_text_whole (v ++ (c ∷ w)) s)
        (sanitize_overruns v w c output_buff (omega (arith, len, long)))
