-- ===== src/Cfg/Setup.antt =====
-- iw_cfg_init of src/iw_cfg.c: the settings of the library with their criteria and defaults.
use insta_works.Base.{ℕ, ◌+◌, Bool, true, false, Option, none, some, List, [], ◌∷◌, if◌then◌else◌}
use insta_works.Base.Int.{ℤ, pos}
use insta_works.ValStore.{Platform, initialize}
use insta_works.Cfg.Names.{
  cfg_cmd_port, cfg_foreground, cfg_foreground_opt, cfg_daemonize, cfg_daemonize_opt, cfg_loglevel,
  cfg_loglevel_opt, cfg_allow_quit, cfg_crashhandler_enable, cfg_crashhandler_file,
  cfg_memtrack_enable, cfg_memtrack_size, cfg_healthcheck_enable, cfg_webgui_enable,
  cfg_webgui_css_file, cfg_syslog_size, cfg_prg_name, cfg_prg_about, def_foreground_opt,
  def_daemonize_opt, def_loglevel_opt, def_crashhandler_file, def_webgui_css_file, def_prg_name,
  crit_bool, crit_port, crit_char, msg_port, msg_bool, msg_char,
}
use insta_works.Cfg.{Cfg, Entry, add_number, add_string}

-- A call of iw_cfg_add_number or iw_cfg_add_string.
pub data Addition : Type 0 where
  adds_number : Entry → ℤ → Addition
  adds_string : Entry → Option (List ℕ) → Addition

-- The macros ADD_NUM, ADD_PORT, ADD_BOOL, ADD_STR and ADD_CHAR.
abbrev pub add_num : List ℕ → Bool → Option (List ℕ) → Option (List ℕ) → ℕ → Addition
add_num n p m r def = adds_number (record { name = n; persist = p; msg = m; regexp = r }) (pos def)

abbrev pub add_port : List ℕ → Bool → ℕ → Addition
add_port n p def = add_num n p (some msg_port) (some crit_port) def

abbrev pub add_bool : List ℕ → Bool → ℕ → Addition
add_bool n p def = add_num n p (some msg_bool) (some crit_bool) def

abbrev pub add_str : List ℕ → Bool → Option (List ℕ) → Option (List ℕ) → Option (List ℕ) → Addition
add_str n p m r def = adds_string (record { name = n; persist = p; msg = m; regexp = r }) def

abbrev pub add_char : List ℕ → Bool → List ℕ → Addition
add_char n p def = add_str n p (some msg_char) (some crit_char) (some def)

-- The calls of iw_cfg_init, in a build with memory tracking.
abbrev pub additions : List Addition
additions =
    add_port cfg_cmd_port true 10000
    ∷ add_bool cfg_foreground false 0
    ∷ add_char cfg_foreground_opt true def_foreground_opt
    ∷ add_bool cfg_daemonize false 0
    ∷ add_char cfg_daemonize_opt true def_daemonize_opt
    ∷ add_num cfg_loglevel true none none 0
    ∷ add_char cfg_loglevel_opt true def_loglevel_opt
    ∷ add_bool cfg_allow_quit true 1
    ∷ add_bool cfg_crashhandler_enable true 1
    ∷ add_str cfg_crashhandler_file true none none (some def_crashhandler_file)
    ∷ add_bool cfg_memtrack_enable true 1
    ∷ add_num cfg_memtrack_size true none none 10000
    ∷ add_bool cfg_healthcheck_enable true 1
    ∷ add_bool cfg_webgui_enable true 1
    ∷ add_str cfg_webgui_css_file true none none (some def_webgui_css_file)
    ∷ add_num cfg_syslog_size true none none 10000
    ∷ add_str cfg_prg_name true none none (some def_prg_name)
    ∷ add_str cfg_prg_about false none none none
    ∷ []

module _ {Address Regex Value : Type 0} (p : Platform Address Regex) (mem : ℕ → Bool) where
  unfoldable pub add_all : Cfg Address Regex Value → List Addition → Cfg Address Regex Value
  unfolding add_number add_string
  add_all c [] = c
  add_all c (adds_number e def ∷ xs) = add_all (add_number p mem c e def) xs
  add_all c (adds_string e def ∷ xs) = add_all (add_string p mem c e def) xs

  -- The store when it was initialized.
  abbrev pub started : Cfg Address Regex Value → Cfg Address Regex Value
  started c = record c {
    initialized = true;
    store = (initialize (mem c.allocs) (mem (c.allocs + 1)) c.store true).1;
    allocs = c.allocs + 2;
  }

  unfoldable pub cfg_init : Cfg Address Regex Value → Cfg Address Regex Value
  unfolding initialize add_all
  cfg_init c = if c.initialized then c else add_all (started c) additions
