-- ===== src/Cfg/Names.antt =====
-- includes/iw_cfg.h: the names of the settings, and the defaults and criteria that are strings.
use insta_works.Base.{ℕ, List, ◌++◌, codes}

abbrev pub cfg : List ℕ
cfg = codes "cfg"

abbrev pub cfg_opt : List ℕ
cfg_opt = cfg ++ codes ".opt"

abbrev pub cfg_cmd_port : List ℕ
cfg_cmd_port = cfg ++ codes ".cmdport"

abbrev pub cfg_foreground : List ℕ
cfg_foreground = cfg ++ codes ".foreground"

abbrev pub cfg_foreground_opt : List ℕ
cfg_foreground_opt = cfg_opt ++ codes ".foreground"

abbrev pub cfg_daemonize : List ℕ
cfg_daemonize = cfg ++ codes ".daemonize"

abbrev pub cfg_daemonize_opt : List ℕ
cfg_daemonize_opt = cfg_opt ++ codes ".daemonize"

abbrev pub cfg_loglevel : List ℕ
cfg_loglevel = cfg ++ codes ".loglvl"

abbrev pub cfg_loglevel_opt : List ℕ
cfg_loglevel_opt = cfg_opt ++ codes ".loglvl"

abbrev pub cfg_allow_quit : List ℕ
cfg_allow_quit = cfg ++ codes ".allowquit"

abbrev pub cfg_crashhandler_enable : List ℕ
cfg_crashhandler_enable = cfg ++ codes ".crashhandler.enable"

abbrev pub cfg_crashhandler_file : List ℕ
cfg_crashhandler_file = cfg ++ codes ".crashhandler.file"

abbrev pub cfg_memtrack_enable : List ℕ
cfg_memtrack_enable = cfg ++ codes ".memtrack.enable"

abbrev pub cfg_memtrack_size : List ℕ
cfg_memtrack_size = cfg ++ codes ".memtrack.size"

abbrev pub cfg_healthcheck_enable : List ℕ
cfg_healthcheck_enable = cfg ++ codes ".healthcheck.enable"

abbrev pub cfg_webgui_enable : List ℕ
cfg_webgui_enable = cfg ++ codes ".webgui.enable"

abbrev pub cfg_webgui_css_file : List ℕ
cfg_webgui_css_file = cfg ++ codes ".webgui.css"

abbrev pub cfg_syslog_size : List ℕ
cfg_syslog_size = cfg ++ codes ".syslog.size"

abbrev pub cfg_prg_name : List ℕ
cfg_prg_name = cfg ++ codes ".prgname"

abbrev pub cfg_prg_about : List ℕ
cfg_prg_about = cfg ++ codes ".prgabout"

abbrev pub def_foreground_opt : List ℕ
def_foreground_opt = codes "f"

abbrev pub def_daemonize_opt : List ℕ
def_daemonize_opt = codes "d"

abbrev pub def_loglevel_opt : List ℕ
def_loglevel_opt = codes "l"

abbrev pub def_crashhandler_file : List ℕ
def_crashhandler_file = codes "/tmp/callstack.txt"

abbrev pub def_webgui_css_file : List ℕ
def_webgui_css_file = codes ""

abbrev pub def_prg_name : List ℕ
def_prg_name = codes "InstaWorks"

abbrev pub crit_bool : List ℕ
crit_bool = codes "^[0-1]$"

abbrev pub crit_port : List ℕ
crit_port =
    codes "^([0-9]{1,4}|[1-5][0-9]{4}|6[0-4][0-9]{3}|65[0-4][0-9]{2}|655[0-2][0-9]|6553[0-5])$"

abbrev pub crit_char : List ℕ
crit_char = codes "^.$"

abbrev pub msg_port : List ℕ
msg_port = codes "Must be between 0 and 65535"

abbrev pub msg_bool : List ℕ
msg_bool = codes "Must be 0 or 1"

abbrev pub msg_char : List ℕ
msg_char = codes "Must be a single character"
