-- ===== src/Tests/Config.antt =====
-- The configuration of src/iw_cfg.c and the web GUI of src/iw_web_gui.c on a small store.
use insta_works.Base.{
  ℕ, ◌+◌, ◌<◌, ◌≡◌, refl, Bool, true, false, Option, none, some, List, [], ◌∷◌, ◌++◌, arith, length,
  codes, replicate,
}
use insta_works.Base.Int.{ℤ, pos}
use insta_works.ValStore.{
  ValStore, Val, initialize, add_name_internal, string, set_val, put, check, check_regexp,
}
use insta_works.Hash.{hash_data, hash_loop, hash_step}
use insta_works.Htable.{init, insert, get, replace, remove}
use insta_works.Htable.Valid.{nodes}
use insta_works.Htable.Walk.Visits.{items}
use insta_works.WebReq.Request.{WebReq, received, method_post}
use insta_works.WebReq.Request.Bounds.{IsBounded, HeadersWithin}
use insta_works.Parse.{cmp, strncmp_eq}
use insta_works.Parse.Slice.{slice}
use insta_works.Cfg.{Cfg, Parson, JsonType, json_object, json_number, json_error, load}
use insta_works.Cfg.Load.{IsFinite}
use insta_works.Cfg.File.{LoadsFile, load-LoadsFile}
use insta_works.Cfg.Save.{named_file, save}
use insta_works.Cfg.Save.Written.{Saves, save-Saves}
use insta_works.WebGui.{config_value, page_of, menu_page}
use insta_works.WebGui.Pages.{
  Gui, Answer, construct_response, construct_web_page, answer_page, construct_body,
  assign_config_values, assign_loop, saved, set_parameter,
}
use insta_works.WebGui.Keeps.{KeepsCriteria, construct_response-KeepsCriteria}
use insta_works.WebGui.Answers.{Answers, construct_response-Answers}
use insta_works.WebReq.{escape_char}
use insta_works.WebReq.Escape.{escaped}
use insta_works.WebGui.Routes.{no_nul-IsString}
use insta_works.WebGui.Rows.{config_value_overruns}
use insta_works.ValStore.Admit.{IsStore}
use insta_works.ValStore.Keep.{set_val-Sets}
use insta_works.ValStore.Names.{add_name_internal-AddsName}
use insta_works.Tests.Store.{
  platform, raw, named, named-IsStore, port, port_criteria, eighty, empty, empty-IsStore,
}
use mathlib.Core.List.{flatten}

-- A file with the object "cfg", which has one number.
data Doc : Type 0 where
  root : Doc
  inner : Doc
  leaf : Doc

data Obj : Type 0 where
  outer : Obj
  inside : Obj

abbrev type_of : Option Doc → JsonType
type_of (some root) = json_object
type_of (some inner) = json_object
type_of (some leaf) = json_number
type_of none = json_error

abbrev object_of : Option Doc → Option Obj
object_of (some root) = some outer
object_of (some inner) = some inside
object_of _ = none

abbrev value_of : Option Obj → Option (List ℕ) → Option Doc
value_of (some outer) name = some inner
value_of (some inside) name = some leaf
value_of none name = none

abbrev below : Option Obj → List ℕ → Option Obj
below (some outer) name = some inside
below _ name = none

abbrev json : Parson Doc Obj ℤ
json = record {
  parse_file = λ file. some root;
  value_get_type = type_of;
  value_get_string = λ val. none;
  value_get_number = λ val. pos 81;
  value_get_boolean = λ val. pos 0;
  value_get_object = object_of;
  object_get_count = λ obj. 1;
  object_get_name = λ obj idx. some port;
  object_get_value = value_of;
  object_get_object = below;
  to_int = λ n. n;
  init_object = some root;
  serialize = λ members file. true;
}

abbrev height : Option Obj → ℕ
height none = 0
height (some inside) = 1
height (some outer) = 2

abbrev plenty : ℕ → Bool
plenty n = true

json-IsFinite : IsFinite platform plenty json height
json-IsFinite = record { lower = lower }
  where
    lower :
        (obj : Option Obj) (name : Option (List ℕ))
        → type_of (value_of obj name) ≡ json_object
        → height (object_of (value_of obj name)) < height obj
    lower none name e = absurd cc
    lower (some outer) name e = omega arith
    lower (some inside) name e = absurd cc

abbrev file_name : List ℕ
file_name = codes "cfg.json"

abbrev config : Cfg ℕ (List ℕ) Doc
config = record {
  store = named;
  file = none;
  initialized = true;
  freed = [];
  live = [];
  allocs = 0;
}

load-LoadsFile_example :
    (r : Bool × Cfg ℕ (List ℕ) Doc) × (load platform plenty json 3 config (some file_name) ≡ some r)
    × LoadsFile platform plenty json config (some file_name) (some root) r
load-LoadsFile_example =
    load-LoadsFile platform plenty json height json-IsFinite refl 3 config (some file_name)
      (omega arith) named-IsStore

-- A store with a value of a persistent setting.
abbrev kept : ValStore ℕ (List ℕ)
kept = (add_name_internal true empty port (record port_criteria { persist = true })).1

kept-IsStore : IsStore kept
kept-IsStore =
    (add_name_internal-AddsName platform true empty port (record port_criteria { persist = true })
      empty-IsStore).valid

abbrev filled : ValStore ℕ (List ℕ)
filled = (set_val platform true kept port eighty).store

filled-IsStore : IsStore filled
filled-IsStore = (set_val-Sets platform true kept port eighty kept-IsStore).valid

abbrev full : Cfg ℕ (List ℕ) Doc
full = record config { store = filled }

filled-items : items (nodes filled.table) ≡ some eighty ∷ []
unfolding initialize init add_name_internal insert set_val put get replace check check_regexp
    flatten remove hash_data hash_loop hash_step
filled-items = refl

save-Saves_example :
    Saves platform plenty json
      (named_file platform plenty json full (some file_name))
      (eighty ∷ [])
      (save platform plenty json (length (nodes filled.table) + 1) full (some file_name))
save-Saves_example =
    save-Saves platform plenty json full (some file_name) (eighty ∷ []) filled-IsStore filled-items

abbrev gui : Gui
gui = record {
  css = λ name. none;
  runtime = none;
  rounds = 2;
  value_buff = [];
  output_buff = replicate 128 0;
}

-- A post of a setting to the configuration page.
abbrev post : WebReq
unfolding received
post = record (received (codes "/Configuration")) {
  path = record { start = 0; len = 14 };
  method = method_post;
  parameters = record { name = some port; value = some (codes "81") } ∷ [];
}

abbrev given : Option (Answer ℕ (List ℕ) Doc) → Answer ℕ (List ℕ) Doc
given none = record { result = false; page = []; cfg = config }
given (some a) = a

post_answers :
    construct_response platform plenty json gui post config
    ≡ some (given (construct_response platform plenty json gui post config))
unfolding construct_response construct_web_page answer_page page_of menu_page cmp strncmp_eq
    received construct_body assign_config_values assign_loop saved set_parameter add_name_internal
    initialize hash_data hash_loop hash_step
post_answers = refl

construct_response-KeepsCriteria_example :
    KeepsCriteria platform named
      (given (construct_response platform plenty json gui post config)).cfg.store
construct_response-KeepsCriteria_example =
    construct_response-KeepsCriteria platform plenty json gui post config
      (given (construct_response platform plenty json gui post config)) named-IsStore post_answers

post-IsBounded : IsBounded post
unfolding received HeadersWithin
post-IsBounded = record {
  small = omega arith;
  held = omega arith;
  point = omega arith;
  version = omega arith;
  uri = omega arith;
  path = omega arith;
  content = omega arith;
  headers = tt;
}

construct_response-Answers_example :
    Answers platform plenty json config
      (slice post.buff post.path)
      (given (construct_response platform plenty json gui post config))
construct_response-Answers_example =
    construct_response-Answers platform plenty json gui post config
      (given (construct_response platform plenty json gui post config)) post-IsBounded post_answers

-- Twenty-two quotes.
abbrev quotes : List ℕ
quotes = replicate 22 34

abbrev zeros : List ℕ
zeros = replicate 128 0

abbrev quoted : Val ℕ
quoted = record { name = port; v = string (quotes ++ (34 ∷ [])) }

config_value_overruns_example : (config_value platform [] zeros quoted).1.overrun ≡ true
unfolding escaped escape_char
config_value_overruns_example =
    config_value_overruns platform [] zeros port quotes [] 34 (omega arith)
      (no_nul-IsString (quotes ++ (34 ∷ [])) refl) refl (omega arith)

abbrev before : Cfg ℕ (List ℕ) Doc
before = record config { store = raw; initialized = false }
