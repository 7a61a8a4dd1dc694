-- ===== src/Tests/Commands.antt =====
-- The commands of src/iw_cmds.c: a command "q" under the root, and the predefined ones.
use insta_works.Base.{
  ℕ, suc, ◌≡◌, refl, Bool, true, Option, none, some, List, [], ◌∷◌, ◌==◌, if◌then◌else◌, codes,
}
use insta_works.Base.Int.{ℤ, pos}
use insta_works.Cmds.Builtin.{fn_of, cmd_syslog_clear, cmd_quit}
use insta_works.Cmds.Predefined.{cmd_init, add_all, predefined}
use insta_works.Hash.{hash_data, hash_loop, hash_step}
use insta_works.Htable.{Htable, init, insert, replace, find, push, add_node, get}
use insta_works.Htable.Valid.{lookup}
use insta_works.Cmds.{
  Cmds, ParseInfo, Ran, called, helped, process_internal, get_token, skip_blanks, next_token,
  cut_token, cmd_add, parent_of, find_parent, add_under,
}
use insta_works.Cmds.Log.{on_off}
use insta_works.Tests.Locks.{empty}

is_on : on_off (111 ∷ 110 ∷ []) ≡ some true
unfolding on_off
is_on = refl

abbrev bare : Cmds
bare = record {
  root = 0;
  infos = λ a. record {
    cmd = [];
    info = [];
    help = [];
    children = empty;
    cmd_fn = none;
    parent = none;
  };
}

bernstein : empty.fn ≡ hash_data
unfolding init hash_data hash_loop hash_step
bernstein = refl

nothing : lookup empty (hash_data (some (113 ∷ []))) ≡ none
unfolding lookup init find hash_data hash_loop hash_step
nothing = refl

abbrev pub table_q : Htable ℕ
table_q = (insert true empty (some (113 ∷ [])) (some 1)).1

abbrev pub with_q : Cmds
with_q = record {
  root = 0;
  infos = λ a. record {
    cmd = [];
    info = [];
    help = [];
    children = if a == 0 then table_q else empty;
    cmd_fn = if a == 1 then some 7 else none;
    parent = none;
  };
}

pub has_q : get table_q (some (113 ∷ [])) ≡ some 1
unfolding get insert replace find push add_node init hash_data hash_loop hash_step
has_q = refl

abbrev parsed : List ℕ → List ℕ → ParseInfo
parsed token rest = record { token = some token; saveptr = rest }

-- The tree that iw_cmd_init makes where all memory is given.
started : Option ℤ → Option (Bool × Cmds)
started allow = cmd_init (λ n. some (suc n)) (λ n. true) (λ n. true) true bare allow

ran : Option (Bool × Cmds) → ParseInfo → Option Ran
ran none info = none
ran (some r) info = some (process_internal 3 r.1 0 info)

clears :
    ran (started none) (parsed (codes "syslog") (codes " clear"))
    ≡ some (called (fn_of cmd_syslog_clear) (codes "clear") (parsed (codes "clear") []))
unfolding started ran process_internal get_token skip_blanks next_token cut_token cmd_init add_all
    predefined cmd_add parent_of find_parent add_under get insert replace find push add_node init
    hash_data hash_loop hash_step
clears = refl

quits :
    ran (started (some (pos 1))) (parsed (codes "quit") [])
    ≡ some (called (fn_of cmd_quit) (codes "quit") (parsed (codes "quit") []))
unfolding started ran process_internal cmd_init add_all predefined cmd_add parent_of find_parent
    add_under get insert replace find push add_node init hash_data hash_loop hash_step
quits = refl

stays :
    ran (started (some (pos 0))) (parsed (codes "quit") []) ≡ some (helped 0 (some (codes "quit")))
unfolding started ran process_internal cmd_init add_all predefined cmd_add parent_of find_parent
    add_under get insert replace find push add_node init hash_data hash_loop hash_step
stays = refl
