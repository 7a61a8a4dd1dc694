-- ===== src/Cmds.antt =====
-- src/iw_cmds.c, src/iw_cmds_int.h and includes/iw_cmds.h: the tree of commands, whose nodes are known
-- by their addresses, the processing of a command line, and the commands that set the logs. strtok_r is
-- written out as POSIX has it. A command function is known by a number; what is printed is left out.
pub mod Log
pub mod Switch
pub mod Lookup
pub mod Builtin
pub mod Predefined
pub mod Ready
use insta_works.Base.{
  ℕ, zero, suc, Bool, true, false, Option, none, some, List, [], ◌∷◌, ◌++◌, ◌==◌, if◌then◌else◌,
}
use insta_works.Htable.{Htable, init, get, insert, destroy}
use insta_works.Htable.Walk.{get_first, get_next}

pub record CmdInfo : Type 0 where
  pub cmd : List ℕ
  pub info : List ℕ
  pub help : List ℕ
  pub children : Htable ℕ
  pub cmd_fn : Option ℕ
  pub parent : Option ℕ

pub record Cmds : Type 0 where
  pub root : ℕ
  pub infos : ℕ → CmdInfo

pub record ParseInfo : Type 0 where
  pub token : Option (List ℕ)
  pub saveptr : List ℕ

abbrev pub is_blank : ℕ → Bool
is_blank c = c == b' '

unfoldable pub skip_blanks : List ℕ → List ℕ
skip_blanks [] = []
skip_blanks (c ∷ cs) = let rest = skip_blanks cs in if is_blank c then rest else c ∷ cs

-- A token and what follows the blank behind it.
unfoldable pub cut_token : List ℕ → List ℕ × List ℕ
cut_token [] = ([], [])
cut_token (c ∷ cs) =
    let rest = cut_token cs in if is_blank c then ([], cs) else (c ∷ rest.0, rest.1)

unfoldable pub next_token : List ℕ → Option (List ℕ) × List ℕ
unfolding cut_token
next_token [] = (none, [])
next_token (c ∷ cs) = let r = cut_token (c ∷ cs) in (some r.0, r.1)

-- strtok_r with NULL and a blank.
unfoldable pub get_token : ParseInfo → Option (List ℕ) × ParseInfo
unfolding skip_blanks next_token
get_token info =
    let r = next_token (skip_blanks info.saveptr) in (r.0, record { token = r.0; saveptr = r.1 })

-- The loop of iw_cmd_find_parent over the children, each of which is searched by `find`.
unfoldable pub find_below : (find : ℕ → Option ℕ) → ℕ → Htable ℕ → Option ℕ × ℕ → Option ℕ
find_below find zero table r = none
find_below find (suc k) table (none, hash) = none
find_below find (suc k) table (some a, hash) =
    let rest = find_below find k table (get_next table hash) in
    elim (find a) [ some b ↦ some b | none ↦ rest ]

-- iw_cmd_find_parent, on `depth` levels and `rounds` children of each.
unfoldable pub find_parent : (depth rounds : ℕ) → Cmds → Htable ℕ → List ℕ → Option ℕ
unfolding get find_below
find_parent zero rounds c table parent = none
find_parent (suc depth) rounds c table parent = elim (get table (some parent)) [
  | some a ↦ some a
  | none ↦
      find_below (λ a. find_parent depth rounds c (c.infos a).children parent) rounds table
        (get_first table 0)
]

-- How a command line ends: a function was called with its command and what is left of the line, or the
-- help of a node was shown for an unknown command, or for none.
pub data Ran : Type 0 where
  called : ℕ → List ℕ → ParseInfo → Ran
  helped : ℕ → Option (List ℕ) → Ran
  -- The levels are used up.
  running : Ran

-- iw_cmds_process_internal from the node `parent`.
unfoldable pub process_internal : ℕ → Cmds → ℕ → ParseInfo → Ran
unfolding get get_token
process_internal zero c parent info = running
process_internal (suc k) c parent info = elim info.token [
  | none ↦ helped parent none
  | some cmd ↦ elim (get (c.infos parent).children (some cmd)) [
    | none ↦ helped parent (some cmd)
    | some a ↦ elim (c.infos a).cmd_fn [
      | some fn ↦ called fn cmd info
      | none ↦ elim (get_token info).0 [
        | none ↦ helped a none
        | some token ↦ process_internal k c a (get_token info).1
      ]
    ]
  ]
]

-- The result, where `exec` is what the command functions return: help counts as a failure.
unfoldable pub process :
    (exec : ℕ → List ℕ → ParseInfo → Bool) (levels : ℕ) → Cmds → ParseInfo → Option Bool
unfolding process_internal
process exec levels c info = elim (process_internal levels c c.root info) [
  | called fn cmd info' ↦ some (exec fn cmd info')
  | helped a unknown ↦ some false
  | running ↦ none
]

abbrev pub put_info : ℕ → CmdInfo → (ℕ → CmdInfo) → ℕ → CmdInfo
put_info a i f x = if a == x then i else f x

abbrev pub blank_table : Htable ℕ
blank_table = record {
  fn = λ k. 0;
  size = 0;
  iw_mem_alloc = false;
  num_elems = 0;
  collisions = 0;
  table = [];
}

abbrev pub new_info :
    (mem : Bool) → ℕ → (cmd : List ℕ) (cmd_fn : Option ℕ) (info help : List ℕ) → CmdInfo
unfolding init
new_info mem p cmd cmd_fn info help = record {
  cmd = cmd;
  info = info;
  help = help;
  children = (init mem blank_table 32 false none).1;
  cmd_fn = cmd_fn;
  parent = some p;
}

-- The node at `a` is made, and the children of `p` are `table`.
abbrev pub hung : Cmds → ℕ → ℕ → CmdInfo → Htable ℕ → Cmds
hung c p a i table =
    let infos = put_info a i c.infos in
    record c { infos = put_info p (record (infos p) { children = table }) infos }

-- `chunk` is the calloc of the node, whose failure is not looked at: `none` dereferences NULL. `mem` is
-- its own table and `mem'` the node of the parent's table, and the results of neither are looked at.
unfoldable pub add_under :
    (chunk : Option ℕ) (mem mem' : Bool)
    → Cmds
    → ℕ
    → (cmd : List ℕ) (cmd_fn : Option ℕ) (info help : List ℕ) → Option (Bool × Cmds)
unfolding new_info insert
add_under none mem mem' c p cmd cmd_fn info help = none
add_under (some a) mem mem' c p cmd cmd_fn info help =
    let i = new_info mem p cmd cmd_fn info help in
    let table = (insert mem' (put_info a i c.infos p).children (some cmd) (some a)).1 in
    some (true, hung c p a i table)

unfoldable pub parent_of : (depth rounds : ℕ) → Cmds → Option (List ℕ) → Option ℕ
unfolding find_parent
parent_of depth rounds c none = some c.root
parent_of depth rounds c (some parent) = find_parent depth rounds c (c.infos c.root).children parent

unfoldable pub cmd_add :
    (depth rounds : ℕ) (chunk : Option ℕ) (mem mem' : Bool)
    → Cmds
    → (parent : Option (List ℕ)) (cmd : List ℕ) (cmd_fn : Option ℕ) (info help : List ℕ)
    → Option (Bool × Cmds)
unfolding parent_of add_under
cmd_add depth rounds chunk mem mem' c parent cmd cmd_fn info help =
    elim (parent_of depth rounds c parent) [
      | none ↦ some (false, c)
      | some p ↦ add_under chunk mem mem' c p cmd cmd_fn info help
    ]

-- The nodes that are freed, in order, where `delete` does a child; a child is never NULL.
unfoldable pub delete_all : (delete : ℕ → List ℕ) → List (Option ℕ) → List ℕ
delete_all delete [] = []
delete_all delete (none ∷ xs) = delete_all delete xs
delete_all delete (some a ∷ xs) = delete a ++ delete_all delete xs

-- iw_cmds_delete, on `depth` levels.
unfoldable pub cmds_delete : (depth : ℕ) → Cmds → ℕ → List ℕ
unfolding delete_all destroy
cmds_delete zero c a = []
cmds_delete (suc depth) c a =
    delete_all (λ b. cmds_delete depth c b) (destroy (c.infos a).children true).1 ++ a ∷ []

-- The nodes that iw_cmd_exit frees, and the root's table then.
unfoldable pub cmd_exit : (depth : ℕ) → Cmds → List ℕ × Htable ℕ
unfolding delete_all cmds_delete destroy
cmd_exit depth c =
    let r = destroy (c.infos c.root).children true in
    (delete_all (λ b. cmds_delete depth c b) r.1, r.0)
