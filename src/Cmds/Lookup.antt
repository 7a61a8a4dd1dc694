-- ===== src/Cmds/Lookup.antt =====
-- Which command function src/iw_cmds.c calls for a line, and that a command that was added is found.
use insta_works.Base.{
  ℕ, zero, suc, ◌<◌, ◌≡◌, refl, ap, ◌∙◌, Bool, true, false, Option, none, some, List, [], ◌∷◌,
  arith, ◌==◌, ==_refl, length,
}
use insta_works.Hash.{hash_data}
use insta_works.Htable.{Htable, node, get, insert}
use insta_works.Htable.Valid.{IsValid, lookup}
use insta_works.Htable.Insert.{Inserts, insert-Inserts}
use insta_works.Htable.Writes.{get-lookup, item_of}
use insta_works.Cmds.{
  Cmds, CmdInfo, ParseInfo, get_token, next_token, skip_blanks, called, helped, process_internal,
  put_info, new_info, hung, add_under, parent_of, cmd_add,
}

-- The tokens of what is left of a line.
pub data Words : List ℕ → List (List ℕ) → Type 0 where
  no_more : {s : List ℕ} → (next_token (skip_blanks s)).0 ≡ none → Words s []
  word :
      {s s' w : List ℕ} {ws : List (List ℕ)}
      → next_token (skip_blanks s) ≡ (some w, s')
      → Words s' ws
      → Words s (w ∷ ws)

-- From the node `p`, the words lead to a node with the function `fn`, by its name `cmd`.
pub data Leads (c : Cmds) : ℕ → List (List ℕ) → ℕ → List ℕ → Type 0 where
  here :
      {p a fn : ℕ} {w : List ℕ} {ws : List (List ℕ)}
      → get (c.infos p).children (some w) ≡ some a
      → (c.infos a).cmd_fn ≡ some fn
      → Leads c p (w ∷ ws) fn w
  below :
      {p a fn : ℕ} {w cmd : List ℕ} {ws : List (List ℕ)}
      → get (c.infos p).children (some w) ≡ some a
      → (c.infos a).cmd_fn ≡ none
      → Leads c a ws fn cmd
      → Leads c p (w ∷ ws) fn cmd

module _ (c : Cmds) where
  process-here :
      (k p a fn : ℕ) (w s : List ℕ)
      → get (c.infos p).children (some w) ≡ some a
      → (c.infos a).cmd_fn ≡ some fn
      → process_internal (suc k) c p (record { token = some w; saveptr = s })
        ≡ called fn w (record { token = some w; saveptr = s })
  unfolding process_internal
  process-here k p a fn w s e f = rw (process_internal, e, f) refl

  process-below :
      (k p a : ℕ) (w w' s s' : List ℕ)
      → get (c.infos p).children (some w) ≡ some a
      → (c.infos a).cmd_fn ≡ none
      → next_token (skip_blanks s) ≡ (some w', s')
      → process_internal (suc k) c p (record { token = some w; saveptr = s })
        ≡ process_internal k c a (record { token = some w'; saveptr = s' })
  unfolding process_internal get_token
  process-below k p a w w' s s' e f g =
      rw (process_internal, e, f)
        (ap
          (λ (r : Option (List ℕ) × List ℕ). elim r.0 [
            | none ↦ helped a none
            | some t ↦ process_internal k c a (record { token = r.0; saveptr = r.1 })
          ])
          g)

  -- If the words of a command line lead from a node to a command function, by nodes without a function
  -- before it, then iw_cmds_process_internal calls that function, with the name that it stands under; it
  -- descends at most as many levels as there are words.
  pub process_internal-Leads :
      (k p fn : ℕ) (w cmd s : List ℕ) (ws : List (List ℕ))
      → Words s ws
      → Leads c p (w ∷ ws) fn cmd
      → length ws < k
      → (info : ParseInfo) × (process_internal k c p (record { token = some w; saveptr = s })
          ≡ called fn cmd info)
  process_internal-Leads zero p fn w cmd s ws left l lt = absurd (omega arith)
  process_internal-Leads (suc k) p fn w cmd s ws left (here {a = a} e f) lt =
      (record { token = some w; saveptr = s }, process-here k p a fn w s e f)
  process_internal-Leads (suc k) p fn w cmd s [] left (below e f l) lt = absurd (nowhere l)
    where
      nowhere : {a : ℕ} → ¬ Leads c a [] fn cmd
      nowhere l = elim l [ ]
  process_internal-Leads (suc k) p fn w cmd s (w' ∷ ws) (word {s' = s'} t left)
        (below {a = a} e f l) lt =
      let rest = process_internal-Leads k a fn w' cmd s' ws left l (omega arith) in
      (rest.0, process-below k p a w w' s s' e f t ∙ rest.1)

module _ (c : Cmds) (a fn : ℕ) (cmd info help : List ℕ) where
  inserted-get :
      (t : Htable ℕ) (r : Bool × Htable ℕ)
      → t.fn ≡ hash_data
      → r.0 ≡ true
      → Inserts true t (hash_data (some cmd)) (some a) r
      → get r.1 (some cmd) ≡ some a
  inserted-get t (false, t') bernstein e ins = absurd cc
  inserted-get t (true, t') bernstein e ins =
      let h = hash_data (some cmd) in
      let hash : t'.fn (some cmd) ≡ h = ap (λ f. f (some cmd)) (ins.fn ∙ bernstein) in
      let there : lookup t' h ≡ some (node h (some a)) = ins.lookups h ∙ rw (==_refl h) refl in
      get-lookup t' (some cmd) ∙ ap (λ x. item_of (lookup t' x)) hash ∙ ap item_of there

  -- What a call that adds a command under the root leaves: the line of that word calls its function.
  pub record Adds (r : Option (Bool × Cmds)) : Type 0 where
    pub left : Cmds
    pub returns : r ≡ some (true, left)
    pub root : left.root ≡ c.root
    pub calls :
        (k : ℕ) (s : List ℕ)
        → process_internal (suc k) left left.root (record { token = some cmd; saveptr = s })
          ≡ called fn cmd (record { token = some cmd; saveptr = s })

  -- If the name of a command is not among the children of the root, whose valid table hashes as
  -- iw_htable_insert does, and there is memory, then iw_cmd_add without a parent returns true, and a line
  -- that begins with the name calls the function of the command.
  pub cmd_add-Adds :
      (depth rounds : ℕ)
      → IsValid (c.infos c.root).children
      → (c.infos c.root).children.fn ≡ hash_data
      → lookup (c.infos c.root).children (hash_data (some cmd)) ≡ none
      → (a == c.root) ≡ false
      → Adds (cmd_add depth rounds (some a) true true c none cmd (some fn) info help)
  unfolding cmd_add parent_of add_under new_info
  cmd_add-Adds depth rounds v bernstein absent apart =
      let root = c.root in
      let t = (c.infos root).children in
      let i = new_info true root cmd (some fn) info help in
      let ins = insert-Inserts true t (some cmd) (some a) v in
      let t' = insert true t (some cmd) (some a) in
      let found = inserted-get t t' bernstein (ins.returns ∙ rw absent refl) ins in
      let left = hung c root a i t'.1 in
      let same : put_info a i c.infos root ≡ c.infos root = rw apart refl in
      let other : (root == a) ≡ false = ground arith in
      let children : get (left.infos root).children (some cmd) ≡ some a = rw (==_refl root) found in
      let fn_is : (left.infos a).cmd_fn ≡ some fn = rw (other, ==_refl a) refl in
      record {
        left = left;
        returns =
            ap
              (λ (x : CmdInfo).
                some (true, hung c root a i (insert true x.children (some cmd) (some a)).1))
              same;
        root = refl;
        calls = λ k s. process-here left k root a fn cmd s children fn_is;
      }
