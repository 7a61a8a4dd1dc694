-- ===== src/Cmds/Ready.antt =====
-- What iw_cmd_init of src/iw_cmds.c returns.
use insta_works.Base.{ℕ, suc, ◌≡◌, refl, ap, Bool, true, false, Option, none, some, List, [], ◌∷◌}
use insta_works.Base.Int.{ℤ}
use insta_works.Cmds.{Cmds, put_info, parent_of, add_under, cmd_add}
use insta_works.Cmds.Predefined.{Entry, predefined, add_all, cmd_init, root_info, all_added}

-- A call with a chunk for the node returns.
cmd_add-returns :
    (depth rounds a : ℕ) (mem mem' : Bool) (c : Cmds) (e : Entry)
    → (r : Bool × Cmds) × (cmd_add depth rounds
          (some a)
          mem
          mem'
          c
          e.parent
          e.cmd
          e.cmd_fn
          e.info
          e.help
        ≡ some r)
unfolding cmd_add add_under
cmd_add-returns depth rounds a mem mem' c e =
    elim (parent_of depth rounds c e.parent)
      as (λ x.
        (r : Bool × Cmds) × ((elim x [
          | none ↦ some (false, c)
          | some p ↦ add_under (some a) mem mem' c p e.cmd e.cmd_fn e.info e.help
        ])
          ≡ some r)) [ none ↦ (_, refl) | some p ↦ (_, refl) ]

module _ (address : ℕ → ℕ) (mem mem' : ℕ → Bool) where
  add_all-returns :
      (n : ℕ) (c : Cmds) (es : List Entry)
      → (c' : Cmds) × (add_all (λ k. some (address k)) mem mem' n c es ≡ some c')
  unfolding add_all
  add_all-returns n c [] = (c, refl)
  add_all-returns n c (e ∷ es) =
      let r = cmd_add-returns 2 16 (address n) (mem n) (mem' n) c e in
      let rest = add_all-returns (suc n) r.0.1 es in (rest.0, rw (add_all, r.1) rest.1)

  -- If every command gets a chunk for its node, then iw_cmd_init returns true, whether or not the tables
  -- have memory.
  cmd_init-returns :
      (ready : Bool) (c : Cmds) (allow : Option ℤ)
      → (c' : Cmds) × (cmd_init (λ k. some (address k)) mem mem' ready c allow ≡ some (true, c'))
  unfolding cmd_init
  cmd_init-returns ready c allow =
      let made = record c { infos = put_info c.root (root_info ready) c.infos } in
      let r = add_all-returns 0 made (predefined allow) in (r.0, ap all_added r.1)
