-- ===== src/IwList/Unlink.antt =====
-- src/iw_list.c: what taking a node out of a list leaves.
use mathlib.Core.List.{append-nil}
use insta_works.Base.{
  member, ℕ, suc, ◌≡◌, refl, sym, ap, subst, ◌∙◌, false, Option, none, some, List, [], ◌∷◌, ◌++◌,
  arith, ==_refl, length-append, u32, pred32,
}
use insta_works.IwList.{
  IwList, set_at, set_opt, remove, remove_node, bypass, bypass_prev, bypass_next, detach,
}
use insta_works.IwList.Segment.{
  Distinct-take, Distinct-split, first_or, last_or, Linked, member-append, last_or-append,
  last_or-some, Linked-append, Linked-split, write_prev, write_next, write_first, write_last,
  write_prev-first, write_next-last, miss_last,
}
use insta_works.IwList.Splice.{IsList, Loose}

abbrev pick : Option ℕ → Option ℕ → Option ℕ → Option ℕ
pick none v old = v
pick (some a) v old = old

-- The list without the node, whose own links are still there.
abbrev linked_past : Option ℕ → Option ℕ → IwList → IwList
linked_past p n l = record l {
  head = pick p n l.head;
  tail = pick n p l.tail;
  prev = set_opt l.prev n p;
  next = set_opt l.next p n;
}

bypass_both :
    (p n : Option ℕ) (l : IwList) → bypass_next n p (bypass_prev p n l) ≡ linked_past p n l
bypass_both none none l = refl
bypass_both none (some n) l = refl
bypass_both (some p) none l = refl
bypass_both (some p) (some n) l = refl

bypass_prev-next : (p n : Option ℕ) (l : IwList) → (bypass_prev p n l).next ≡ set_opt l.next p n
bypass_prev-next none n l = refl
bypass_prev-next (some p) n l = refl

bypass_prev-prev : (p n : Option ℕ) (l : IwList) → (bypass_prev p n l).prev ≡ l.prev
bypass_prev-prev none n l = refl
bypass_prev-prev (some p) n l = refl

first_or-some : (xs ys : List ℕ) (a : ℕ) → (h : ℕ) × (first_or none (xs ++ a ∷ ys) ≡ some h)
first_or-some [] ys a = (a, refl)
first_or-some (x ∷ xs) ys a = (x, refl)

-- What a call that takes a node out from between `xs` and `ys` returns and leaves.
pub record Unlinks (l : IwList) (xs : List ℕ) (node : ℕ) (ys : List ℕ) (r : Option ℕ × IwList)
    : Type 0 where
  pub follower : r.0 ≡ first_or none ys
  pub left : IsList r.1 (xs ++ ys)
  pub loose : Loose r.1 (xs ++ ys) node
  pub kept : r.1.released ≡ l.released

starts_past :
    {h : Option ℕ} (xs ys : List ℕ) (node : ℕ)
    → h ≡ first_or none (xs ++ node ∷ ys)
    → pick (last_or none xs) (first_or none ys) h ≡ first_or none (xs ++ ys)
starts_past [] ys node e = refl
starts_past (x ∷ xs) ys node e = let t = last_or-some x xs in rw t.1 e

ends_past :
    {t : Option ℕ} (xs ys : List ℕ) (node : ℕ)
    → t ≡ last_or none (xs ++ node ∷ ys)
    → pick (first_or none ys) (last_or none xs) t ≡ last_or none (xs ++ ys)
ends_past xs [] node e = ap (last_or none) (sym (append-nil xs))
ends_past xs (y ∷ ys) node e =
    e ∙ last_or-append none xs (node ∷ y ∷ ys) ∙ sym (last_or-append none xs (y ∷ ys))

count_down : {n c d : ℕ} → c ≡ u32 n → n ≡ suc d → pred32 c ≡ u32 d
count_down e f = omega (arith, e, f)

hit : (f : ℕ → Option ℕ) (a : ℕ) (v : Option ℕ) → set_at f a v a ≡ v
hit f a v = rw (==_refl a) refl

module _ (l : IwList) (xs ys : List ℕ) (node : ℕ) (is : IsList l (xs ++ node ∷ ys)) where
  abbrev p : Option ℕ
  p = last_or none xs

  abbrev n : Option ℕ
  n = first_or none ys

  at_node : (l.prev node ≡ p) × (l.next node ≡ n)
  unfolding Linked
  at_node =
      let parts = Linked-split l.prev l.next none xs (node ∷ ys) none is.linked in
      (parts.1.0, parts.1.1)

  bypassed : bypass node l ≡ linked_past p n l
  bypassed =
      let m = bypass_prev p n l in
      let far = Distinct-take xs ys node is.distinct in
      let out : member node xs ≡ false = ground (arith, far.1, member-append node xs ys) in
      let nx : m.next node ≡ n =
        ap (λ f. f node) (bypass_prev-next p n l) ∙ miss_last l.next xs n node out ∙ at_node.1 in
      let pr : m.prev node ≡ p = ap (λ f. f node) (bypass_prev-prev p n l) ∙ at_node.0 in
      rw (at_node.0, at_node.1, nx, pr) (bypass_both p n l)

  past-Linked :
      Linked
        (set_at (set_opt l.prev n p) node none)
        (set_at (set_opt l.next p n) node none)
        none
        (xs ++ ys)
        none
  unfolding Linked
  past-Linked =
      let parts = Linked-split l.prev l.next none xs (node ∷ ys) none is.linked in
      let after = parts.1.2 in
      let far = Distinct-take xs ys node is.distinct in
      let apart = Distinct-split xs ys far.0 in
      let outx : member node xs ≡ false = ground (arith, far.1, member-append node xs ys) in
      let outy : member node ys ≡ false = ground (arith, far.1, member-append node xs ys) in
      let prev0 = set_opt l.prev n p in
      let next0 = set_opt l.next p n in
      let x0 = write_last l.prev l.next none xs (some node) n apart.0 parts.0 in
      let x1 = write_prev-first l.prev next0 xs ys none n p far.0 x0 in
      let y0 = write_first l.prev l.next (some node) ys none p apart.1 after in
      let y1 = write_next-last prev0 l.next xs ys p none n far.0 y0 in
      let both = Linked-append prev0 next0 none xs ys none x1 y1 in
      let once = write_prev prev0 next0 none (xs ++ ys) none node none far.1 both in
      write_next (set_at prev0 node none) next0 none (xs ++ ys) none node none far.1 once

-- iw_list_remove of a node of the list returns the node that follows it, or NULL, and leaves the
-- list of the other nodes in their order; the node has no links then and is not released.
pub remove-Unlinks :
    (l : IwList) (xs ys : List ℕ) (node : ℕ)
    → IsList l (xs ++ node ∷ ys)
    → Unlinks l xs node ys (remove l (some node))
unfolding remove remove_node
remove-Unlinks l xs ys node is =
    let h = first_or-some xs ys node in
    let past = bypassed l xs ys node is in
    let far = Distinct-take xs ys node is.distinct in
    let outx : member node xs ≡ false = ground (arith, far.1, member-append node xs ys) in
    let head : l.head ≡ some h.0 = is.starts ∙ h.1 in
    let follower : set_opt l.next (last_or none xs) (first_or none ys) node ≡ first_or none ys =
      miss_last l.next xs (first_or none ys) node outx ∙ (at_node l xs ys node is).1 in
    let found : remove l (some node) ≡ remove_node l node =
      ap (λ o. elim o [ none ↦ (none, l) | some h ↦ remove_node l node ]) head in
    let gone : remove_node l node ≡ (
      (linked_past (last_or none xs) (first_or none ys) l).next node,
      detach node (linked_past (last_or none xs) (first_or none ys) l),
    ) =
      ap (λ l'. (l'.next node, detach node l')) past in
    subst (Unlinks l xs node ys) (sym (found ∙ gone)) (record {
      follower = follower;
      left = record {
        starts = starts_past xs ys node is.starts;
        ends = ends_past xs ys node is.ends;
        linked = past-Linked l xs ys node is;
        distinct = far.0;
        counts =
            count_down is.counts (omega (arith, length-append xs (node ∷ ys), length-append xs ys));
      };
      loose = record {
        out = far.1;
        no_prev = hit (set_opt l.prev (first_or none ys) (last_or none xs)) node none;
        no_next = hit (set_opt l.next (last_or none xs) (first_or none ys)) node none;
      };
      kept = refl;
    })
