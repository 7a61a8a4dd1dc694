-- ===== src/IwList/Splice.antt =====
-- src/iw_list.c: the lists that a chain of nodes stands for, and what adding, inserting and removing a
-- node does to them.
use mathlib.Core.List.{append-nil, append_assoc}
use insta_works.Base.{
  member, ℕ, suc, ◌+◌, ◌≡◌, refl, sym, subst, ◌∙◌, false, Option, none, some, List, [], ◌∷◌, ◌++◌,
  arith, ==_refl, length, length-append, u32,
}
use insta_works.IwList.{
  IwList, set_at, set_opt, add, add_behind, one_more, insert_before, insert_after, link_from,
  link_back,
}
use insta_works.IwList.Between.{one, hit, prev_put, put-Linked}
use insta_works.IwList.Segment.{
  Distinct, Distinct-put, first_or, last_or, Linked, member-append, last_or-append, last_or-some,
  Linked-append, Linked-split, write_prev, write_next, write_last, miss_first, miss_last,
}

-- The list stands for the nodes `xs`, in this order.
pub record IsList (l : IwList) (xs : List ℕ) : Type 0 where
  pub starts : l.head ≡ first_or none xs
  pub ends : l.tail ≡ last_or none xs
  pub linked : Linked l.prev l.next none xs none
  pub distinct : Distinct xs
  pub counts : l.num_elems ≡ u32 (length xs)

-- A node that is in no list.
pub record Loose (l : IwList) (xs : List ℕ) (node : ℕ) : Type 0 where
  pub out : member node xs ≡ false
  pub no_prev : l.prev node ≡ none
  pub no_next : l.next node ≡ none

single : (x : ℕ) → Distinct (x ∷ [])
unfolding Distinct
single x = (refl, tt)

count_up : {n c d : ℕ} → c ≡ u32 n → d ≡ suc n → u32 (c + 1) ≡ u32 d
count_up e f = omega (arith, e, f)

-- iw_list_add of a node that is in no list and has no links turns a list of the nodes xs, doubly
-- linked from head to tail without repetition and counted on 32 bits, into the list of xs and the
-- node.
pub add-IsList :
    (l : IwList) (xs : List ℕ) (node : ℕ)
    → IsList l xs
    → Loose l xs node
    → IsList (add l node) (xs ++ node ∷ [])
unfolding add add_behind
add-IsList l [] node is loose =
    let link = one l.prev l.next none node none loose.no_prev loose.no_next in
    rw is.ends (record {
      starts = refl;
      ends = refl;
      linked = link;
      distinct = single node;
      counts = count_up {n = 0} is.counts refl;
    })
add-IsList l (x ∷ xs) node is loose =
    let t = last_or-some x xs in
    let tail : l.tail ≡ some t.0 = is.ends ∙ t.1 in
    let prev' = set_at l.prev node (some t.0) in
    let next0 = set_at l.next t.0 (some node) in
    let next' = set_at next0 node none in
    let hung : Linked l.prev next0 none (x ∷ xs) (some node) =
      subst (λ o. Linked l.prev (set_opt l.next o (some node)) none (x ∷ xs) (some node)) t.1
        (write_last l.prev l.next none (x ∷ xs) none (some node) is.distinct is.linked) in
    let front : Linked prev' next' none (x ∷ xs) (some node) =
      write_prev l.prev next' none (x ∷ xs) (some node) node (some t.0) loose.out
        (write_next l.prev next0 none (x ∷ xs) (some node) node none loose.out hung) in
    let back : Linked prev' next' (last_or none (x ∷ xs)) (node ∷ []) none =
      one prev' next' (last_or none (x ∷ xs)) node none (rw (==_refl node, t.1) refl)
        (rw (==_refl node) refl) in
    rw tail (record {
      starts = is.starts;
      ends = sym (last_or-append none (x ∷ xs) (node ∷ []));
      linked = Linked-append prev' next' none (x ∷ xs) (node ∷ []) none front back;
      distinct =
          Distinct-put (x ∷ xs) [] node (rw append-nil is.distinct) (rw append-nil loose.out);
      counts = count_up is.counts (omega (arith, length-append (x ∷ xs) (node ∷ [])));
    })

length_put : (xs zs : List ℕ) (a : ℕ) → length (xs ++ a ∷ zs) ≡ suc (length (xs ++ zs))
length_put xs zs a = omega (arith, length-append xs (a ∷ zs), length-append xs zs)

starts_at : {h : Option ℕ} (xs zs : List ℕ) → h ≡ first_or none (xs ++ zs) → h ≡ first_or h xs
starts_at [] zs e = refl
starts_at (x ∷ xs) zs e = e

link_from-IsList :
    (m : IwList) (node : ℕ) (xs zs : List ℕ) (o : Option ℕ)
    → last_or none xs ≡ o
    → m.head ≡ first_or m.head xs
    → m.tail ≡ last_or none (xs ++ node ∷ zs)
    → Linked m.prev (set_opt m.next o (some node)) none (xs ++ node ∷ zs) none
    → Distinct (xs ++ node ∷ zs)
    → u32 (m.num_elems + 1) ≡ u32 (length (xs ++ node ∷ zs))
    → IsList (one_more (link_from o node m)) (xs ++ node ∷ zs)
link_from-IsList m node [] zs none e h t l d c = record {
  starts = refl;
  ends = t;
  linked = l;
  distinct = d;
  counts = c;
}
link_from-IsList m node [] zs (some p) e h t l d c = absurd cc
link_from-IsList m node (x ∷ xs) zs none e h t l d c =
    let last = last_or-some x xs in absurd (let bad : none ≡ some last.0 = sym e ∙ last.1 in cc)
link_from-IsList m node (x ∷ xs) zs (some p) e h t l d c = record {
  starts = h;
  ends = t;
  linked = l;
  distinct = d;
  counts = c;
}

link_back-IsList :
    (m : IwList) (node : ℕ) (xs zs : List ℕ) (o : Option ℕ)
    → first_or none zs ≡ o
    → m.head ≡ first_or none (xs ++ node ∷ zs)
    → m.tail ≡ last_or m.tail zs
    → Linked (set_opt m.prev o (some node)) m.next none (xs ++ node ∷ zs) none
    → Distinct (xs ++ node ∷ zs)
    → u32 (m.num_elems + 1) ≡ u32 (length (xs ++ node ∷ zs))
    → IsList (one_more (link_back o node m)) (xs ++ node ∷ zs)
link_back-IsList m node xs [] none e h t l d c = record {
  starts = h;
  ends = sym (last_or-append none xs (node ∷ []));
  linked = l;
  distinct = d;
  counts = c;
}
link_back-IsList m node xs [] (some p) e h t l d c = absurd cc
link_back-IsList m node xs (z ∷ zs) none e h t l d c = absurd cc
link_back-IsList m node xs (z ∷ zs) (some p) e h t l d c = record {
  starts = h;
  ends = t ∙ sym (last_or-append none xs (node ∷ z ∷ zs));
  linked = l;
  distinct = d;
  counts = c;
}

-- iw_list_insert_before with a place in the list and a node that is not in it puts the node right
-- in front of the place; the rest of the list is as it was.
pub insert_before-IsList :
    (l : IwList) (xs ys : List ℕ) (insert node : ℕ)
    → IsList l (xs ++ insert ∷ ys)
    → member node (xs ++ insert ∷ ys) ≡ false
    → IsList (insert_before l (some insert) node) (xs ++ node ∷ insert ∷ ys)
unfolding insert_before Linked
insert_before-IsList l xs ys insert node is out =
    let parts = Linked-split l.prev l.next none xs (insert ∷ ys) none is.linked in
    let put = put-Linked l.prev l.next xs (insert ∷ ys) node is.distinct out is.linked in
    let before : l.prev insert ≡ last_or none xs = parts.1.0 in
    let zs = insert ∷ ys in
    let m = record l {
      prev = prev_put l.prev l.next xs zs node;
      next = set_at l.next node (some insert);
    } in
    let outz : member node zs ≡ false = ground (arith, out, member-append node xs zs) in
    let self : m.prev node ≡ last_or none xs =
      miss_first (set_at l.prev node (last_or none xs)) zs (some node) node outz
      ∙ hit l.prev node (last_or none xs) in
    let ends = is.ends ∙ last_or-append none xs zs ∙ sym (last_or-append none xs (node ∷ zs)) in
    let done =
      link_from-IsList m node xs zs (last_or none xs) refl (starts_at xs zs is.starts) ends put
        (Distinct-put xs zs node is.distinct out) (count_up is.counts (length_put xs zs node)) in
    rw before
      (subst (λ o. IsList (one_more (link_from o node m)) (xs ++ node ∷ zs)) (sym self) done)

starts_put :
    (pre ys : List ℕ) (a node : ℕ)
    → last_or none pre ≡ some a
    → first_or none (pre ++ ys) ≡ first_or none (pre ++ node ∷ ys)
starts_put [] ys a node e = absurd cc
starts_put (x ∷ pre) ys a node e = refl

ends_at : {t : Option ℕ} (xs ys : List ℕ) → t ≡ last_or none (xs ++ ys) → t ≡ last_or t ys
ends_at xs [] e = refl
ends_at xs (y ∷ ys) e = e ∙ last_or-append none xs (y ∷ ys)

insert_after-behind :
    (l : IwList) (pre ys : List ℕ) (insert node : ℕ)
    → last_or none pre ≡ some insert
    → l.next insert ≡ first_or none ys
    → IsList l (pre ++ ys)
    → member node (pre ++ ys) ≡ false
    → IsList (insert_after l (some insert) node) (pre ++ node ∷ ys)
unfolding insert_after
insert_after-behind l pre ys insert node e after is out =
    let put = put-Linked l.prev l.next pre ys node is.distinct out is.linked in
    let next0 = set_at l.next node (first_or none ys) in
    let m = record l {
      next = set_at next0 insert (some node);
      prev = set_at l.prev node (some insert);
    } in
    let linked : Linked (set_opt m.prev (first_or none ys) (some node)) m.next none
        (pre ++ node ∷ ys) none =
      subst
        (λ o.
          Linked (set_opt (set_at l.prev node o) (first_or none ys) (some node))
            (set_opt next0 o (some node)) none (pre ++ node ∷ ys) none)
        e put in
    let outp : member node pre ≡ false = ground (arith, out, member-append node pre ys) in
    let self : m.next node ≡ first_or none ys =
      subst (λ o. set_opt next0 o (some node) node ≡ next0 node) e
        (miss_last next0 pre (some node) node outp)
      ∙ hit l.next node (first_or none ys) in
    let done =
      link_back-IsList m node pre ys (first_or none ys) refl
        (is.starts ∙ starts_put pre ys insert node e) (ends_at pre ys is.ends) linked
        (Distinct-put pre ys node is.distinct out) (count_up is.counts (length_put pre ys node)) in
    rw after
      (subst (λ o. IsList (one_more (link_back o node m)) (pre ++ node ∷ ys)) (sym self) done)

-- iw_list_insert_after with a place in the list and a node that is not in it puts the node right
-- behind the place; the rest of the list is as it was.
pub insert_after-IsList :
    (l : IwList) (xs ys : List ℕ) (insert node : ℕ)
    → IsList l (xs ++ insert ∷ ys)
    → member node (xs ++ insert ∷ ys) ≡ false
    → IsList (insert_after l (some insert) node) (xs ++ insert ∷ node ∷ ys)
unfolding Linked
insert_after-IsList l xs ys insert node is out =
    let parts = Linked-split l.prev l.next none xs (insert ∷ ys) none is.linked in
    let pre = xs ++ insert ∷ [] in
    let same = append_assoc xs (insert ∷ []) ys in
    let last : last_or none pre ≡ some insert = last_or-append none xs (insert ∷ []) in
    let done =
      insert_after-behind l pre ys insert node last parts.1.1
        (subst (λ zs. IsList l zs) (sym same) is)
        (subst (λ zs. member node zs ≡ false) (sym same) out) in
    subst (λ zs. IsList (insert_after l (some insert) node) zs)
      (append_assoc xs (insert ∷ []) (node ∷ ys)) done
