-- ===== src/IwList/Whole.antt =====
-- src/iw_list.c: the calls on a whole list, the nodes they release, and the insertion without a place.
use insta_works.Base.{
  ℕ, zero, suc, ◌≤◌, ◌≡◌, refl, sym, ap, ◌∙◌, Bool, Option, none, some, List, [], ◌∷◌, ◌++◌, arith,
  ==_refl, length,
}
use insta_works.IwList.{IwList, set_at, list_init, insert_before, delete, destroy, destroy_from}
use insta_works.IwList.Segment.{Distinct, first_or, last_or, Linked}
use insta_works.IwList.Splice.{IsList, Loose}
use insta_works.IwList.Unlink.{remove-Unlinks}

-- iw_list_init makes an empty list.
pub list_init-IsList : (l : IwList) (alloc : Bool) → IsList (list_init l alloc) []
unfolding list_init Linked Distinct
list_init-IsList l alloc = record {
  starts = refl;
  ends = refl;
  linked = tt;
  distinct = tt;
  counts = omega arith;
}

-- What a call that deletes a node between `xs` and `ys` returns and leaves.
pub record Releases (l : IwList) (xs : List ℕ) (node : ℕ) (ys : List ℕ) (r : Option ℕ × IwList)
    : Type 0 where
  pub follower : r.0 ≡ first_or none ys
  pub left : IsList r.1 (xs ++ ys)
  pub freed : r.1.released ≡ l.released ++ node ∷ []

pub delete-Releases :
    (l : IwList) (xs ys : List ℕ) (node : ℕ)
    → IsList l (xs ++ node ∷ ys)
    → Releases l xs node ys (delete l node)
unfolding delete
delete-Releases l xs ys node is =
    let r = remove-Unlinks l xs ys node is in
    record {
      follower = r.follower;
      left = record {
        starts = r.left.starts;
        ends = r.left.ends;
        linked = r.left.linked;
        distinct = r.left.distinct;
        counts = r.left.counts;
      };
      freed = ap (λ rel. rel ++ node ∷ []) r.kept;
    }

-- What iw_list_destroy leaves of a list of the nodes `xs`.
pub record Destroys (l : IwList) (xs : List ℕ) (r : IwList) : Type 0 where
  pub freed : r.released ≡ l.released ++ xs
  pub emptied : r.num_elems ≡ 0
  -- Both ends still point to released nodes.
  pub head_kept : r.head ≡ first_or none xs
  pub tail_kept : r.tail ≡ last_or none xs

destroy_from-all :
    (rounds : ℕ) (prev next : ℕ → Option ℕ) (before : Option ℕ) (xs : List ℕ)
    → length xs ≤ rounds
    → Linked prev next before xs none
    → destroy_from rounds next (first_or none xs) ≡ xs
unfolding destroy_from Linked
destroy_from-all zero prev next before [] le l = refl
destroy_from-all zero prev next before (x ∷ xs) le l = absurd (omega arith)
destroy_from-all (suc k) prev next before [] le l = refl
destroy_from-all (suc k) prev next before (x ∷ xs) le l =
    ap (λ ys. x ∷ ys)
      (ap (destroy_from k next) l.1 ∙ destroy_from-all k prev next (some x) xs (omega arith) l.2)

-- iw_list_destroy of a list, with as many rounds as it has nodes, releases each node once and in
-- order and sets the count to 0, but leaves head and tail pointing to released nodes.
pub destroy-Destroys :
    (rounds : ℕ) (l : IwList) (xs : List ℕ)
    → IsList l xs
    → length xs ≤ rounds
    → Destroys l xs (destroy rounds l)
unfolding destroy
destroy-Destroys rounds l xs is le =
    let all = destroy_from-all rounds l.prev l.next none xs le is.linked in
    record {
      freed = ap (λ ys. l.released ++ ys) (ap (destroy_from rounds l.next) is.starts ∙ all);
      emptied = refl;
      head_kept = is.starts;
      tail_kept = is.ends;
    }

broken :
    (l : IwList) (node x : ℕ)
    → l.next node ≡ some x
    → l.prev x ≡ none
    → l.head ≡ some node
    → (zs : List ℕ) → ¬ IsList l zs
unfolding Linked
broken l node x n p h [] bad = let e : some node ≡ none = sym h ∙ bad.starts in cc
broken l node x n p h (z ∷ []) bad =
    let e : some node ≡ some z = sym h ∙ bad.starts in
    let z_is : node ≡ z = cc in let f : some x ≡ none = sym n ∙ ap l.next z_is ∙ bad.linked.1 in cc
broken l node x n p h (z ∷ w ∷ zs) bad =
    let e : some node ≡ some z = sym h ∙ bad.starts in
    let z_is : node ≡ z = cc in
    let f : some x ≡ some w = sym n ∙ ap l.next z_is ∙ bad.linked.1 in
    let w_is : x ≡ w = cc in let g : none ≡ some z = sym p ∙ ap l.prev w_is ∙ bad.linked.2.0 in cc

-- iw_list_insert_before without a place, on a list that is not empty, makes a loose node the head
-- and links it to the old head, but the old head does not point back to it: what is left is the
-- list of no nodes whatever.
pub insert_before_breaks :
    (l : IwList) (x : ℕ) (xs : List ℕ) (node : ℕ)
    → IsList l (x ∷ xs)
    → Loose l (x ∷ xs) node
    → ((insert_before l none node).head ≡ some node)
      × ((insert_before l none node).next node ≡ some x)
      × ((insert_before l none node).prev x ≡ none)
      × ((zs : List ℕ) → ¬ IsList (insert_before l none node) zs)
unfolding insert_before Linked
insert_before_breaks l x xs node is loose =
    let to : set_at l.next node l.head node ≡ some x = rw (==_refl node) is.starts in
    (refl, to, is.linked.0, broken (insert_before l none node) node x to is.linked.0 refl)
