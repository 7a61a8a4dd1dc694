-- ===== src/IwList.antt =====
-- src/iw_list.c and includes/iw_list.h: a doubly linked list whose links stand in the nodes. A node is
-- its address, and the links of all nodes are part of the state. `released` has the nodes that were
-- handed to the deletion function or freed. `chunk` is the node that the allocator gives, with its
-- links cleared, or NULL; what a generic node points to is left out.
pub mod Segment
pub mod Between
pub mod Splice
pub mod Unlink
pub mod Whole
use insta_works.Base.{
  ℕ, zero, suc, ◌+◌, Bool, Option, none, some, List, [], ◌∷◌, ◌++◌, ◌==◌, if◌then◌else◌, u32,
  pred32,
}

-- The fields of the list, and `prev` and `next` of the nodes.
pub record IwList : Type 0 where
  pub head : Option ℕ
  pub tail : Option ℕ
  pub num_elems : ℕ
  pub iw_mem_alloc : Bool
  pub prev : ℕ → Option ℕ
  pub next : ℕ → Option ℕ
  pub released : List ℕ

-- A write to one node.
abbrev pub set_at : (ℕ → Option ℕ) → ℕ → Option ℕ → ℕ → Option ℕ
set_at f a v x = if a == x then v else f x

-- A write through a pointer, where there is one.
abbrev pub set_opt : (ℕ → Option ℕ) → Option ℕ → Option ℕ → ℕ → Option ℕ
set_opt f none v = f
set_opt f (some a) v = set_at f a v

-- The list is cleared; the nodes are as they are.
unfoldable pub list_init : IwList → Bool → IwList
list_init l iw_mem_alloc = record l {
  head = none;
  tail = none;
  num_elems = 0;
  iw_mem_alloc = iw_mem_alloc;
}

unfoldable pub add_behind : IwList → Option ℕ → ℕ → IwList
add_behind l none node = record l { head = some node; tail = some node }
add_behind l (some tail) node = record l {
  next = set_at (set_at l.next tail (some node)) node none;
  prev = set_at l.prev node (some tail);
  tail = some node;
}

abbrev pub one_more : IwList → IwList
one_more l = record l { num_elems = u32 (l.num_elems + 1) }

unfoldable pub add : IwList → ℕ → IwList
unfolding add_behind
add l node = one_more (add_behind l l.tail node)

abbrev pub or_null : Option ℕ → Option ℕ → Option ℕ
or_null none v = v
or_null (some a) v = some a

-- Where the node has a predecessor, that points to it; else it becomes the head.
abbrev pub link_from : Option ℕ → ℕ → IwList → IwList
link_from none node l = record l { head = some node }
link_from (some p) node l = record l { next = set_at l.next p (some node) }

abbrev pub link_prev : ℕ → IwList → IwList
link_prev node l = link_from (l.prev node) node l

unfoldable pub insert_before : IwList → Option ℕ → ℕ → IwList
insert_before l none node = one_more (record l {
  next = set_at l.next node l.head;
  head = some node;
  tail = or_null l.tail (some node);
})
insert_before l (some insert) node = one_more (
    link_prev node (record l {
      next = set_at l.next node (some insert);
      prev = set_at (set_at l.prev node (l.prev insert)) insert (some node);
    }))

-- Where the node has a successor, that points back to it; else it becomes the tail.
abbrev pub link_back : Option ℕ → ℕ → IwList → IwList
link_back none node l = record l { tail = some node }
link_back (some n) node l = record l { prev = set_at l.prev n (some node) }

abbrev pub link_next : ℕ → IwList → IwList
link_next node l = link_back (l.next node) node l

unfoldable pub insert_after : IwList → Option ℕ → ℕ → IwList
insert_after l none node = one_more (record l {
  prev = set_at l.prev node l.tail;
  tail = some node;
  head = or_null l.head (some node);
})
insert_after l (some insert) node = one_more (
    link_next node (record l {
      next = set_at (set_at l.next node (l.next insert)) insert (some node);
      prev = set_at l.prev node (some insert);
    }))

-- The three calls that allocate a node first: the node, or NULL.
unfoldable pub add_data : (chunk : Option ℕ) → IwList → Option ℕ × IwList
unfolding add
add_data none l = (none, l)
add_data (some node) l = (
  some node,
  add (record l { prev = set_at l.prev node none; next = set_at l.next node none }) node,
)

unfoldable pub insert_before_data : (chunk : Option ℕ) → IwList → Option ℕ → Option ℕ × IwList
unfolding insert_before
insert_before_data none l insert = (none, l)
insert_before_data (some node) l insert = (
  some node,
  insert_before (record l { prev = set_at l.prev node none; next = set_at l.next node none }) insert
      node,
)

unfoldable pub insert_after_data : (chunk : Option ℕ) → IwList → Option ℕ → Option ℕ × IwList
unfolding insert_after
insert_after_data none l insert = (none, l)
insert_after_data (some node) l insert = (
  some node,
  insert_after (record l { prev = set_at l.prev node none; next = set_at l.next node none }) insert
      node,
)

-- The neighbours of the node, or the ends of the list, are linked past it.
abbrev pub bypass_prev : Option ℕ → Option ℕ → IwList → IwList
bypass_prev none next l = record l { head = next }
bypass_prev (some p) next l = record l { next = set_at l.next p next }

abbrev pub bypass_next : Option ℕ → Option ℕ → IwList → IwList
bypass_next none prev l = record l { tail = prev }
bypass_next (some n) prev l = record l { prev = set_at l.prev n prev }

abbrev pub detach : ℕ → IwList → IwList
detach node l = record l {
  prev = set_at l.prev node none;
  next = set_at l.next node none;
  num_elems = pred32 l.num_elems;
}

abbrev pub bypass : ℕ → IwList → IwList
bypass node l =
    let l' = bypass_prev (l.prev node) (l.next node) l in
    bypass_next (l'.next node) (l'.prev node) l'

unfoldable pub remove_node : IwList → ℕ → Option ℕ × IwList
remove_node l node = let l' = bypass node l in (l'.next node, detach node l')

-- The node that followed, or NULL.
unfoldable pub remove : IwList → Option ℕ → Option ℕ × IwList
unfolding remove_node
remove l none = (none, l)
remove l (some node) = elim l.head [ none ↦ (none, l) | some head ↦ remove_node l node ]

abbrev pub release : ℕ → IwList → IwList
release node l = record l { released = l.released ++ node ∷ [] }

unfoldable pub delete : IwList → ℕ → Option ℕ × IwList
unfolding remove
delete l node = let r = remove l (some node) in (r.0, release node r.1)

-- The loop of iw_list_destroy, on `k` rounds: the nodes that are released.
unfoldable pub destroy_from : ℕ → (ℕ → Option ℕ) → Option ℕ → List ℕ
destroy_from zero next p = []
destroy_from (suc k) next none = []
destroy_from (suc k) next (some a) = a ∷ destroy_from k next (next a)

-- `head` and `tail` are left as they are.
unfoldable pub destroy : (rounds : ℕ) → IwList → IwList
unfolding destroy_from
destroy rounds l = record l {
  num_elems = 0;
  released = l.released ++ destroy_from rounds l.next l.head;
}
