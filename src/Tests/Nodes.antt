-- ===== src/Tests/Nodes.antt =====
-- Runs of src/iw_list.c on small lists, and its theorems at concrete lists.
use insta_works.Base.{refl, false, none, some, [], ◌∷◌}
use insta_works.IwList.{IwList, add, add_behind, remove}
use insta_works.IwList.Segment.{Linked, Distinct}
use insta_works.IwList.Splice.{IsList, add-IsList}
use insta_works.IwList.Unlink.{Unlinks, remove-Unlinks}

abbrev empty : IwList
empty = record {
  head = none;
  tail = none;
  num_elems = 0;
  iw_mem_alloc = false;
  prev = λ x. none;
  next = λ x. none;
  released = [];
}

empty-IsList : IsList empty []
unfolding Linked Distinct
empty-IsList = record { starts = refl; ends = refl; linked = tt; distinct = tt; counts = refl }

abbrev five_seven : IwList
five_seven = add (add empty 5) 7

lone : IsList (add empty 5) (5 ∷ [])
lone = add-IsList empty [] 5 empty-IsList (record { out = refl; no_prev = refl; no_next = refl })

five_seven-IsList : IsList five_seven (5 ∷ 7 ∷ [])
unfolding add add_behind
five_seven-IsList =
    add-IsList (add empty 5) (5 ∷ []) 7 lone (record { out = refl; no_prev = refl; no_next = refl })

remove-Unlinks_example : Unlinks five_seven [] 5 (7 ∷ []) (remove five_seven (some 5))
remove-Unlinks_example = remove-Unlinks five_seven [] (7 ∷ []) 5 five_seven-IsList
