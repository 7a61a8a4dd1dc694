-- ===== src/Tests/Table.antt =====
-- The hash table of src/iw_htable.c with two elements.
use insta_works.Base.{
  ℕ, ◌+◌, ◌≤◌, ◌<◌, ◌≡◌, refl, true, false, Option, none, some, [], ◌∷◌, arith, if◌then◌else◌, ltb,
  length,
}
use mathlib.Core.List.{map, flatten}
use insta_works.Base.Int.{ℤ, pos, negsuc}
use insta_works.Hash.{hash_data, hash_loop, hash_step}
use insta_works.Htable.{
  Node, node, Htable, init, find, get, insert, replace, remove, push, add_node,
}
use insta_works.Htable.Valid.{nodes, IsValid}
use insta_works.Htable.Start.{init-Starts}
use insta_works.Htable.Writes.{Removes, remove-Removes}
use insta_works.Htable.Insert.{Inserts, insert-Inserts, Replaces, replace-Replaces}
use insta_works.Htable.Walk.{
  collect, get_first, get_next_ordered, find_hash, find_in, item_or_null, with_hash,
}
use insta_works.Htable.Walk.Visits.{items, collect_all}
use insta_works.Htable.Walk.Order.{IsOrder, All}
use insta_works.Htable.Walk.Next.{Covers, IsAbove, get_next_ordered-next}

abbrev blank : Htable ℕ
blank = record {
  fn = λ k. 0;
  size = 0;
  iw_mem_alloc = false;
  num_elems = 0;
  collisions = 0;
  table = [];
}

abbrev empty : Htable ℕ
empty = (init true blank 2 false none).1

empty-IsValid : IsValid empty
empty-IsValid = (init-Starts blank 2 false none (omega arith)).valid

abbrev one : Htable ℕ
one = (insert true empty (some (1 ∷ [])) (some 7)).1

insert-Inserts_example :
    Inserts true empty
      (hash_data (some (1 ∷ [])))
      (some 7)
      (insert true empty (some (1 ∷ [])) (some 7))
insert-Inserts_example = insert-Inserts true empty (some (1 ∷ [])) (some 7) empty-IsValid

one-IsValid : IsValid one
one-IsValid = (insert-Inserts true empty (some (1 ∷ [])) (some 7) empty-IsValid).valid

abbrev two : Htable ℕ
two = (insert true one (some (2 ∷ [])) (some 5)).1

two-IsValid : IsValid two
two-IsValid = (insert-Inserts true one (some (2 ∷ [])) (some 5) one-IsValid).valid

get-two : get two (some (2 ∷ [])) ≡ some 5
unfolding get insert replace find push add_node init hash_data hash_loop hash_step
get-two = refl

insert_twice : (insert true two (some (2 ∷ [])) (some 9)).0 ≡ false
unfolding get insert replace find push add_node init hash_data hash_loop hash_step
insert_twice = refl

remove-Removes_example : Removes two (two.fn (some (2 ∷ []))) (remove two (some (2 ∷ [])))
remove-Removes_example = remove-Removes two (some (2 ∷ [])) two-IsValid

same_hash : two.fn (some (2 ∷ [])) ≡ hash_data (some (2 ∷ []))
unfolding insert replace find push add_node init hash_data hash_loop hash_step
same_hash = refl

replace-Replaces_example :
    Replaces true two
      (hash_data (some (2 ∷ [])))
      (some 9)
      (replace true two (some (2 ∷ [])) (some 9) true)
replace-Replaces_example = replace-Replaces true two (some (2 ∷ [])) (some 9) two-IsValid same_hash

items-two : items (nodes two) ≡ map some (7 ∷ 5 ∷ [])
unfolding get insert replace find push add_node init hash_data hash_loop hash_step flatten
items-two = refl

collect_all_example : collect two (length (nodes two) + 1) (get_first two 3) ≡ 7 ∷ 5 ∷ []
collect_all_example = collect_all two 3 (7 ∷ 5 ∷ []) two-IsValid items-two

abbrev value_of : Option ℕ → ℕ
value_of none = 0
value_of (some n) = n

abbrev compare : Option ℕ → Option ℕ → ℤ
compare a b =
    if ltb (value_of a) (value_of b)
    then negsuc 0
    else if ltb (value_of b) (value_of a)
    then pos 1
    else pos 0

compare-IsOrder : IsOrder compare
compare-IsOrder = record {
  refl_le = λ a. ground arith;
  flip = λ a b. ground arith;
  trans_le = λ a b c p q. ground arith;
}

abbrev first_node : Node ℕ
first_node = node (hash_data (some (1 ∷ []))) (some 7)

abbrev second_node : Node ℕ
second_node = node (hash_data (some (2 ∷ []))) (some 5)

nodes-two : nodes two ≡ first_node ∷ second_node ∷ []
unfolding get insert replace find push add_node init hash_data hash_loop hash_step flatten
nodes-two = refl

two_rounds : length (nodes two) ≤ 2
unfolding get insert replace find push add_node init hash_data hash_loop hash_step flatten
two_rounds = omega arith

second_known : find_hash two (hash_data (some (2 ∷ []))) ≡ some second_node
unfolding find_hash find_in get insert replace find push add_node init hash_data hash_loop hash_step
    flatten
second_known = refl

three_rounds : length (nodes two) < 3
unfolding get insert replace find push add_node init hash_data hash_loop hash_step flatten
three_rounds = omega arith

get_next_ordered-next_example :
    (r : Option (Node ℕ)) × (get_next_ordered two compare 3 (hash_data (some (2 ∷ [])))
      ≡ item_or_null (with_hash (hash_data (some (2 ∷ []))) r))
    × IsAbove compare second_node (nodes two) r
    × All (Covers compare second_node r) (nodes two)
get_next_ordered-next_example =
    get_next_ordered-next compare second_node compare-IsOrder two (hash_data (some (2 ∷ []))) 3
      two-IsValid second_known three_rounds
