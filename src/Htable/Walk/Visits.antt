-- ===== src/Htable/Walk/Visits.antt =====
-- An iteration over a valid table visits each of its nodes once.
use mathlib.Core.List.{flatten, append_assoc, head?, map}
use insta_works.Base.{
  ℕ, zero, suc, ◌+◌, ◌%◌, ◌≤◌, ◌<◌, ◌≡◌, refl, ap, Bool, true, false, Option, none, some, List, [],
  ◌∷◌, ◌++◌, arith, ◌==◌, ==_refl, if◌then◌else◌, get_or, length,
}
use insta_works.Htable.Chain.{count, count-append}
use insta_works.Htable.Valid.{nodes, IsValid}
use insta_works.Htable.Walk.{
  first_in, with_hash, get_first_hash, next_in, next_from, get_next_hash, item_or_null, get_first,
  get_next, collect,
}
use insta_works.Htable.{Node, Htable}

module _ {ℓ} {A : Type ℓ} where
  absent_everywhere :
      (q : ℕ) (bs : List (List (Node A)))
      → ((i : ℕ) → count q (get_or bs i []) ≤ 0)
      → count q (flatten bs) ≡ 0
  unfolding flatten count
  absent_everywhere q [] h = refl
  absent_everywhere q (b ∷ bs) h =
      omega (arith, count-append q b (flatten bs), h 0, absent_everywhere q bs (λ i. h (suc i)))

  at_most_once :
      (q j : ℕ) (bs : List (List (Node A)))
      → ((i : ℕ) → count q (get_or bs i []) ≤ (if i == j then 1 else 0))
      → count q (flatten bs) ≤ 1
  unfolding flatten count
  at_most_once q j [] h = omega arith
  at_most_once q zero (b ∷ bs) h = omega (
    arith,
    count-append q b (flatten bs),
    h 0,
    absent_everywhere q bs (λ i. ground (arith, h (suc i))),
  )
  at_most_once q (suc j) (b ∷ bs) h =
      let here : count q b ≤ 0 = ground (arith, h 0) in
      omega
        (arith, count-append q b (flatten bs), at_most_once q j bs (λ i. ground (arith, h (suc i))))

  -- No hash stands twice in a valid table.
  pub nodes_distinct : (t : Htable A) → IsValid t → (q : ℕ) → count q (nodes t) ≤ 1
  nodes_distinct t v q = at_most_once q (q % t.size) t.table (λ i. v.placed q i)

  -- Resuming the search for the next node in the list that follows.
  abbrev resume : ℕ → List (Node A) → Bool × Option (Node A) → Bool × Option (Node A)
  resume h c (found, none) = next_in h found c
  resume h c (found, some n) = (found, some n)

  next_in-append :
      (h : ℕ) (f : Bool) (b c : List (Node A)) → next_in h f (b ++ c) ≡ resume h c (next_in h f b)
  unfolding next_in
  next_in-append h f [] c = refl
  next_in-append h true (n ∷ b) c = refl
  next_in-append h false (n ∷ b) c = next_in-append h (n.hash == h) b c

  next_from-flatten :
      (h : ℕ) (f : Bool) (bs : List (List (Node A)))
      → next_from h f bs ≡ (next_in h f (flatten bs)).1
  unfolding next_from flatten next_in
  next_from-flatten h f [] = refl
  next_from-flatten h f (b ∷ bs) =
      rw (next_in-append h f b (flatten bs)) (go (λ g. next_from-flatten h g bs) (next_in h f b))
    where
      go :
          ((g : Bool) → next_from h g bs ≡ (next_in h g (flatten bs)).1)
          → (r : Bool × Option (Node A))
          → (elim r.1 [ some n ↦ some n | none ↦ next_from h r.0 bs ]) ≡ (resume h (flatten bs) r).1
      go ih (g, none) = ih g
      go ih (g, some n) = refl

  pub first_in-flatten : (bs : List (List (Node A))) → first_in bs ≡ head? (flatten bs)
  unfolding first_in flatten
  first_in-flatten [] = refl
  first_in-flatten ([] ∷ bs) = first_in-flatten bs
  first_in-flatten ((n ∷ ns) ∷ bs) = refl

  next_in-true : (h : ℕ) (l : List (Node A)) → (next_in h true l).1 ≡ head? l
  unfolding next_in
  next_in-true h [] = refl
  next_in-true h (n ∷ ns) = refl

  -- Behind the one node with the hash, the search returns the node that follows it.
  next_in-split :
      (n : Node A) (rest before : List (Node A))
      → count n.hash (before ++ (n ∷ rest)) ≤ 1
      → (next_in n.hash false (before ++ (n ∷ rest))).1 ≡ head? rest
  unfolding next_in count
  next_in-split n rest [] once = rw (next_in, ==_refl n.hash) (next_in-true n.hash rest)
  next_in-split n rest (m ∷ before) once =
      let other : (m.hash == n.hash) ≡ false =
        ground (arith, count-append n.hash before (n ∷ rest)) in
      rw (next_in, other) (next_in-split n rest before (omega arith))

  -- The data of each node.
  abbrev pub items : List (Node A) → List (Option A)
  items [] = []
  items (n ∷ ns) = n.item ∷ items ns

  pub get_next_hash-split :
      (t : Htable A) (n : Node A) (rest before : List (Node A))
      → IsValid t
      → nodes t ≡ before ++ (n ∷ rest)
      → get_next_hash t n.hash ≡ with_hash n.hash (head? rest)
  unfolding get_next_hash
  get_next_hash-split t n rest before v e =
      let once : count n.hash (before ++ (n ∷ rest)) ≤ 1 = rw (← e) (nodes_distinct t v n.hash) in
      rw (next_from-flatten n.hash false t.table, e, next_in-split n rest before once)

  get_next-split :
      (t : Htable A) (n : Node A) (rest before : List (Node A))
      → IsValid t
      → nodes t ≡ before ++ (n ∷ rest)
      → get_next t n.hash ≡ item_or_null (with_hash n.hash (head? rest))
  unfolding get_next
  get_next-split t n rest before v e = ap item_or_null (get_next_hash-split t n rest before v e)

  collect-items :
      (t : Htable A) (h : ℕ) (l before : List (Node A)) (xs : List A) (k : ℕ)
      → IsValid t
      → nodes t ≡ before ++ l
      → items l ≡ map some xs
      → length l < k
      → collect t k (item_or_null (with_hash h (head? l))) ≡ xs
  unfolding collect
  collect-items t h l before xs zero v e same lt = absurd (omega arith)
  collect-items t h [] before [] (suc k) v e same lt = refl
  collect-items t h [] before (x ∷ xs) (suc k) v e same lt = cc
  collect-items t h (n ∷ l) before [] (suc k) v e same lt = cc
  collect-items t h (n ∷ l) before (x ∷ xs) (suc k) v e same lt =
      let first : n.item ≡ some x = cc in
      let others : items l ≡ map some xs = cc in
      let shift : nodes t ≡ (before ++ n ∷ []) ++ l = rw append_assoc e in
      rw first (
        ap (λ r. x ∷ r)
          (rw (get_next-split t n l before v e)
            (collect-items t n.hash l (before ++ n ∷ []) xs k v shift others (omega arith))))

  -- On a valid table whose data are the pointers `xs`, none of them NULL, the loop over
  -- iw_htable_get_first and iw_htable_get_next ends and has seen exactly `xs`, in the order of the
  -- buckets and their chains, whatever the hash variable held.
  pub collect_all :
      (t : Htable A) (hash : ℕ) (xs : List A)
      → IsValid t
      → items (nodes t) ≡ map some xs
      → collect t (length (nodes t) + 1) (get_first t hash) ≡ xs
  unfolding get_first get_first_hash
  collect_all t hash xs v same =
      rw (first_in-flatten t.table)
        (collect-items t hash (nodes t) [] xs (length (nodes t) + 1) v refl same (omega arith))
