-- ===== src/Htable/Start.antt =====
-- The start and the end of a table of src/iw_htable.c.
use mathlib.Core.List.{flatten}
use insta_works.Base.{
  ℕ, zero, suc, ◌%◌, ◌<◌, ◌≡◌, refl, ap, Bool, true, false, Option, none, List, [], ◌∷◌, ◌++◌,
  arith, length, replicate, length-replicate, get_or-replicate,
}
use insta_works.Hash.{Key}
use insta_works.Htable.Chain.{count}
use insta_works.Htable.Valid.{nodes, lookup, IsValid}
use insta_works.Htable.Walk.Visits.{items}
use insta_works.Htable.{Node, Htable, is_empty, find, init, destroy_chain, destroy_chains, destroy}

module _ {ℓ} {A : Type ℓ} where
  abbrev no_nodes : List (Node A)
  no_nodes = []

  flatten-replicate : (n : ℕ) → flatten (replicate n no_nodes) ≡ []
  unfolding flatten
  flatten-replicate zero = refl
  flatten-replicate (suc n) = flatten-replicate n

  -- A table that was just made: valid, and every hash absent.
  pub record Starts (size : ℕ) (r : Bool × Htable A) : Type ℓ where
    pub returns : r.0 ≡ true
    pub valid : IsValid r.1
    pub size_is : r.1.size ≡ size
    pub absent : (h : ℕ) → lookup r.1 h ≡ none

  -- iw_htable_init with a size above zero and with memory for the array makes a valid table of that
  -- size that holds nothing, whatever was in the structure.
  pub init-Starts :
      (t : Htable A) (size : ℕ) (iw_mem_alloc : Bool) (fn : Option (Key → ℕ))
      → 0 < size
      → Starts size (init true t size iw_mem_alloc fn)
  unfolding init lookup find count
  init-Starts t size iw_mem_alloc fn pos = record {
    returns = refl;
    valid = record {
      pos = pos;
      width = length-replicate size no_nodes;
      placed = λ h i. rw (get_or-replicate size i no_nodes) (omega arith);
      counted = rw (flatten-replicate size) refl;
    };
    size_is = refl;
    absent = λ h. rw (get_or-replicate size (h % size) no_nodes) refl;
  }

  items-append : (xs ys : List (Node A)) → items (xs ++ ys) ≡ items xs ++ items ys
  items-append [] ys = refl
  items-append (x ∷ xs) ys = ap (λ r. x.item ∷ r) (items-append xs ys)

  destroy_chain-items : (c : List (Node A)) → destroy_chain c ≡ items c
  unfolding destroy_chain
  destroy_chain-items [] = refl
  destroy_chain-items (n ∷ c) = ap (λ r. n.item ∷ r) (destroy_chain-items c)

  destroy_chains-items : (bs : List (List (Node A))) → destroy_chains bs ≡ items (flatten bs)
  unfolding destroy_chains flatten
  destroy_chains-items [] = refl
  destroy_chains-items (b ∷ bs) =
      rw (items-append b (flatten bs), destroy_chain-items b, destroy_chains-items bs) refl

  -- iw_htable_destroy on a valid table calls the deletion function on the data of every node, once for
  -- each node, in the order of the buckets and their chains, and leaves no array and no elements.
  pub destroy_all :
      (t : Htable A)
      → IsValid t
      → ((destroy t true).1 ≡ items (nodes t))
        × ((destroy t true).0.table ≡ [])
        × ((destroy t true).0.num_elems ≡ 0)
  unfolding destroy
  destroy_all t v = destroyed t (some_bucket t v)
    where
      some_bucket : (t : Htable A) → IsValid t → is_empty t.table ≡ false
      some_bucket t v = nonempty t.table (omega (arith, v.width, v.pos))
        where
          nonempty : (bs : List (List (Node A))) → 0 < length bs → is_empty bs ≡ false
          nonempty [] h = absurd (omega arith)
          nonempty (b ∷ bs) h = refl

      destroyed :
          (t : Htable A)
          → is_empty t.table ≡ false
          → ((destroy t true).1 ≡ items (nodes t))
            × ((destroy t true).0.table ≡ [])
            × ((destroy t true).0.num_elems ≡ 0)
      destroyed t e = rw (destroy, e) (destroy_chains-items t.table, refl, refl)
