-- ===== src/Htable/Walk/Order.antt =====
-- iw_htable_get_first_ordered and iw_htable_get_next_ordered under a comparison that is an order.
use mathlib.Core.List.{append_assoc, head?}
use insta_works.Base.{
  ℕ, zero, suc, ◌≤◌, ◌<◌, ◌≡◌, refl, sym, ap, subst, false, Bool-cases, inl, inr, Option, some,
  List, [], ◌∷◌, ◌++◌, arith, if◌then◌else◌, length,
}
use insta_works.Base.Int.{ℤ, is_positive, is_negative, not_positive}
use insta_works.Htable.Chain.{In, here, there}
use insta_works.Htable.Valid.{nodes, IsValid}
use insta_works.Htable.Walk.Visits.{get_next_hash-split, first_in-flatten}
use insta_works.Htable.Walk.{
  first_in, with_hash, get_first_hash, get_next_hash, min_loop, get_first_ordered,
}
use insta_works.Htable.{Node, Htable}

-- What the documentation of the two functions asks of the comparison: its sign is that of an order.
pub record IsOrder {ℓ} {A : Type ℓ} (compare : Option A → Option A → ℤ) : Type ℓ where
  pub refl_le : (a : Option A) → is_positive (compare a a) ≡ false
  pub flip : (a b : Option A) → is_positive (compare a b) ≡ is_negative (compare b a)
  pub trans_le :
      (a b c : Option A)
      → is_positive (compare a b) ≡ false
      → is_positive (compare b c) ≡ false
      → is_positive (compare a c) ≡ false

abbrev pub All {ℓ κ} : {B : Type ℓ} → (B → Type κ) → List B → Type κ
All P [] = Unit
All P (x ∷ xs) = P x × All P xs

All-mono {ℓ κ} :
    {B : Type ℓ} {P Q : B → Type κ} (l : List B) → ((x : B) → P x → Q x) → All P l → All Q l
All-mono [] f h = tt
All-mono (x ∷ xs) f h = (f x h.0, All-mono xs f h.1)

module _ {ℓ} {A : Type ℓ} (compare : Option A → Option A → ℤ) where
  -- The loop of iw_htable_get_first_ordered as a fold over the nodes behind the first.
  pub min_of : Node A → List (Node A) → Node A
  min_of cur [] = cur
  min_of cur (n ∷ ns) = min_of (if is_positive (compare cur.item n.item) then n else cur) ns

  min_loop-min_of :
      (t : Htable A) (k : ℕ) (cur m : Node A) (rest before : List (Node A))
      → IsValid t
      → nodes t ≡ before ++ (m ∷ rest)
      → length rest < k
      → min_loop compare t k cur (get_next_hash t m.hash) ≡ min_of cur rest
  unfolding min_loop min_of
  min_loop-min_of t k cur m rest before v e lt =
      rw (get_next_hash-split t m rest before v e) (go k cur m rest before v e lt)
    where
      go :
          (k : ℕ) (cur m : Node A) (rest before : List (Node A))
          → IsValid t
          → nodes t ≡ before ++ (m ∷ rest)
          → length rest < k
          → min_loop compare t k cur (with_hash m.hash (head? rest)) ≡ min_of cur rest
      go zero cur m rest before v e lt = absurd (omega arith)
      go (suc k) cur m [] before v e lt = refl
      go (suc k) cur m (n ∷ rest) before v e lt =
          let shift : nodes t ≡ (before ++ m ∷ []) ++ (n ∷ rest) = rw append_assoc e in
          rw (get_next_hash-split t n rest (before ++ m ∷ []) v shift)
            (go k _ n rest (before ++ m ∷ []) v shift (omega arith))

  -- `cur` is one of the nodes, and none of them compares below it.
  pub record IsLeast (l : List (Node A)) (cur : Node A) : Type ℓ where
    pub inside : In cur l
    pub least : All (λ n. is_positive (compare cur.item n.item) ≡ false) l

  min_of-In : (cur : Node A) (l : List (Node A)) → In (min_of cur l) (cur ∷ l)
  unfolding min_of
  min_of-In cur [] = here
  min_of-In cur (n ∷ l) = elim (Bool-cases (is_positive (compare cur.item n.item))) [
    | inl e ↦ rw (e, min_of) (there (min_of-In n l))
    | inr e ↦ rw (e, min_of) (skip_second (min_of-In cur l))
  ]
    where
      skip_second : {m : Node A} → In m (cur ∷ l) → In m (cur ∷ n ∷ l)
      skip_second here = here
      skip_second (there i) = there (there i)

  module _ (ord : IsOrder compare) where
    min_of-le :
        (a : Option A) (cur : Node A) (l : List (Node A))
        → is_positive (compare cur.item a) ≡ false
        → is_positive (compare (min_of cur l).item a) ≡ false
    unfolding min_of
    min_of-le a cur [] h = h
    min_of-le a cur (n ∷ l) h = elim (Bool-cases (is_positive (compare cur.item n.item))) [
      | inl e ↦
          let below = not_positive (compare n.item cur.item) (rw (← ord.flip cur.item n.item) e) in
          rw (e, min_of) (min_of-le a n l (ord.trans_le n.item cur.item a below h))
      | inr e ↦ rw (e, min_of) (min_of-le a cur l h)
    ]

    -- The predicate is stated of the result first, so that a step of the fold can be rewritten.
    abbrev Below : Node A → List (Node A) → Type 0
    Below m = All (λ n. is_positive (compare m.item n.item) ≡ false)

    min_of-least : (cur : Node A) (l : List (Node A)) → Below (min_of cur l) l
    unfolding min_of
    min_of-least cur [] = tt
    min_of-least cur (n ∷ l) = elim (Bool-cases (is_positive (compare cur.item n.item))) [
      | inl e ↦
          subst (λ m. Below m (n ∷ l)) (step n (rw e))
            (min_of-le n.item n l (ord.refl_le n.item), min_of-least n l)
      | inr e ↦
          subst (λ m. Below m (n ∷ l)) (step cur (rw e))
            (min_of-le n.item cur l e, min_of-least cur l)
    ]
      where
        step :
            (m : Node A)
            → (if is_positive (compare cur.item n.item) then n else cur) ≡ m
            → min_of m l ≡ min_of cur (n ∷ l)
        step m p = ap (λ c. min_of c l) (sym p)

    -- If the comparison is an order: on a valid table that is not empty, iw_htable_get_first_ordered returns the data and the hash
    -- of a least node; `rounds` is any number of rounds that is no less than the number of nodes.
    pub get_first_ordered-IsLeast :
        (t : Htable A) (rounds : ℕ) (n : Node A) (rest : List (Node A))
        → IsValid t
        → nodes t ≡ n ∷ rest
        → length (nodes t) ≤ rounds
        → (m : Node A) × (get_first_ordered t compare rounds ≡ (m.item, m.hash))
          × IsLeast (nodes t) m
    unfolding get_first_ordered get_first_hash
    get_first_ordered-IsLeast t rounds n rest v e le =
        let first : first_in t.table ≡ some n = rw (first_in-flatten t.table, e) in
        let loop : min_loop compare t rounds n (get_next_hash t n.hash) ≡ min_of n rest =
          min_loop-min_of t rounds n n rest [] v e (omega (arith, ap length e)) in
        (
          min_of n rest,
          rw (first, loop),
          rw e (record {
            inside = min_of-In n rest;
            least = (min_of-le n.item n rest (ord.refl_le n.item), min_of-least n rest);
          }),
        )
