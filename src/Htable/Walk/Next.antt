-- ===== src/Htable/Walk/Next.antt =====
-- iw_htable_get_next_ordered returns a least node above the previous one.
use mathlib.Core.List.{append_assoc, head?}
use insta_works.Base.{
  ℕ, zero, suc, ◌<◌, ◌≡◌, ◌≢◌, refl, sym, ◌∙◌, ap, true, false, Bool-cases, inl, inr, ◌⊎◌, Option,
  none, some, List, [], ◌∷◌, ◌++◌, arith, if◌then◌else◌, length,
}
use insta_works.Base.Int.{ℤ, is_positive, is_negative, not_positive}
use insta_works.Htable.Chain.{In, here, there}
use insta_works.Htable.Valid.{nodes, IsValid}
use insta_works.Htable.Walk.Visits.{get_next_hash-split, first_in-flatten}
use insta_works.Htable.Walk.Order.{IsOrder, All}
use insta_works.Htable.Walk.{
  find_hash, with_hash, get_first_hash, item_or_null, is_better, above_loop, next_ordered_from,
  get_next_ordered,
}
use insta_works.Htable.{Node, Htable}

module _ {ℓ} {A : Type ℓ} (compare : Option A → Option A → ℤ) (prev : Node A) where
  -- The loop as a fold over the nodes of the table.
  pub step : Option (Node A) → Node A → Option (Node A)
  step cur n = if is_better compare prev cur n then some n else cur

  pub best_of : Option (Node A) → List (Node A) → Option (Node A)
  unfolding step
  best_of cur [] = cur
  best_of cur (n ∷ ns) = best_of (step cur n) ns

  abbrev hash_of : ℕ → Option (Node A) → ℕ
  hash_of h none = h
  hash_of h (some n) = n.hash

  with_hash-hash_of : (h : ℕ) (r : Option (Node A)) → with_hash h r ≡ (r, hash_of h r)
  with_hash-hash_of h none = refl
  with_hash-hash_of h (some n) = refl

  hash_of-step :
      (h : ℕ) (cur : Option (Node A)) (n : Node A)
      → (if is_better compare prev cur n then n.hash else hash_of h cur) ≡ hash_of h (step cur n)
  unfolding step
  hash_of-step h cur n = elim (Bool-cases (is_better compare prev cur n)) [
    | inl e ↦ rw e
    | inr e ↦ rw e
  ]

  above_loop-best_of :
      (t : Htable A) (h h' k : ℕ) (cur : Option (Node A)) (rest before : List (Node A))
      → IsValid t
      → nodes t ≡ before ++ rest
      → length rest < k
      → above_loop compare t prev k (with_hash h' (head? rest)) cur (hash_of h cur)
        ≡ with_hash h (best_of cur rest)
  unfolding above_loop best_of
  above_loop-best_of t h h' zero cur rest before v e lt = absurd (omega arith)
  above_loop-best_of t h h' (suc k) cur [] before v e lt = sym (with_hash-hash_of h cur)
  above_loop-best_of t h h' (suc k) cur (n ∷ rest) before v e lt =
      let shift : nodes t ≡ (before ++ n ∷ []) ++ rest = rw append_assoc e in
      rw (get_next_hash-split t n rest before v e, hash_of-step h cur n)
        (above_loop-best_of t h n.hash k (step cur n) rest (before ++ n ∷ []) v shift (omega arith))

  -- What holds of a candidate and a node that has been looked at.
  abbrev pub Covers : Option (Node A) → Node A → Type 0
  Covers none n = is_negative (compare prev.item n.item) ≡ false
  Covers (some c) n =
      is_negative (compare prev.item n.item) ≡ true → is_positive (compare c.item n.item) ≡ false

  better-above :
      (cur : Option (Node A)) (n : Node A)
      → is_better compare prev cur n ≡ true
      → is_negative (compare prev.item n.item) ≡ true
  better-above none n e = e
  better-above (some c) n e = ground arith

  -- A candidate is one of the nodes `l` and above `prev`.
  abbrev pub IsAbove : List (Node A) → Option (Node A) → Type ℓ
  IsAbove l none = Unit
  IsAbove l (some c) = In c l × (is_negative (compare prev.item c.item) ≡ true)

  pub best_of-IsAbove :
      (cur : Option (Node A)) (l : List (Node A))
      → (best_of cur l ≡ cur) ⊎ ((c : Node A) × (best_of cur l ≡ some c) × IsAbove l (some c))
  unfolding best_of step
  best_of-IsAbove cur [] = inl refl
  best_of-IsAbove cur (n ∷ l) = elim (best_of-IsAbove (step cur n) l) [
    | inr (c, e, (i, above)) ↦ inr (c, e, (there i, above))
    | inl e ↦ rw e (stepped cur n l)
  ]
    where
      stepped :
          (cur : Option (Node A)) (n : Node A) (l : List (Node A))
          → (step cur n ≡ cur) ⊎ ((c : Node A) × (step cur n ≡ some c) × IsAbove (n ∷ l) (some c))
      stepped cur n l = elim (Bool-cases (is_better compare prev cur n)) [
        | inr e ↦ inl (rw (step, e))
        | inl e ↦ inr (n, rw (step, e), (here, better-above cur n e))
      ]

  above : (t : Htable A) → IsAbove (nodes t) (best_of none (nodes t))
  above t = elim (best_of-IsAbove none (nodes t)) [ inl e ↦ rw e tt | inr (c, e, i) ↦ rw e i ]

  -- The loop of the function, from the first node or from NULL.
  run :
      (t : Htable A) (hash rounds : ℕ)
      → IsValid t
      → length (nodes t) < rounds
      → next_ordered_from compare t rounds hash (some prev) (with_hash 0 (head? (nodes t)))
        ≡ item_or_null (with_hash hash (best_of none (nodes t)))
  unfolding next_ordered_from best_of
  run t hash rounds v lt = from_list (nodes t) refl lt
    where
      from_list :
          (l : List (Node A))
          → nodes t ≡ l
          → length l < rounds
          → next_ordered_from compare t rounds hash (some prev) (with_hash 0 (head? l))
            ≡ item_or_null (with_hash hash (best_of none l))
      from_list [] e lt = refl
      from_list (n ∷ l) e lt =
          ap item_or_null (above_loop-best_of t hash 0 rounds none (n ∷ l) [] v e lt)

  step_yes :
      (cur : Option (Node A)) (n : Node A)
      → is_better compare prev cur n ≡ true
      → step cur n ≡ some n
  unfolding step
  step_yes cur n e = rw e

  step_no :
      (cur : Option (Node A)) (n : Node A) → is_better compare prev cur n ≡ false → step cur n ≡ cur
  unfolding step
  step_no cur n e = rw e

  worse : (cur : Option (Node A)) (n : Node A) → is_better compare prev cur n ≡ false → Covers cur n
  worse none n e = e
  worse (some c) n e = λ above. ground arith

  true≢false : true ≢ false
  true≢false e = cc

  module _ (ord : IsOrder compare) where
    better-le :
        (c n : Node A)
        → is_better compare prev (some c) n ≡ true
        → is_positive (compare n.item c.item) ≡ false
    better-le c n e =
        let under : is_positive (compare c.item n.item) ≡ true = ground arith in
        not_positive (compare n.item c.item) (rw (← ord.flip c.item n.item) under)

    step_old : (cur : Option (Node A)) (n a : Node A) → Covers cur a → Covers (step cur n) a
    step_old none n a h = elim (Bool-cases (is_better compare prev none n)) [
      | inl e ↦ rw (step_yes none n e) (λ above. absurd (true≢false (sym above ∙ h)))
      | inr e ↦ rw (step_no none n e) h
    ]
    step_old (some c) n a h = elim (Bool-cases (is_better compare prev (some c) n)) [
      | inl e ↦
          rw (step_yes (some c) n e)
            (λ above. ord.trans_le n.item c.item a.item (better-le c n e) (h above))
      | inr e ↦ rw (step_no (some c) n e) h
    ]

    step_new : (cur : Option (Node A)) (n : Node A) → Covers (step cur n) n
    step_new cur n = elim (Bool-cases (is_better compare prev cur n)) [
      | inl e ↦ rw (step_yes cur n e) (λ above. ord.refl_le n.item)
      | inr e ↦ rw (step_no cur n e) (worse cur n e)
    ]

    best_of-old :
        (cur : Option (Node A)) (a : Node A) (l : List (Node A))
        → Covers cur a
        → Covers (best_of cur l) a
    unfolding best_of
    best_of-old cur a [] h = h
    best_of-old cur a (n ∷ l) h = best_of-old (step cur n) a l (step_old cur n a h)

    pub best_of-Covers :
        (cur : Option (Node A)) (l : List (Node A)) → All (Covers (best_of cur l)) l
    unfolding best_of
    best_of-Covers cur [] = tt
    best_of-Covers cur (n ∷ l) =
        (best_of-old (step cur n) n l (step_new cur n), best_of-Covers (step cur n) l)

    -- If the comparison is an order: on a valid table with the node `prev` under the hash parameter, iw_htable_get_next_ordered
    -- returns the data of `r`, and its hash in the parameter. If `r` is a node, it stands in the
    -- table, is above `prev`, and no node above `prev` is below it; if not, none is above `prev`, the
    -- result is NULL and the parameter stays. `rounds` exceeds the number of nodes.
    pub get_next_ordered-next :
        (t : Htable A) (hash rounds : ℕ)
        → IsValid t
        → find_hash t hash ≡ some prev
        → length (nodes t) < rounds
        → (r : Option (Node A)) × (get_next_ordered t compare rounds hash
            ≡ item_or_null (with_hash hash r))
          × IsAbove (nodes t) r
          × All (Covers r) (nodes t)
    unfolding get_next_ordered get_first_hash
    get_next_ordered-next t hash rounds v known lt = (
      best_of none (nodes t),
      rw (known, first_in-flatten t.table) (run t hash rounds v lt),
      above t,
      best_of-Covers none (nodes t),
    )
