-- ===== src/Htable/Walk.antt =====
-- The iteration of src/iw_htable.c: iw_htable_get_first, iw_htable_get_next and the helpers that
-- look for a hash bucket by bucket. A hash parameter that is in and out is an argument and a result.
pub mod Next
pub mod Order
pub mod Visits
use insta_works.Base.{
  ℕ, zero, suc, Bool, true, false, ◌||◌, Option, none, some, List, [], ◌∷◌, ◌==◌, if◌then◌else◌,
}
use insta_works.Base.Int.{ℤ, is_positive, is_negative}
use insta_works.Htable.{Node, Htable, find}

module _ {ℓ} {A : Type ℓ} where
  -- The loops of iw_htable_find_hash, iw_htable_get_first_hash and iw_htable_get_next_hash over the
  -- buckets. The inner loop of the last one has `found_last` as its state.
  unfoldable pub find_in : ℕ → List (List (Node A)) → Option (Node A)
  unfolding find
  find_in hash [] = none
  find_in hash (b ∷ bs) = elim (find hash b) [ some n ↦ some n | none ↦ find_in hash bs ]

  unfoldable pub find_hash : Htable A → ℕ → Option (Node A)
  unfolding find_in
  find_hash t hash = find_in hash t.table

  unfoldable pub first_in : List (List (Node A)) → Option (Node A)
  first_in [] = none
  first_in ([] ∷ bs) = first_in bs
  first_in ((n ∷ ns) ∷ bs) = some n

  -- A node that is found, and the hash parameter as the call leaves it.
  abbrev pub with_hash : ℕ → Option (Node A) → Option (Node A) × ℕ
  with_hash hash none = (none, hash)
  with_hash hash (some n) = (some n, n.hash)

  unfoldable pub get_first_hash : Htable A → ℕ → Option (Node A) × ℕ
  unfolding first_in
  get_first_hash t hash = with_hash hash (first_in t.table)

  unfoldable pub next_in : ℕ → Bool → List (Node A) → Bool × Option (Node A)
  next_in hash found_last [] = (found_last, none)
  next_in hash found_last (n ∷ ns) = elim found_last [
    | true ↦ (true, some n)
    | false ↦ next_in hash (n.hash == hash) ns
  ]

  unfoldable pub next_from : ℕ → Bool → List (List (Node A)) → Option (Node A)
  unfolding next_in
  next_from hash found_last [] = none
  next_from hash found_last (b ∷ bs) =
      let (found, node) = next_in hash found_last b in
      elim node [ some n ↦ some n | none ↦ next_from hash found bs ]

  unfoldable pub get_next_hash : Htable A → ℕ → Option (Node A) × ℕ
  unfolding next_from
  get_next_hash t hash = with_hash hash (next_from hash false t.table)

  abbrev pub item_or_null : Option (Node A) × ℕ → Option A × ℕ
  item_or_null (none, hash) = (none, hash)
  item_or_null (some n, hash) = (n.item, hash)

  unfoldable pub get_first : Htable A → ℕ → Option A × ℕ
  unfolding get_first_hash
  get_first t hash = item_or_null (get_first_hash t hash)

  unfoldable pub get_next : Htable A → ℕ → Option A × ℕ
  unfolding get_next_hash
  get_next t hash = item_or_null (get_next_hash t hash)

  -- The loop that every client writes: from a first result to NULL, in at most `k` rounds.
  unfoldable pub collect : Htable A → ℕ → Option A × ℕ → List A
  collect t zero r = []
  collect t (suc k) (none, hash) = []
  collect t (suc k) (some a, hash) = a ∷ collect t k (get_next t hash)

  -- The loop of iw_htable_get_first_ordered: `cur`, and what the call for the next node gave.
  unfoldable pub min_loop :
      (Option A → Option A → ℤ) → Htable A → ℕ → Node A → Option (Node A) × ℕ → Node A
  min_loop compare t zero cur next = cur
  min_loop compare t (suc k) cur (none, hash_cur) = cur
  min_loop compare t (suc k) cur (some next, hash_cur) =
      min_loop compare t k (if is_positive (compare cur.item next.item) then next else cur)
        (get_next_hash t hash_cur)

  unfoldable pub first_ordered_from :
      (Option A → Option A → ℤ) → Htable A → ℕ → Option (Node A) × ℕ → Option A × ℕ
  unfolding min_loop
  first_ordered_from compare t rounds (none, hash_cur) = (none, 0)
  first_ordered_from compare t rounds (some n, hash_cur) =
      let cur = min_loop compare t rounds n (get_next_hash t hash_cur) in (cur.item, cur.hash)

  -- `rounds` bounds the rounds of the loop.
  unfoldable pub get_first_ordered : Htable A → (Option A → Option A → ℤ) → ℕ → Option A × ℕ
  unfolding first_ordered_from
  get_first_ordered t compare rounds = first_ordered_from compare t rounds (get_first_hash t 0)

  -- The test of iw_htable_get_next_ordered: is `next` above `prev` and below `cur`, if there is one.
  abbrev pub is_better : (Option A → Option A → ℤ) → Node A → Option (Node A) → Node A → Bool
  is_better compare prev none next = is_negative (compare prev.item next.item)
  is_better compare prev (some cur) next =
      if is_negative (compare prev.item next.item)
      then is_positive (compare cur.item next.item)
      else false

  -- Its loop: `next` with `hash_cur`, `cur`, and the hash parameter.
  unfoldable pub above_loop :
      (Option A → Option A → ℤ)
      → Htable A
      → Node A
      → ℕ
      → Option (Node A) × ℕ
      → Option (Node A)
      → ℕ
      → Option (Node A) × ℕ
  above_loop compare t prev zero next cur hash = (cur, hash)
  above_loop compare t prev (suc k) (none, hash_cur) cur hash = (cur, hash)
  above_loop compare t prev (suc k) (some next, hash_cur) cur hash =
      let better = is_better compare prev cur next in
      above_loop compare t prev k (get_next_hash t hash_cur) (if better then some next else cur)
        (if better then hash_cur else hash)

  unfoldable pub next_ordered_from :
      (Option A → Option A → ℤ)
      → Htable A
      → ℕ
      → ℕ
      → Option (Node A)
      → Option (Node A) × ℕ
      → Option A × ℕ
  unfolding above_loop
  next_ordered_from compare t rounds hash none next = (none, hash)
  next_ordered_from compare t rounds hash (some prev) (none, hash_cur) = (none, hash)
  next_ordered_from compare t rounds hash (some prev) (some n, hash_cur) =
      item_or_null (above_loop compare t prev rounds (some n, hash_cur) none hash)

  unfoldable pub get_next_ordered : Htable A → (Option A → Option A → ℤ) → ℕ → ℕ → Option A × ℕ
  unfolding next_ordered_from
  get_next_ordered t compare rounds hash =
      next_ordered_from compare t rounds hash (find_hash t hash) (get_first_hash t 0)
