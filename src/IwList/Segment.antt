-- ===== src/IwList/Segment.antt =====
-- Doubly linked segments: what the links of the nodes of a list are, and what a write to one node
-- leaves of them.
use insta_works.Base.{
  ℕ, ◌≡◌, refl, sym, ◌∙◌, true, false, ◌||◌, Option, none, some, List, [], ◌∷◌, ◌++◌, arith, ◌==◌,
  ==_refl, member,
}
use insta_works.IwList.{set_at, set_opt}

-- No address stands twice.
unfoldable pub Distinct : List ℕ → Type 0
Distinct [] = Unit
Distinct (x ∷ xs) = (member x xs ≡ false) × Distinct xs

-- The first address of the list, or what follows it; the last, or what comes before it.
abbrev pub first_or : Option ℕ → List ℕ → Option ℕ
first_or after [] = after
first_or after (x ∷ xs) = some x

abbrev pub last_or : Option ℕ → List ℕ → Option ℕ
last_or before [] = before
last_or before (x ∷ xs) = last_or (some x) xs

-- The nodes `xs` are linked both ways, behind `before` and in front of `after`.
unfoldable pub Linked :
    (prev next : ℕ → Option ℕ) (before : Option ℕ) (xs : List ℕ) (after : Option ℕ) → Type 0
Linked prev next before [] after = Unit
Linked prev next before (x ∷ xs) after =
    (prev x ≡ before) × (next x ≡ first_or after xs) × Linked prev next (some x) xs after

pub member-append : (a : ℕ) (xs ys : List ℕ) → member a (xs ++ ys) ≡ (member a xs || member a ys)
member-append a [] ys = refl
member-append a (x ∷ xs) ys = ground (arith, member-append a xs ys)

pub first_or-append :
    (after : Option ℕ) (xs ys : List ℕ)
    → first_or after (xs ++ ys) ≡ first_or (first_or after ys) xs
first_or-append after [] ys = refl
first_or-append after (x ∷ xs) ys = refl

pub last_or-append :
    (before : Option ℕ) (xs ys : List ℕ)
    → last_or before (xs ++ ys) ≡ last_or (last_or before xs) ys
last_or-append before [] ys = refl
last_or-append before (x ∷ xs) ys = last_or-append (some x) xs ys

-- Lists of addresses: their ends, and what Distinct says of two parts.
pub last_or-some : (x : ℕ) (xs : List ℕ) → (t : ℕ) × (last_or (some x) xs ≡ some t)
last_or-some x [] = (x, refl)
last_or-some x (y ∷ xs) = last_or-some y xs

pub last_or-member :
    (x : ℕ) (xs : List ℕ) (t : ℕ) → last_or (some x) xs ≡ some t → member t (x ∷ xs) ≡ true
last_or-member x [] t e = let eq : x ≡ t = cc in ground arith
last_or-member x (y ∷ xs) t e = ground (arith, last_or-member y xs t e)

pub Distinct-split :
    (xs ys : List ℕ)
    → Distinct (xs ++ ys)
    → Distinct xs × Distinct ys × ((a : ℕ) → member a xs ≡ true → member a ys ≡ false)
unfolding Distinct
Distinct-split [] ys d = (tt, d, λ a h. absurd cc)
Distinct-split (x ∷ xs) ys d =
    let rest = Distinct-split xs ys d.1 in
    let both = member-append x xs ys in
    ((ground (arith, both), rest.0), rest.1, λ a h. ground (arith, both, rest.2 a))

pub Distinct-append :
    (xs ys : List ℕ)
    → Distinct xs
    → Distinct ys
    → ((a : ℕ) → member a xs ≡ true → member a ys ≡ false)
    → Distinct (xs ++ ys)
unfolding Distinct
Distinct-append [] ys dx dy apart = dy
Distinct-append (x ∷ xs) ys dx dy apart =
    let rest = Distinct-append xs ys dx.1 dy (λ a h. apart a (ground arith)) in
    (ground (arith, member-append x xs ys, apart x), rest)

pub past_last :
    (before x : ℕ) (xs : List ℕ) (f : ℕ → Option ℕ) (v : Option ℕ)
    → (before == x) ≡ false
    → member x xs ≡ false
    → set_opt f (last_or (some before) xs) v x ≡ f x
past_last before x [] f v apart out = rw apart refl
past_last before x (y ∷ xs) f v apart out = past_last y x xs f v (ground arith) (ground arith)

-- A node that is put between two parts, or taken out from between them.
pub Distinct-put :
    (xs ys : List ℕ) (a : ℕ)
    → Distinct (xs ++ ys)
    → member a (xs ++ ys) ≡ false
    → Distinct (xs ++ a ∷ ys)
unfolding Distinct
Distinct-put [] ys a d out = (out, d)
Distinct-put (x ∷ xs) ys a d out =
    let rest = Distinct-put xs ys a d.1 (ground arith) in
    (ground (arith, member-append x xs ys, member-append x xs (a ∷ ys)), rest)

pub Distinct-take :
    (xs ys : List ℕ) (a : ℕ)
    → Distinct (xs ++ a ∷ ys)
    → Distinct (xs ++ ys) × (member a (xs ++ ys) ≡ false)
unfolding Distinct
Distinct-take [] ys a d = (d.1, d.0)
Distinct-take (x ∷ xs) ys a d =
    let rest = Distinct-take xs ys a d.1 in
    let both = member-append x xs (a ∷ ys) in
    ((ground (arith, both, member-append x xs ys), rest.0), ground (arith, both))

module _ (prev next : ℕ → Option ℕ) where
  pub Linked-append :
      (before : Option ℕ) (xs ys : List ℕ) (after : Option ℕ)
      → Linked prev next before xs (first_or after ys)
      → Linked prev next (last_or before xs) ys after
      → Linked prev next before (xs ++ ys) after
  unfolding Linked
  Linked-append before [] ys after l r = r
  Linked-append before (x ∷ xs) ys after l r =
      (l.0, l.1 ∙ sym (first_or-append after xs ys), Linked-append (some x) xs ys after l.2 r)

  pub Linked-split :
      (before : Option ℕ) (xs ys : List ℕ) (after : Option ℕ)
      → Linked prev next before (xs ++ ys) after
      → Linked prev next before xs (first_or after ys)
        × Linked prev next (last_or before xs) ys after
  unfolding Linked
  Linked-split before [] ys after l = (tt, l)
  Linked-split before (x ∷ xs) ys after l =
      let rest = Linked-split (some x) xs ys after l.2 in
      ((l.0, l.1 ∙ first_or-append after xs ys, rest.0), rest.1)

  pub write_prev :
      (before : Option ℕ) (xs : List ℕ) (after : Option ℕ) (a : ℕ) (v : Option ℕ)
      → member a xs ≡ false
      → Linked prev next before xs after
      → Linked (set_at prev a v) next before xs after
  unfolding Linked
  write_prev before [] after a v out l = l
  write_prev before (x ∷ xs) after a v out l =
      let other : (a == x) ≡ false = ground arith in
      (rw other l.0, l.1, write_prev (some x) xs after a v (ground arith) l.2)

  pub write_next :
      (before : Option ℕ) (xs : List ℕ) (after : Option ℕ) (a : ℕ) (v : Option ℕ)
      → member a xs ≡ false
      → Linked prev next before xs after
      → Linked prev (set_at next a v) before xs after
  unfolding Linked
  write_next before [] after a v out l = l
  write_next before (x ∷ xs) after a v out l =
      let other : (a == x) ≡ false = ground arith in
      (l.0, rw other l.1, write_next (some x) xs after a v (ground arith) l.2)

  -- The segment is hung behind another node.
  pub write_first :
      (before : Option ℕ) (xs : List ℕ) (after v : Option ℕ)
      → Distinct xs
      → Linked prev next before xs after
      → Linked (set_opt prev (first_or none xs) v) next v xs after
  unfolding Linked Distinct
  write_first before [] after v d l = l
  write_first before (x ∷ xs) after v d l =
      (rw (==_refl x) refl, l.1, write_prev (some x) xs after x v d.0 l.2)

  -- Another node is hung behind the segment.
  pub write_last :
      (before : Option ℕ) (xs : List ℕ) (after v : Option ℕ)
      → Distinct xs
      → Linked prev next before xs after
      → Linked prev (set_opt next (last_or none xs) v) before xs v
  unfolding Linked Distinct
  write_last before [] after v d l = l
  write_last before (x ∷ []) after v d l = (l.0, rw (==_refl x) refl, tt)
  write_last before (x ∷ y ∷ xs) after v d l =
      let rest = write_last (some x) (y ∷ xs) after v d.1 l.2 in
      let far = past_last y x xs next v (ground arith) (ground arith) in (l.0, far ∙ l.1, rest)

  -- The last node of one part is not in the other.
  pub write_next-last :
      (xs ys : List ℕ) (before after v : Option ℕ)
      → Distinct (xs ++ ys)
      → Linked prev next before ys after
      → Linked prev (set_opt next (last_or none xs) v) before ys after
  write_next-last [] ys before after v d l = l
  write_next-last (x ∷ xs) ys before after v d l =
      let t = last_or-some x xs in
      let out = (Distinct-split (x ∷ xs) ys d).2 t.0 (last_or-member x xs t.0 t.1) in
      rw t.1 (write_next before ys after t.0 v out l)

  pub write_prev-first :
      (xs ys : List ℕ) (before after v : Option ℕ)
      → Distinct (xs ++ ys)
      → Linked prev next before xs after
      → Linked (set_opt prev (first_or none ys) v) next before xs after
  write_prev-first xs [] before after v d l = l
  write_prev-first xs (y ∷ ys) before after v d l =
      let out = (Distinct-take xs ys y d).1 in
      write_prev before xs after y v (ground (arith, member-append y xs ys)) l

-- A write to the end of a list that the address is not in.
pub miss_first :
    (f : ℕ → Option ℕ) (xs : List ℕ) (v : Option ℕ) (a : ℕ)
    → member a xs ≡ false
    → set_opt f (first_or none xs) v a ≡ f a
miss_first f [] v a out = refl
miss_first f (x ∷ xs) v a out = let other : (x == a) ≡ false = ground arith in rw other refl

pub miss_last :
    (f : ℕ → Option ℕ) (xs : List ℕ) (v : Option ℕ) (a : ℕ)
    → member a xs ≡ false
    → set_opt f (last_or none xs) v a ≡ f a
miss_last f [] v a out = refl
miss_last f (x ∷ xs) v a out = past_last x a xs f v (ground arith) (ground arith)
