-- ===== src/IwList/Between.antt =====
-- The links of two parts of a list when a node is put between them.
use insta_works.Base.{
  member, ℕ, ◌≡◌, refl, ◌∙◌, false, Option, none, some, List, [], ◌∷◌, ◌++◌, arith, ==_refl,
}
use insta_works.IwList.{set_at, set_opt}
use insta_works.IwList.Segment.{
  Distinct, Distinct-split, first_or, last_or, Linked, member-append, Linked-append, Linked-split,
  write_prev, write_next, write_first, write_last, write_prev-first, write_next-last, miss_first,
  miss_last,
}

pub one :
    (prev next : ℕ → Option ℕ) (before : Option ℕ) (x : ℕ) (after : Option ℕ)
    → prev x ≡ before
    → next x ≡ after
    → Linked prev next before (x ∷ []) after
unfolding Linked
one prev next before x after p n = (p, n, tt)

pub hit : (f : ℕ → Option ℕ) (a : ℕ) (v : Option ℕ) → set_at f a v a ≡ v
hit f a v = rw (==_refl a) refl

-- The links of two parts with a node between them.
module _ (prev next : ℕ → Option ℕ) (xs ys : List ℕ) (node : ℕ) where
  abbrev pub prev_put : ℕ → Option ℕ
  prev_put = set_opt (set_at prev node (last_or none xs)) (first_or none ys) (some node)

  abbrev pub next_put : ℕ → Option ℕ
  next_put = set_opt (set_at next node (first_or none ys)) (last_or none xs) (some node)

  pub put-Linked :
      Distinct (xs ++ ys)
      → member node (xs ++ ys) ≡ false
      → Linked prev next none (xs ++ ys) none
      → Linked prev_put next_put none (xs ++ node ∷ ys) none
  put-Linked d out l =
      let parts = Linked-split prev next none xs ys none l in
      let apart = Distinct-split xs ys d in
      let outx : member node xs ≡ false = ground (arith, out, member-append node xs ys) in
      let outy : member node ys ≡ false = ground (arith, out, member-append node xs ys) in
      let prev0 = set_at prev node (last_or none xs) in
      let next0 = set_at next node (first_or none ys) in
      let x0 =
        write_prev prev next none xs (first_or none ys) node (last_or none xs) outx parts.0 in
      let x1 = write_prev-first prev0 next xs ys none (first_or none ys) (some node) d x0 in
      let x2 =
        write_next prev_put next none xs (first_or none ys) node (first_or none ys) outx x1 in
      let x3 = write_last prev_put next0 none xs (first_or none ys) (some node) apart.0 x2 in
      let y0 =
        write_next prev next (last_or none xs) ys none node (first_or none ys) outy parts.1 in
      let y1 = write_next-last prev next0 xs ys (last_or none xs) none (some node) d y0 in
      let y2 = write_prev prev next_put (last_or none xs) ys none node (last_or none xs) outy y1 in
      let y3 = write_first prev0 next_put (last_or none xs) ys none (some node) apart.1 y2 in
      let p = miss_first prev0 ys (some node) node outy in
      let n = miss_last next0 xs (some node) node outx in
      let here =
        one prev_put next_put (last_or none xs) node (first_or none ys)
          (p ∙ hit prev node (last_or none xs)) (n ∙ hit next node (first_or none ys)) in
      Linked-append prev_put next_put none xs (node ∷ ys) none x3
        (Linked-append prev_put next_put (last_or none xs) (node ∷ []) ys none here y3)
