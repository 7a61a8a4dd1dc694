-- ===== src/Htable/Valid.antt =====
-- The invariant of a hash table, the map that it stands for, and a write to one bucket.
use mathlib.Core.List.{flatten}
use native.Mathlib.Nat.{mod-lt}
use insta_works.Base.{
  ℕ, zero, suc, ◌+◌, ◌%◌, ◌≤◌, ◌<◌, ◌≡◌, false, Bool-cases, inl, inr, Option, List, [], ◌∷◌, arith,
  ◌==◌, ==_iff, if◌then◌else◌, u32, get_or, set, length, length-append, length-set, get_or-set,
}
use insta_works.Htable.Chain.{count}
use insta_works.Htable.{Node, Htable, bucket, find}

module _ {ℓ} {A : Type ℓ} where
  -- All the nodes, bucket by bucket.
  abbrev pub nodes : Htable A → List (Node A)
  nodes t = flatten t.table

  -- The node that stands for a hash: the first one in its home bucket.
  unfoldable pub lookup : Htable A → ℕ → Option (Node A)
  lookup t h = find h (bucket t (h % t.size))

  -- A hash stands at most once in its home bucket, and in no other. The counter is the number of
  -- nodes, on 32 bits.
  pub record IsValid (t : Htable A) : Type ℓ where
    pub pos : 0 < t.size
    pub width : length t.table ≡ t.size
    pub placed : (h i : ℕ) → count h (bucket t i) ≤ (if i == h % t.size then 1 else 0)
    pub counted : t.num_elems ≡ u32 (length (nodes t))

  pub length-flatten-set :
      (bs : List (List (Node A))) (i : ℕ) (c : List (Node A))
      → i < length bs
      → length (flatten (set bs i c)) + length (get_or bs i []) ≡ length (flatten bs) + length c
  unfolding flatten
  length-flatten-set [] i c h = absurd (omega arith)
  length-flatten-set (b ∷ bs) zero c h =
      omega (arith, length-append c (flatten bs), length-append b (flatten bs))
  length-flatten-set (b ∷ bs) (suc i) c h = omega (
    arith,
    length-append b (flatten (set bs i c)),
    length-append b (flatten bs),
    length-flatten-set bs i c (omega arith),
  )

  pub home-lt : {t : Htable A} → IsValid t → (h : ℕ) → h % t.size < length t.table
  home-lt {t} v h = omega (arith, mod-lt h v.pos)

  -- `t'` is `t` with the home bucket of `h` replaced by `c`.
  pub record Rewritten (t : Htable A) (h : ℕ) (c : List (Node A)) (t' : Htable A) : Type ℓ where
    pub table : t'.table ≡ set t.table (h % t.size) c
    pub size : t'.size ≡ t.size

  module _ {t t' : Htable A} {h : ℕ} {c : List (Node A)} (v : IsValid t)
      (r : Rewritten t h c t') where
    pub bucket-Rewritten : (i : ℕ) → bucket t' i ≡ (if h % t.size == i then c else bucket t i)
    bucket-Rewritten i = rw r.table (get_or-set t.table (h % t.size) i c [] (home-lt v h))

    pub length-Rewritten :
        length (nodes t') + length (bucket t (h % t.size)) ≡ length (nodes t) + length c
    length-Rewritten = rw r.table (length-flatten-set t.table (h % t.size) c (home-lt v h))

    -- It is enough to know the new bucket: how often it holds each hash, and what it finds.
    pub Rewritten-IsValid :
        ((q : ℕ) → count q c ≤ (if h == q then 1 else count q (bucket t (h % t.size))))
        → t'.num_elems ≡ u32 (length (nodes t'))
        → IsValid t'
    Rewritten-IsValid few counted = record {
      pos = omega (arith, r.size, v.pos);
      width = rw (r.table, length-set, r.size) v.width;
      placed = λ q i. rw (bucket-Rewritten i, r.size) (ground (arith, few q, v.placed q i));
      counted = counted;
    }

    ne_home : (q : ℕ) → (h % t.size == q % t.size) ≡ false → (h == q) ≡ false
    ne_home q e = ground arith

    pub lookup-Rewritten :
        (found : Option (Node A))
        → ((q : ℕ) → find q c ≡ (if h == q then found else find q (bucket t (h % t.size))))
        → (q : ℕ) → lookup t' q ≡ (if h == q then found else lookup t q)
    unfolding lookup
    lookup-Rewritten found finds q =
        rw (r.size, bucket-Rewritten (q % t.size))
          (elim (Bool-cases (h % t.size == q % t.size)) [
            | inl e ↦ rw (e, finds q, (==_iff (h % t.size) (q % t.size)).0 e)
            | inr e ↦ rw (e, ne_home q e)
          ])
