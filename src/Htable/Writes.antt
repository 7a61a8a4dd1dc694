-- ===== src/Htable/Writes.antt =====
-- iw_htable_insert, iw_htable_replace, iw_htable_remove and iw_htable_delete as updates of the map
-- that the table stands for.
use insta_works.Base.{
  ℕ, ◌%◌, ◌≤◌, ◌≡◌, refl, Bool-cases, inl, inr, Option, Option-cases, none, some, List, [], ◌∷◌,
  arith, ◌==◌, ==_iff, if◌then◌else◌, pred32,
}
use insta_works.Hash.{Key}
use insta_works.Htable.Chain.{
  count, count-eq-zero, Unlinked, head-Unlinked, tail-Unlinked, unlink-Unlinked, unlink-none,
}
use insta_works.Htable.Valid.{
  lookup, IsValid, Rewritten, length-Rewritten, Rewritten-IsValid, lookup-Rewritten,
}
use insta_works.Htable.{Node, node, Htable, bucket, find, get, remove_from, remove, push}

-- The data of a node, or NULL.
abbrev pub item_of {ℓ} : {A : Type ℓ} → Option (Node A) → Option A
item_of none = none
item_of (some n) = n.item

module _ {ℓ} {A : Type ℓ} where
  -- `t'` is a valid table that differs from `t` at the hash `h` alone, where it has `found`.
  pub record Updates (t : Htable A) (h : ℕ) (found : Option (Node A)) (t' : Htable A) : Type ℓ where
    pub valid : IsValid t'
    pub fn : t'.fn ≡ t.fn
    pub size : t'.size ≡ t.size
    pub lookups : (q : ℕ) → lookup t' q ≡ (if h == q then found else lookup t q)

  -- `get` reads the map at the hash that the table's own function gives.
  pub get-lookup : (t : Htable A) (k : Key) → get t k ≡ item_of (lookup t (t.fn k))
  unfolding get lookup
  get-lookup t k = elim (Option-cases (find (t.fn k) (bucket t (t.fn k % t.size)))) [
    | inl e ↦ rw (e, get)
    | inr (n, e) ↦ rw (e, get)
  ]

  pub push-Updates :
      (t : Htable A) (h : ℕ) (a : Option A)
      → IsValid t
      → lookup t h ≡ none
      → Updates t h (some (node h a)) (push t h (h % t.size) a)
  unfolding push lookup count find
  push-Updates t h a v absent =
      let c = bucket t (h % t.size) in
      let r : Rewritten t h (node h a ∷ c) (push t h (h % t.size) a) = record {
        table = refl;
        size = refl;
      } in
      let zeroes = count-eq-zero h c absent in
      record {
        valid =
            Rewritten-IsValid v r (λ q. ground (arith, zeroes))
              (omega (arith, length-Rewritten v r, v.counted));
        fn = refl;
        size = refl;
        lookups =
            lookup-Rewritten v r (some (node h a))
              (λ q. elim (Bool-cases (h == q)) [ inl e ↦ rw e | inr e ↦ rw e ]);
      }

  -- A removal that finds `n` takes it out of the map and hands over its data.
  pub record Removes (t : Htable A) (h : ℕ) (r : Option A × Htable A) : Type ℓ where
    pub returns : r.0 ≡ item_of (lookup t h)
    pub updates : Updates t h none r.1

  Unlinked-Updates :
      {t t' : Htable A} {h : ℕ} {c : List (Node A)} (ms : List (Node A))
      → IsValid t
      → bucket t (h % t.size) ≡ c
      → Unlinked h c ms
      → Rewritten t h ms t'
      → t'.num_elems ≡ pred32 t.num_elems
      → t'.fn ≡ t.fn
      → Updates t h none t'
  Unlinked-Updates {t} {h} ms v e u r fewer fn =
      let w : Unlinked h (bucket t (h % t.size)) ms = rw e u in
      let once : count h (bucket t (h % t.size)) ≤ 1 = ground (arith, v.placed h (h % t.size)) in
      record {
        valid =
            Rewritten-IsValid v r (λ q. ground (arith, w.counts q))
              (omega (arith, length-Rewritten v r, v.counted, w.shorter));
        fn = fn;
        size = r.size;
        lookups = lookup-Rewritten v r none (w.finds once);
      }

  absent-Removes : (t : Htable A) (h : ℕ) → IsValid t → lookup t h ≡ none → Removes t h (none, t)
  absent-Removes t h v e = record {
    returns = rw e;
    updates = record {
      valid = v;
      fn = refl;
      size = refl;
      lookups = λ q. elim (Bool-cases (h == q)) [
        | inl same ↦ rw same (rw (← (==_iff h q).0 same) e)
        | inr other ↦ rw other
      ];
    };
  }

  remove_from-Removes :
      (t : Htable A) (h : ℕ) (c : List (Node A))
      → IsValid t
      → bucket t (h % t.size) ≡ c
      → Removes t h (remove_from t h (h % t.size) c)
  unfolding remove_from lookup find
  remove_from-Removes t h [] v e = absent-Removes t h v (rw e)
  remove_from-Removes t h (n ∷ ns) v e = elim (Bool-cases (n.hash == h)) [
    | inl hit ↦ rw hit (record {
      returns = rw (e, find, hit);
      updates =
          Unlinked-Updates ns v e (head-Unlinked h n ns ((==_iff n.hash h).0 hit))
            (record { table = refl; size = refl }) refl refl;
    })
    | inr miss ↦ elim (Option-cases (find h ns)) [
      | inl absent ↦
          rw (miss, unlink-none h ns absent) (absent-Removes t h v (rw (e, find, miss) absent))
      | inr (m, there) ↦
          let (ms, run, u) = unlink-Unlinked h ns m there in
          rw (miss, run)
            (record {
              returns = rw (e, find, miss, there);
              updates =
                  Unlinked-Updates (n ∷ ms) v e (tail-Unlinked n (ground arith) u)
                    (record { table = refl; size = refl }) refl refl;
            })
    ]
  ]

  -- On a valid table iw_htable_remove returns the data that stands under the key's hash, or NULL,
  -- and leaves a valid table in which that hash is absent and every other one reads as before.
  pub remove-Removes : (t : Htable A) (k : Key) → IsValid t → Removes t (t.fn k) (remove t k)
  unfolding remove
  remove-Removes t k v = remove_from-Removes t (t.fn k) _ v refl
