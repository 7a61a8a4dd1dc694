-- ===== src/Htable/Chain.antt =====
-- One chain of src/iw_htable.c: how often a hash stands in it, and what the loops do to it.
use insta_works.Base.{
  ℕ, ◌+◌, ◌≤◌, ◌<◌, ◌≡◌, false, ==_refl, ◌≢◌, refl, Bool-cases, inl, inr, none, some, List, [], ◌∷◌,
  ◌++◌, arith, ◌==◌, if◌then◌else◌, length,
}
use insta_works.Htable.{Node, find, unlink}

pub data In {ℓ} {A : Type ℓ} (a : A) : List A → Type ℓ where
  here : {xs : List A} → In a (a ∷ xs)
  there : {x : A} {xs : List A} → In a xs → In a (x ∷ xs)

module _ {ℓ} {A : Type ℓ} where
  -- How many nodes of the chain carry the hash.
  unfoldable pub count : ℕ → List (Node A) → ℕ
  count h [] = 0
  count h (n ∷ ns) = (if n.hash == h then 1 else 0) + count h ns

  pub find-eq-none : (h : ℕ) (c : List (Node A)) → count h c ≡ 0 → find h c ≡ none
  unfolding count find
  find-eq-none h [] e = refl
  find-eq-none h (n ∷ ns) e = ground (arith, find-eq-none h ns)

  pub count-eq-zero : (h : ℕ) (c : List (Node A)) → find h c ≡ none → count h c ≡ 0
  unfolding count find
  count-eq-zero h [] e = refl
  count-eq-zero h (n ∷ ns) e = ground (arith, count-eq-zero h ns)

  pub find-hash : (h : ℕ) (c : List (Node A)) (n : Node A) → find h c ≡ some n → n.hash ≡ h
  unfolding find
  find-hash h [] n e = ground arith
  find-hash h (m ∷ ms) n e = ground (arith, find-hash h ms n)

  pub count-append : (h : ℕ) (b c : List (Node A)) → count h (b ++ c) ≡ count h b + count h c
  unfolding count
  count-append h [] c = omega arith
  count-append h (n ∷ b) c = omega (arith, count-append h b c)

  -- The loop fails exactly on a chain without the hash.
  pub unlink-none : (h : ℕ) (c : List (Node A)) → find h c ≡ none → unlink h c ≡ none
  unfolding find unlink
  unlink-none h [] e = refl
  unlink-none h (n ∷ ns) e = ground (arith, unlink-none h ns)

  -- `ms` is the chain `c` less its first node with the hash.
  pub record Unlinked (h : ℕ) (c : List (Node A)) (ms : List (Node A)) : Type ℓ where
    pub shorter : length ms + 1 ≡ length c
    pub counts : (q : ℕ) → count q ms + (if h == q then 1 else 0) ≡ count q c
    pub finds : count h c ≤ 1 → (q : ℕ) → find q ms ≡ (if h == q then none else find q c)

  pub head-Unlinked :
      (h : ℕ) (n : Node A) (ns : List (Node A)) → n.hash ≡ h → Unlinked h (n ∷ ns) ns
  unfolding find count
  head-Unlinked h n ns e = record {
    shorter = omega arith;
    counts = λ q. ground arith;
    finds = λ once q. ground (arith, find-eq-none q ns);
  }

  pub tail-Unlinked :
      {h : ℕ} (n : Node A) {ns ms : List (Node A)}
      → n.hash ≢ h
      → Unlinked h ns ms
      → Unlinked h (n ∷ ns) (n ∷ ms)
  unfolding find count
  tail-Unlinked n ne u = record {
    shorter = omega arith;
    counts = λ q. omega (arith, u.counts q);
    finds = λ once q. ground (arith, u.finds (ground arith) q);
  }

  -- On a chain with the hash the loop hands over the data that `find` finds, and unlinks the node.
  pub unlink-Unlinked :
      (h : ℕ) (c : List (Node A)) (n : Node A)
      → find h c ≡ some n
      → (ms : List (Node A)) × (unlink h c ≡ some (n.item, ms)) × Unlinked h c ms
  unfolding find unlink
  unlink-Unlinked h [] n e = cc
  unlink-Unlinked h (m ∷ ns) n e = elim (Bool-cases (m.hash == h)) [
    | inl hit ↦ (ns, ground arith, head-Unlinked h m ns (ground arith))
    | inr miss ↦
        let (ms, run, u) = unlink-Unlinked h ns n (ground arith) in
        (m ∷ ms, rw (miss, run), tail-Unlinked m (ground arith) u)
  ]

  count-In : {n : Node A} {c : List (Node A)} → In n c → 0 < count n.hash c
  unfolding count
  count-In {n} here = ground (arith, ==_refl n.hash)
  count-In (there i) = omega (arith, count-In i)

  -- A node of a list in which its hash stands once is what the search for that hash finds.
  pub find-In :
      {n : Node A} {c : List (Node A)} → In n c → count n.hash c ≤ 1 → find n.hash c ≡ some n
  unfolding find count
  find-In {n} here once = rw (find, ==_refl n.hash)
  find-In {n} (there {x} {xs} i) once =
      let other : (x.hash == n.hash) ≡ false = ground (arith, count-In i) in
      rw (find, other) (find-In i (omega arith))
