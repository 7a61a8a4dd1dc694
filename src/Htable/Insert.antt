-- ===== src/Htable/Insert.antt =====
-- iw_htable_insert, iw_htable_delete and iw_htable_replace on a valid table.
use insta_works.Base.{
  ℕ, ◌+◌, ◌%◌, ◌≡◌, refl, ◌∙◌, Bool, true, false, ◌&&◌, not, Bool-cases, inl, inr, Option,
  Option-cases, none, some, List, [], ◌∷◌, ◌==◌, ==_refl, if◌then◌else◌, u32,
}
use insta_works.Hash.{Key, hash_data}
use insta_works.Htable.Valid.{lookup, IsValid}
use insta_works.Htable.Writes.{item_of, Updates, push-Updates, Removes, remove-Removes}
use insta_works.Htable.{
  Node, node, Htable, bucket, is_empty, find, remove, delete, push, add_node, replace, insert,
}

abbrev pub is_none {ℓ} : {A : Type ℓ} → Option A → Bool
is_none none = true
is_none (some _) = false

-- The data that is not NULL.
abbrev pub freed_of {ℓ} : {A : Type ℓ} → Option A → List A
freed_of none = []
freed_of (some a) = a ∷ []

and_false : (b : Bool) → false ≡ (b && false)
and_false true = refl
and_false false = refl

module _ {ℓ} {A : Type ℓ} where
  -- What an insertion under the hash `h` returns and leaves: it succeeds if there is memory and the
  -- hash is not in the table, and then only that hash reads differently; if it fails, none does.
  pub record Inserts (mem : Bool) (t : Htable A) (h : ℕ) (item : Option A) (r : Bool × Htable A)
      : Type ℓ where
    pub returns : r.0 ≡ (mem && is_none (lookup t h))
    pub valid : IsValid r.1
    pub fn : r.1.fn ≡ t.fn
    pub lookups :
        (q : ℕ) → lookup r.1 q ≡ (if r.0 && (h == q) then some (node h item) else lookup t q)

  counted_anew : (t : Htable A) (c : ℕ) → IsValid t → IsValid (record t { collisions = c })
  counted_anew t c v = record {
    pos = v.pos;
    width = v.width;
    placed = v.placed;
    counted = v.counted;
  }

  -- The table with the collision counted, before the node is allocated.
  noted : Htable A → ℕ → Htable A
  noted t h = record t {
    collisions = if is_empty (bucket t (h % t.size)) then t.collisions else u32 (t.collisions + 1);
  }

  insert-present :
      (mem : Bool) (t : Htable A) (k : Key) (item : Option A) (n : Node A)
      → lookup t (hash_data k) ≡ some n
      → insert mem t k item ≡ (false, t)
  unfolding insert lookup
  insert-present mem t k item n e =
      let found : find (hash_data k) (bucket t (hash_data k % t.size)) ≡ some n = e in
      rw (found, insert, replace)

  insert-absent :
      (mem : Bool) (t : Htable A) (k : Key) (item : Option A)
      → lookup t (hash_data k) ≡ none
      → insert mem t k item ≡ (
          let h = hash_data k in
          if mem then (true, push (noted t h) h (h % t.size) item) else (false, noted t h))
  unfolding insert lookup noted
  insert-absent true t k item e =
      let missed : find (hash_data k) (bucket t (hash_data k % t.size)) ≡ none = e in
      rw (missed, insert, replace)
  insert-absent false t k item e =
      let missed : find (hash_data k) (bucket t (hash_data k % t.size)) ≡ none = e in
      rw (missed, insert, replace)

  noted-IsValid : (t : Htable A) (h : ℕ) → IsValid t → IsValid (noted t h)
  unfolding noted
  noted-IsValid t h v = counted_anew t _ v

  added :
      (mem : Bool) (t : Htable A) (h : ℕ) (item : Option A)
      → IsValid t
      → lookup t h ≡ none
      → Inserts mem t h item
          (if mem then (true, push (noted t h) h (h % t.size) item) else (false, noted t h))
  unfolding noted lookup
  added true t h item v e =
      let u = push-Updates (noted t h) h item (noted-IsValid t h v) e in
      record { returns = rw e; valid = u.valid; fn = u.fn; lookups = u.lookups }
  added false t h item v e = record {
    returns = refl;
    valid = noted-IsValid t h v;
    fn = refl;
    lookups = λ q. refl;
  }

  -- iw_htable_delete: whether data was found, the table less the key's hash, and the call of `fn`.
  pub record Deletes (t : Htable A) (h : ℕ) (has_fn : Bool) (r : Bool × Htable A × List A)
      : Type ℓ where
    pub returns : r.0 ≡ not (is_none (item_of (lookup t h)))
    pub updates : Updates t h none r.1
    pub freed : r.2 ≡ (if has_fn then freed_of (item_of (lookup t h)) else [])

  delete_of :
      (t : Htable A) (h : ℕ) (has_fn : Bool) (r : Option A × Htable A)
      → Removes t h r
      → Deletes t h has_fn (elim r.0 [
        | none ↦ (false, r.1, [])
        | some a ↦ (true, r.1, if has_fn then a ∷ [] else [])
      ])
  delete_of t h true (none, t') w = record {
    returns = rw (← w.returns);
    updates = w.updates;
    freed = rw (← w.returns);
  }
  delete_of t h false (none, t') w = record {
    returns = rw (← w.returns);
    updates = w.updates;
    freed = refl;
  }
  delete_of t h true (some a, t') w = record {
    returns = rw (← w.returns);
    updates = w.updates;
    freed = rw (← w.returns);
  }
  delete_of t h false (some a, t') w = record {
    returns = rw (← w.returns);
    updates = w.updates;
    freed = refl;
  }

  -- iw_htable_delete on a valid table: it returns true exactly if data other than NULL stands under the
  -- key's hash, that data is given to the deletion function if there is one, and the table is then
  -- valid, with that hash absent and every other one as before.
  pub delete-Deletes :
      (t : Htable A) (k : Key) (has_fn : Bool)
      → IsValid t
      → Deletes t (t.fn k) has_fn (delete t k has_fn)
  unfolding delete
  delete-Deletes t k has_fn v = delete_of t (t.fn k) has_fn (remove t k) (remove-Removes t k v)

  -- iw_htable_replace with a deletion function, where the table's hash function is the default one.
  pub record Replaces (mem : Bool) (t : Htable A) (h : ℕ) (item : Option A)
      (r : Bool × Htable A × List A) : Type ℓ where
    pub returns : r.0 ≡ mem
    pub updates : Updates t h (if mem then some (node h item) else none) r.1
    pub freed : r.2 ≡ freed_of (item_of (lookup t h))

  replaced :
      (mem : Bool) (t : Htable A) (h : ℕ) (item : Option A) (r : Bool × Htable A × List A)
      → Deletes t h true r
      → Replaces mem t h item (add_node mem r.1 h (h % t.size) item r.2)
  unfolding add_node
  replaced false t h item r d = record { returns = refl; updates = d.updates; freed = d.freed }
  replaced true t h item r d =
      let u = d.updates in
      let gone : lookup r.1 h ≡ none = rw (u.lookups h, ==_refl h) in
      let w : Updates r.1 h (some (node h item)) (push r.1 h (h % t.size) item) =
        rw (← u.size) (push-Updates r.1 h item u.valid gone) in
      record {
        returns = refl;
        updates = record {
          valid = w.valid;
          fn = w.fn ∙ u.fn;
          size = w.size ∙ u.size;
          lookups = λ q. elim (Bool-cases (h == q)) [
            | inl e ↦ rw (w.lookups q, e)
            | inr e ↦ rw (w.lookups q, e, u.lookups q, e)
          ];
        };
        freed = d.freed;
      }

  -- iw_htable_replace with a deletion function, on a valid table whose hash of the key is that of
  -- iw_hash_data: the table stays valid, and the call succeeds exactly if the new node's memory is there. The old data of that hash is deleted in both
  -- cases. On success the hash reads as the new node, on failure it is absent, and all other hashes
  -- read as before.
  pub replace-Replaces :
      (mem : Bool) (t : Htable A) (k : Key) (item : Option A)
      → IsValid t
      → t.fn k ≡ hash_data k
      → Replaces mem t (hash_data k) item (replace mem t k item true)
  unfolding replace
  replace-Replaces mem t k item v same =
      replaced mem t (hash_data k) item (delete t k true) (rw same at (delete-Deletes t k true v))

  -- iw_htable_insert on a valid table leaves a valid table with the same hash function. It adds the
  -- node exactly if its memory is there and no node has the key's hash (by iw_hash_data) yet; all
  -- other hashes, and on failure this one too, read as before.
  pub insert-Inserts :
      (mem : Bool) (t : Htable A) (k : Key) (item : Option A)
      → IsValid t
      → Inserts mem t (hash_data k) item (insert mem t k item)
  insert-Inserts mem t k item v = elim (Option-cases (lookup t (hash_data k))) [
    | inr (n, there) ↦
        rw (insert-present mem t k item n there)
          (record { returns = rw there (and_false mem); valid = v; fn = refl; lookups = λ q. refl })
    | inl absent ↦ rw (insert-absent mem t k item absent) (added mem t (hash_data k) item v absent)
  ]
