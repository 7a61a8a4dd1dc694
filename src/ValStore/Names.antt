-- ===== src/ValStore/Names.antt =====
-- iw_val_store_delete_name and the calls that add a name keep a controlled store within its criteria.
use mathlib.Core.Bool.{true≢false}
use insta_works.Base.{
  ℕ, ◌≡◌, refl, sym, ◌∙◌, ap, Bool, true, false, ◌&&◌, Bool-cases, inl, inr, Option, none, some,
  List, arith, ◌==◌, ==_iff, if◌then◌else◌,
}
use insta_works.Hash.{hash_data}
use insta_works.Htable.{Node, node, delete, insert}
use insta_works.Htable.Valid.{lookup}
use insta_works.Htable.Writes.{item_of, Updates}
use insta_works.Htable.Insert.{is_none, insert-Inserts, delete-Deletes}
use insta_works.ValStore.{ValStore, Criteria, Platform, check, delete_name, add_name_internal}
use insta_works.ValStore.Admit.{IsStore, value_at, criteria_at, IsAdmitted}

module _ {Address Regex : Type 0} (p : Platform Address Regex) where
  -- `store'` is the store without the criteria and the value of a hash.
  pub record DeletesName (store : ValStore Address Regex) (h : ℕ) (store' : ValStore Address Regex)
      : Type 0 where
    pub valid : IsStore store'
    pub admitted : IsAdmitted p store → IsAdmitted p store'
    pub values : (q : ℕ) → value_at store' q ≡ (if h == q then none else value_at store q)
    pub criteria : (q : ℕ) → criteria_at store' q ≡ (if h == q then none else criteria_at store q)

  item_of-if :
      {A : Type 0} (b : Bool) (n : Option (Node A))
      → item_of (if b then none else n) ≡ (if b then none else item_of n)
  item_of-if true n = refl
  item_of-if false n = refl

  -- iw_val_store_delete_name on a store whose tables are valid and hash by iw_hash_data leaves such
  -- tables, neither criteria nor a value under the name's hash, and every other hash as it was; a
  -- controlled store that is within its criteria stays so.
  pub delete_name-DeletesName :
      (store : ValStore Address Regex) (name : List ℕ)
      → IsStore store
      → DeletesName store (hash_data (some name)) (delete_name store name)
  unfolding delete_name IsAdmitted
  delete_name-DeletesName store name v =
      let h = hash_data (some name) in
      let table : Updates store.table h none (delete store.table (some name) true).1 =
        (rw (v.table_fn (some name)) at
          (delete-Deletes store.table (some name) true v.table)).updates in
      let names : Updates store.names h none (delete store.names (some name) true).1 =
        (rw (v.names_fn (some name)) at
          (delete-Deletes store.names (some name) true v.names)).updates in
      record {
        valid = record {
          table = table.valid;
          names = names.valid;
          table_fn = λ k. ap (λ f. f k) table.fn ∙ v.table_fn k;
          names_fn = λ k. ap (λ f. f k) names.fn ∙ v.names_fn k;
        };
        admitted = λ a c q u there. elim (Bool-cases (h == q)) [
          | inl e ↦
              let gone : none ≡ some u = sym (rw (table.lookups q, e) refl) ∙ there in absurd cc
          | inr e ↦
              let (n, same, passed) = a c q u (sym (rw (table.lookups q, e) refl) ∙ there) in
              (n, same, rw (names.lookups q, e) passed)
        ];
        values = λ q. rw (table.lookups q) (item_of-if (h == q) _);
        criteria = λ q. rw (names.lookups q) (item_of-if (h == q) _);
      }

  -- `r` is the result of adding criteria under a hash.
  pub record AddsName (mem : Bool) (store : ValStore Address Regex) (h : ℕ)
      (crit : Criteria Address Regex) (r : Bool × ValStore Address Regex) : Type 0 where
    pub returns : r.0 ≡ (mem && is_none (lookup store.names h))
    pub valid : IsStore r.1
    pub admitted : IsAdmitted p store → IsAdmitted p r.1
    pub table : r.1.table ≡ store.table
    pub criteria :
        (q : ℕ) → criteria_at r.1 q ≡ (if r.0 && (h == q) then some crit else criteria_at store q)

  item_of-node :
      {A : Type 0} (b : Bool) (h : ℕ) (a : A) (n : Option (Node A))
      → item_of (if b then some (node h (some a)) else n) ≡ (if b then some a else item_of n)
  item_of-node true h a n = refl
  item_of-node false h a n = refl

  absent_item : {A : Type 0} (n : Option (Node A)) → is_none n ≡ true → item_of n ≡ none
  absent_item none e = refl
  absent_item (some n) e = absurd (true≢false (sym e))

  -- iw_val_store_add_name_internal, with which the three calls that add a name end, on a store whose
  -- tables are valid and hash by iw_hash_data: these stay so. The name's hash gets the criteria if it
  -- was not in the table and the node's memory is there, which is the result; no other hash gets
  -- others, no value changes, and a controlled store that is within its criteria stays so.
  pub add_name_internal-AddsName :
      (mem : Bool) (store : ValStore Address Regex) (name : List ℕ) (crit : Criteria Address Regex)
      → IsStore store
      → AddsName mem store (hash_data (some name)) crit (add_name_internal mem store name crit)
  unfolding add_name_internal IsAdmitted check
  add_name_internal-AddsName mem store name crit v =
      let h = hash_data (some name) in
      let w = insert-Inserts mem store.names (some name) (some crit) v.names in
      let r = insert mem store.names (some name) (some crit) in
      record {
        returns = w.returns;
        valid = record {
          table = v.table;
          names = w.valid;
          table_fn = v.table_fn;
          names_fn = λ k. ap (λ f. f k) w.fn ∙ v.names_fn k;
        };
        admitted = λ a c q u there.
            let (n, same, passed) = a c q u there in
            elim (Bool-cases (r.0 && (h == q))) [
              | inr e ↦ (n, same, rw (w.lookups q, e) passed)
              | inl e ↦
                  let fresh : is_none (lookup store.names h) ≡ true = ground (arith, w.returns) in
                  let here : h ≡ q = (==_iff h q).0 (ground arith) in
                  let missing : criteria_at store q ≡ none = rw (← here) (absent_item _ fresh) in
                  let no : none ≡ some passed.criteria = sym missing ∙ passed.stands in absurd cc
            ];
        table = refl;
        criteria =
            λ q. rw (w.lookups q) (item_of-node (r.0 && (h == q)) h crit (lookup store.names q));
      }
