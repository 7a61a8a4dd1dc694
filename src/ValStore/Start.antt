-- ===== src/ValStore/Start.antt =====
-- iw_val_store_initialize makes a store without values and names.
use insta_works.Base.{ℕ, ◌≡◌, refl, sym, ◌∙◌, ap, Bool, true, false, none, some, arith}
use insta_works.Htable.{init}
use insta_works.Htable.Writes.{item_of}
use insta_works.Htable.Start.{init-Starts}
use insta_works.ValStore.{ValStore, Platform, initialize}
use insta_works.ValStore.Admit.{IsStore, IsAdmitted, value_at, criteria_at}

module _ {Address Regex : Type 0} (p : Platform Address Regex) where
  -- A store that was just made, with names or without.
  pub record StartsStore (r : Bool × ValStore Address Regex) : Type 0 where
    pub returns : r.0 ≡ true
    pub valid : IsStore r.1
    pub admitted : IsAdmitted p r.1
    pub values : (h : ℕ) → value_at r.1 h ≡ none
    pub criteria : (h : ℕ) → criteria_at r.1 h ≡ none

  -- iw_val_store_initialize of a controlled store, with memory for both tables: it succeeds, the tables
  -- are valid and hash by iw_hash_data, no hash has a value or criteria, and the store is within its
  -- criteria.
  pub initialize-StartsStore :
      (store : ValStore Address Regex) → StartsStore (initialize true true store true)
  unfolding initialize init IsAdmitted
  initialize-StartsStore store =
      let table = init-Starts store.table 1024 false none (omega arith) in
      let names = init-Starts store.names 1024 false none (omega arith) in
      record {
        returns = refl;
        valid = record {
          table = table.valid;
          names = names.valid;
          table_fn = λ k. refl;
          names_fn = λ k. refl;
        };
        admitted = λ c h v there.
            let gone : none ≡ some v = sym (ap item_of (table.absent h)) ∙ there in absurd cc;
        values = λ h. ap item_of (table.absent h);
        criteria = λ h. ap item_of (names.absent h);
      }
