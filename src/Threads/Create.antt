-- ===== src/Threads/Create.antt =====
-- iw_mutex_create of src/iw_mutex.c: the id that it gives finds the new mutex.
use insta_works.Base.{
  ℕ, ◌+◌, ◌≡◌, refl, ap, ◌∙◌, Bool, true, false, none, some, List, ◌==◌, ==_refl,
}
use insta_works.Hash.{hash_data}
use insta_works.Htable.{Htable, node, insert}
use insta_works.Htable.Valid.{IsValid, lookup}
use insta_works.Htable.Insert.{Inserts, insert-Inserts}
use insta_works.Htable.Writes.{get-lookup, item_of}
use insta_works.Threads.{Threads, put_mutex, mutex_key, mutex_find, mutex_create, mutex_inserted}

-- What a call that creates a mutex at `a` returns and leaves.
pub record Creates (w : Threads) (name : List ℕ) (a : ℕ) (r : ℕ × Threads) : Type 0 where
  pub id : r.0 ≡ w.mutex_id
  pub found : mutex_find r.1 r.0 ≡ some a
  pub info : r.1.minfo a ≡ record { id = r.0; name = name; thread = 0 }
  pub next_id : r.1.mutex_id ≡ w.mutex_id + 1
  pub valid : IsValid r.1.mutexes
  pub others :
      (q : ℕ)
      → (hash_data (mutex_key w.mutex_id) == q) ≡ false
      → lookup r.1.mutexes q ≡ lookup w.mutexes q

module _ (w : Threads) (name : List ℕ) (a : ℕ) where
  abbrev made : Threads
  made = record w {
    minfo = put_mutex a (record { id = w.mutex_id; name = name; thread = 0 }) w.minfo;
    mutex_id = w.mutex_id + 1;
  }

  abbrev key_hash : ℕ
  key_hash = hash_data (mutex_key w.mutex_id)

  inserted-Creates :
      (r : Bool × Htable ℕ)
      → w.mutexes.fn ≡ hash_data
      → r.0 ≡ true
      → Inserts true w.mutexes key_hash (some a) r
      → Creates w name a (mutex_inserted a w.mutex_id made r)
  unfolding mutex_find
  inserted-Creates (false, t) bernstein e ins = absurd cc
  inserted-Creates (true, t) bernstein e ins =
      let fn : t.fn ≡ hash_data = ins.fn ∙ bernstein in
      let hash : t.fn (mutex_key w.mutex_id) ≡ key_hash = ap (λ f. f (mutex_key w.mutex_id)) fn in
      let there : lookup t key_hash ≡ some (node key_hash (some a)) =
        ins.lookups key_hash ∙ rw (==_refl key_hash) refl in
      record {
        id = refl;
        found =
            get-lookup t (mutex_key w.mutex_id)
            ∙ ap (λ h. item_of (lookup t h)) hash
            ∙ ap item_of there;
        info = rw (==_refl a) refl;
        next_id = refl;
        valid = ins.valid;
        others = λ q apart. ins.lookups q ∙ rw apart refl;
      }

  -- If the key of the next id is not in the valid table of mutexes, which hashes as
  -- iw_htable_insert does, and there is memory, then iw_mutex_create returns that id; the id
  -- finds the new mutex, which has the name and no owner, the next id is one higher, and the
  -- other keys read as before.
  pub mutex_create-Creates :
      IsValid w.mutexes
      → w.mutexes.fn ≡ hash_data
      → lookup w.mutexes key_hash ≡ none
      → (r : ℕ × Threads) × (mutex_create (some a) true true w name ≡ some r) × Creates w name a r
  unfolding mutex_create
  mutex_create-Creates v bernstein absent =
      let ins = insert-Inserts true w.mutexes (mutex_key w.mutex_id) (some a) v in
      let t = insert true w.mutexes (mutex_key w.mutex_id) (some a) in
      (
        mutex_inserted a w.mutex_id made t,
        refl,
        inserted-Creates t bernstein (ins.returns ∙ rw absent refl) ins,
      )
