-- ===== src/Htable.antt =====
-- src/iw_htable.c and includes/iw_htable.h: a hash table with chained buckets. A chain is the list
-- of its nodes from the bucket's head on; the table's array is the list of its chains, and the empty
-- list is NULL. A `void *` is an `Option`, with `none` for NULL. `mem` says whether the allocation
-- of the call returns memory. A deletion function is the truth of `fn != NULL`, and the calls made
-- of it are the list of the data that it is given.
pub mod Chain
pub mod Valid
pub mod Writes
pub mod Insert
pub mod Walk
pub mod Start
use insta_works.Base.{
  ℕ, suc, ◌+◌, ◌%◌, Bool, true, false, Option, none, some, List, [], ◌∷◌, ◌++◌, ◌==◌, if◌then◌else◌,
  u32, pred32, get_or, set, replicate, zero,
}
use insta_works.Hash.{Key, hash_data}

pub record Node {ℓ} (A : Type ℓ) : Type ℓ where
  pub hash : ℕ
  pub item : Option A

abbrev pub node {ℓ} : {A : Type ℓ} → ℕ → Option A → Node A
node h a = record { hash = h; item = a }

pub record Htable {ℓ} (A : Type ℓ) : Type ℓ where
  pub fn : Key → ℕ
  pub size : ℕ
  pub iw_mem_alloc : Bool
  pub num_elems : ℕ
  pub collisions : ℕ
  pub table : List (List (Node A))

abbrev pub is_empty {ℓ} : {A : Type ℓ} → List A → Bool
is_empty [] = true
is_empty (_ ∷ _) = false

abbrev pub bucket {ℓ} : {A : Type ℓ} → Htable A → ℕ → List (Node A)
bucket t index = get_or t.table index []

module _ {ℓ} {A : Type ℓ} where
  -- On failure only `table->table` has been written.
  unfoldable pub init : (mem : Bool) → Htable A → ℕ → Bool → Option (Key → ℕ) → Bool × Htable A
  init false t table_size iw_mem_alloc fn = (false, record t { table = [] })
  init true t table_size iw_mem_alloc fn = (
    true,
    record {
      fn = elim fn [ none ↦ hash_data | some f ↦ f ];
      size = table_size;
      iw_mem_alloc = iw_mem_alloc;
      num_elems = 0;
      collisions = 0;
      table = replicate table_size [];
    },
  )

  -- The search loop along one chain.
  unfoldable pub find : ℕ → List (Node A) → Option (Node A)
  find hash [] = none
  find hash (n ∷ ns) = if n.hash == hash then some n else find hash ns

  unfoldable pub get : Htable A → Key → Option A
  get t key =
      let hash = t.fn key in
      elim (find hash (bucket t (hash % t.size))) [ none ↦ none | some n ↦ n.item ]

  -- The loop of iw_htable_remove behind the head of the chain: the data and the rest.
  unfoldable pub unlink : ℕ → List (Node A) → Option (Option A × List (Node A))
  unlink hash [] = none
  unlink hash (n ∷ ns) =
      let rest = unlink hash ns in
      if n.hash == hash
      then some (n.item, ns)
      else elim rest [ none ↦ none | some (a, ms) ↦ some (a, n ∷ ms) ]

  unfoldable pub remove_from : Htable A → ℕ → ℕ → List (Node A) → Option A × Htable A
  remove_from t hash index [] = (none, t)
  remove_from t hash index (n ∷ ns) =
      if n.hash == hash
      then (
        n.item,
        record t {
          table = set t.table index ns;
          num_elems = pred32 t.num_elems;
          collisions = if is_empty ns then t.collisions else pred32 t.collisions;
        },
      )
      else elim (unlink hash ns) [
        | none ↦ (none, t)
        | some (a, ms) ↦ (
          a,
          record t {
            table = set t.table index (n ∷ ms);
            num_elems = pred32 t.num_elems;
            collisions = pred32 t.collisions;
          },
        )
      ]

  unfoldable pub remove : Htable A → Key → Option A × Htable A
  unfolding remove_from unlink
  remove t key =
      let hash = t.fn key in let index = hash % t.size in remove_from t hash index (bucket t index)

  -- The result, the table, and the data that `fn` was called on.
  unfoldable pub delete : Htable A → Key → Bool → Bool × Htable A × List A
  delete t key has_fn =
      let (found, t') = remove t key in
      elim found [ none ↦ (false, t', []) | some a ↦ (true, t', if has_fn then a ∷ [] else []) ]

  -- The new node becomes the head of its bucket.
  unfoldable pub push : Htable A → ℕ → ℕ → Option A → Htable A
  push t hash index item = record t {
    table = set t.table index (node hash item ∷ bucket t index);
    num_elems = u32 (t.num_elems + 1);
  }

  -- `mem` is the allocation of the new node.
  unfoldable pub add_node :
      (mem : Bool) → Htable A → ℕ → ℕ → Option A → List A → Bool × Htable A × List A
  unfolding push
  add_node false t hash index item freed = (false, t, freed)
  add_node true t hash index item freed = (true, push t hash index item, freed)

  unfoldable pub replace :
      (mem : Bool) → Htable A → Key → Option A → Bool → Bool × Htable A × List A
  unfolding delete find add_node
  replace mem t key item true =
      let hash = hash_data key in
      let (_, t', freed) = delete t key true in add_node mem t' hash (hash % t.size) item freed
  replace mem t key item false =
      let hash = hash_data key in
      let index = hash % t.size in
      elim (find hash (bucket t index)) [
        | some _ ↦ (false, t, [])
        | none ↦
            add_node mem
              (record t {
                collisions =
                    if is_empty (bucket t index) then t.collisions else u32 (t.collisions + 1);
              })
              hash index item []
      ]

  unfoldable pub insert : (mem : Bool) → Htable A → Key → Option A → Bool × Htable A
  unfolding replace
  insert mem t key item = let (ok, t', _) = replace mem t key item false in (ok, t')

  -- One bucket of iw_htable_destroy: the data that `fn` is called on, in order.
  unfoldable pub destroy_chain : List (Node A) → List (Option A)
  destroy_chain [] = []
  destroy_chain (n ∷ ns) = n.item ∷ destroy_chain ns

  unfoldable pub destroy_chains : List (List (Node A)) → List (Option A)
  unfolding destroy_chain
  destroy_chains [] = []
  destroy_chains (c ∷ cs) = destroy_chain c ++ destroy_chains cs

  -- A table whose array is NULL is left alone.
  unfoldable pub destroy : Htable A → Bool → Htable A × List (Option A)
  unfolding destroy_chains
  destroy t has_fn =
      if is_empty t.table
      then (t, [])
      else (record t { table = []; num_elems = 0 }, if has_fn then destroy_chains t.table else [])
