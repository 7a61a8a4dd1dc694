-- ===== src/Tests/Store.antt =====
-- The value store of src/iw_val_store.c and the allocator of src/iw_memory.c on small inputs.
use insta_works.Base.{ℕ, ◌+◌, ◌≤◌, ◌≡◌, inl, refl, true, false, none, some, List, [], ◌∷◌, arith}
use insta_works.Base.Int.{pos}
use insta_works.Hash.{hash_data}
use insta_works.Htable.{Htable, init}
use insta_works.Memory.{Memory, malloc, free, strdup}
use insta_works.Memory.Guards.{Inside}
use insta_works.Memory.Accounts.{MallocFree, malloc-free, strdup_overruns}
use insta_works.ValStore.{
  ValStore, Val, number, Criteria, Platform, type_number, initialize, set_val, delete_name,
  add_name_internal,
}
use insta_works.ValStore.Admit.{IsStore, IsAdmitted, Sets}
use insta_works.ValStore.Start.{initialize-StartsStore}
use insta_works.ValStore.Keep.{set_val-Sets, set_val-IsAdmitted}
use insta_works.ValStore.Names.{DeletesName, delete_name-DeletesName, add_name_internal-AddsName}

abbrev blank {ℓ} : {A : Type ℓ} → Htable A
blank = record {
  fn = λ k. 0;
  size = 0;
  iw_mem_alloc = false;
  num_elems = 0;
  collisions = 0;
  table = [];
}

abbrev pub platform : Platform ℕ (List ℕ)
platform = record {
  regexec = λ r text. true;
  regcomp = λ text. some text;
  print_number = λ n. [];
  addr_to_str = λ a. [];
  addr_printed = λ a. true;
  str_to_addr = λ text. none;
  overlay_null = λ a. false;
  tracked = false;
}

abbrev pub raw : ValStore ℕ (List ℕ)
raw = record { table = blank; names = blank; controlled = false }

abbrev pub empty : ValStore ℕ (List ℕ)
empty = (initialize true true raw true).1

pub empty-IsStore : IsStore empty
empty-IsStore = (initialize-StartsStore platform raw).valid

empty-IsAdmitted : IsAdmitted platform empty
empty-IsAdmitted = (initialize-StartsStore platform raw).admitted

abbrev pub port : List ℕ
port = b'p' ∷ []

abbrev pub port_criteria : Criteria ℕ (List ℕ)
port_criteria = record { type = type_number; persist = false; regexp = none; fn = none; msg = none }

abbrev pub named : ValStore ℕ (List ℕ)
named = (add_name_internal true empty port port_criteria).1

pub named-IsStore : IsStore named
named-IsStore =
    (add_name_internal-AddsName platform true empty port port_criteria empty-IsStore).valid

named-IsAdmitted : IsAdmitted platform named
named-IsAdmitted =
    (add_name_internal-AddsName platform true empty port port_criteria empty-IsStore).admitted
      empty-IsAdmitted

abbrev pub eighty : Val ℕ
eighty = record { name = port; v = number (pos 80) }

set_val-Sets_example : Sets platform named port eighty (set_val platform true named port eighty)
set_val-Sets_example = set_val-Sets platform true named port eighty named-IsStore

set_val-IsAdmitted_example : IsAdmitted platform (set_val platform true named port eighty).store
set_val-IsAdmitted_example =
    set_val-IsAdmitted platform true named port eighty named-IsStore named-IsAdmitted

delete_name-DeletesName_example :
    DeletesName platform named (hash_data (some port)) (delete_name named port)
delete_name-DeletesName_example = delete_name-DeletesName platform named port named-IsStore

abbrev tracked : Memory
tracked = record {
  tracking = true;
  mem_allocs = 0;
  mem_frees = 0;
  cur_bytes = 0;
  acc_bytes = 0;
  mem_corrupt = 0;
  pre_corrupt = 0;
  post_corrupt = 0;
  chunks = (init true blank 4 false none).1;
  bytes = λ a. 0;
  released = [];
}

malloc-free_example :
    (s1 : Memory) × (malloc (some 1000) true true tracked [] 1 8 ≡ some (some (1000 + 12), s1))
    × ((m : ℕ → ℕ)
        → Inside s1.bytes m 1000 8
        → MallocFree tracked 1000 8 (free (record s1 { bytes = m }) (1000 + 12)))
malloc-free_example = malloc-free tracked true [] 1 1000 8 refl (omega arith) (omega arith)

strdup_overruns_example :
    (s1 : Memory) × (strdup (some 1000) true true tracked [] 1 500 3 ≡ some (some (1000 + 12), s1))
    × ((i : ℕ) → i ≤ 3 → s1.bytes (1000 + 12 + i) ≡ tracked.bytes (500 + i))
    × (s1.bytes (1000 + 12 + (3 + 1)) ≡ tracked.bytes (500 + (3 + 1)))
strdup_overruns_example =
    strdup_overruns tracked true [] 1 1000 500 3 refl (omega arith) (inl (omega arith))
