-- ===== src/Cfg/Save.antt =====
-- iw_cfg_save of src/iw_cfg.c: a document is the list of the calls that build it.
pub mod Written
use insta_works.Base.{
  ℕ, zero, suc, Bool, true, false, Option, none, some, List, [], ◌∷◌, ◌++◌, if◌then◌else◌,
}
use insta_works.ValStore.{
  ValStore, Val, Payload, unset, number, string, address, Platform, get_persist,
}
use insta_works.ValStore.Typed.{first_value, next_value, val_to_str}
use insta_works.Cfg.{Cfg, Parson, Member, member_number, member_string, set_file}

module _ {Address Regex : Type 0} (p : Platform Address Regex) where
  -- What iw_cfg_save writes for a value whose name is persistent.
  unfoldable pub member_of : Val Address → List Member
  unfolding val_to_str
  member_of value = elim value.v [
    | unset ↦ []
    | number n ↦ member_number value.name n ∷ []
    | string s ↦ member_string value.name s ∷ []
    | address a ↦ member_string value.name (val_to_str p value.v 128 []).1 ∷ []
  ]

  abbrev pub saved_of : ValStore Address Regex → Val Address → List Member
  saved_of store value = if get_persist store value.name then member_of value else []

  -- The loop over the values in `k` rounds, from a value and its token.
  unfoldable pub save_loop : ValStore Address Regex → ℕ → Option (Val Address) × ℕ → List Member
  unfolding next_value member_of
  save_loop store zero r = []
  save_loop store (suc k) (none, token) = []
  save_loop store (suc k) (some value, token) =
      saved_of store value ++ save_loop store k (next_value store token)

-- The result of iw_cfg_save, and the calls that were made for the document that was written to the
-- file `cfg.file`; `none` if no file was written.
pub record Saving (Address Regex Value : Type 0) : Type 0 where
  pub result : Bool
  pub cfg : Cfg Address Regex Value
  pub written : Option (List Member)

module _ {Address Regex Value Object Double : Type 0} (p : Platform Address Regex) (mem : ℕ → Bool)
    (json : Parson Value Object Double) where
  abbrev pub named_file : Cfg Address Regex Value → Option (List ℕ) → Cfg Address Regex Value
  named_file c none = c
  named_file c (some file) = set_file mem c file

  -- json_serialize_to_file_pretty and what follows it.
  abbrev pub serialized :
      Cfg Address Regex Value → Value → List Member → Bool → Saving Address Regex Value
  serialized c val members true = record { result = false; cfg = c; written = some members }
  serialized c val members false = record {
    result = false;
    cfg = record c { live = val ∷ c.live };
    written = none;
  }

  abbrev pub save_value :
      Cfg Address Regex Value → List Member → Value → Option Object → Saving Address Regex Value
  save_value c members val none = record {
    result = false;
    cfg = record c { live = val ∷ c.live };
    written = none;
  }
  save_value c members val (some obj) = serialized c val members (json.serialize members c.file)

  abbrev pub save_members :
      Cfg Address Regex Value → List Member → Option Value → Saving Address Regex Value
  save_members c members none = record { result = false; cfg = c; written = none }
  save_members c members (some val) = save_value c members val (json.value_get_object (some val))

  unfoldable pub save : ℕ → Cfg Address Regex Value → Option (List ℕ) → Saving Address Regex Value
  unfolding first_value save_loop set_file
  save rounds c file =
      let c' = named_file c file in
      save_members c' (save_loop p c'.store rounds (first_value c'.store 0)) json.init_object
