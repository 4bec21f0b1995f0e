-- ===== src/Tests/Patching.antt =====
-- Two writes of one field value, on concrete rows.
use mathlib.Core.List.Memᴰ
use hpx_eigen_s1_foundation.Common.{
  ℕ, ◌≡◌, refl, true, false, Option, none, some, Bool, List, arith, [], ◌∷◌, Text, codes,
  find_first,
}
use hpx_eigen_s1_foundation.Store.{Result, ok, is_ok}
use hpx_eigen_s1_foundation.Fields.Types.{FieldStatus, str, object, end, text, get_entry}
use hpx_eigen_s1_foundation.Fields.Rows.{FieldDefinition}
use hpx_eigen_s1_foundation.Fields.Values.{coerce_value}
use hpx_eigen_s1_foundation.Fields.Patch.{
  FieldValue, ValuesDb, PatchEntry, find_value, patch_values,
}
use hpx_eigen_s1_foundation.Fields.Patch.Batches.{patch_values-lost_update}
use hpx_eigen_s1_foundation.Tests.Samples.{alice}

abbrev no_dates : Text → Option ℕ
no_dates s = none

abbrev any_pattern : Text → Text → Result Bool
any_pattern p s = ok true

abbrev remark_field : FieldDefinition
remark_field = record {
  id = 11;
  tenant_id = 1;
  key = codes "remark";
  name = codes "Remark";
  description = none;
  type = text;
  status = FieldStatus.active;
  owning_department_id = 5;
  validation_rules = object end;
  visibility = object end;
  reportable = false;
  filterable = false;
  sortable = false;
  is_active = true;
  display_order = 0;
  deleted_at = none;
}

abbrev old_remark : FieldValue
old_remark = record {
  id = 31;
  tenant_id = 1;
  case_id = 9;
  field_id = 11;
  value_text = some (codes "old");
  value_number = none;
  value_boolean = none;
  value_date = none;
  option_id = none;
  version = 4;
  deleted_at = none;
}

abbrev stored_values : ValuesDb
stored_values = record {
  cases = record { id = 9; tenant_id = 1; deleted_at = none } ∷ [];
  fields = remark_field ∷ [];
  options = [];
  values = old_remark ∷ [];
  selections = [];
  history = [];
  journal = [];
}

-- A new remark, written over version 4.
abbrev remark : Text → PatchEntry
remark s = record {
  field_id = 11;
  raw = record { value = some (str s); option_id = none; option_ids = none };
  version = some 4;
  new_id = 40;
}

-- The remark alone, and once more after a value of another field.
abbrev first_batch : List PatchEntry
first_batch = remark (codes "mine") ∷ []

abbrev second_batch : List PatchEntry
second_batch =
    record (remark (codes "other")) { field_id = 12; new_id = 41 } ∷ remark (codes "yours") ∷ []

patch_values-lost_update_example :
    let db = (patch_values no_dates any_pattern alice 9 first_batch stored_values).1 in
    (is_ok (patch_values no_dates any_pattern alice 9 second_batch db).0 ≡ false)
    × ((patch_values no_dates any_pattern alice 9 second_batch db).1 ≡ db)
unfolding find_value find_first patch_values coerce_value get_entry
patch_values-lost_update_example =
    patch_values-lost_update no_dates any_pattern alice alice 9 first_batch second_batch
      (remark (codes "mine")) (remark (codes "yours")) stored_values old_remark refl
      (Memᴰ.head refl) (Memᴰ.tail (Memᴰ.head refl)) refl refl (tt, tt) ((λ e. ground arith), tt)
      ((λ e. ground arith), ((λ e. ground arith), tt)) refl refl
