-- ===== src/Tests/Phones.antt =====
-- Runs of src/services/phone.service.ts.
use hpx_eigen_s1_foundation.Common.{
  ℕ, ◌≡◌, refl, none, some, [], ◌∷◌, Text, codes, arith, trim, trim_start, only_digits, count_where,
  update_many, find_first, text_eq,
}
use hpx_eigen_s1_foundation.Phones.{
  PhonesDb, AttachInput, attach, set_primary, is_primary_of, has_phone_id, normalize_phone,
  becomes_primary, store_phone, unset_if, unset_primaries, find_attached, reattached, created_phone,
}
use hpx_eigen_s1_foundation.Phones.Primary.{HasOnePrimary}
use hpx_eigen_s1_foundation.Phones.Calls.{
  PhoneRun, at_rest, then_call, attaches, sets_primary, PhoneRun-HasOnePrimary,
}

abbrev no_phones : PhonesDb
no_phones = record { phones = []; leads = record { id = 7; phone = none } ∷ [] }

abbrev attaching : ℕ → AttachInput
attaching new_id = record {
  new_id = new_id;
  tenant_id = 1;
  lead_id = 7;
  is_primary = none;
  source = none;
}

abbrev first_number : Text
first_number = codes " +91 98765 43210"

abbrev second_number : Text
second_number = codes "0261-223344"

abbrev with_first : PhonesDb
with_first = attach (attaching 1) first_number no_phones

abbrev with_second : PhonesDb
with_second = attach (attaching 2) second_number with_first

-- The country code of a number with twelve digits is left out.
normalizes : normalize_phone first_number ≡ some (codes "9876543210")
unfolding normalize_phone only_digits text_eq
normalizes = refl

second_is_new : count_where (has_phone_id 2) with_first.phones ≡ 0
unfolding attach becomes_primary store_phone unset_if unset_primaries find_attached reattached
    created_phone normalize_phone only_digits trim trim_start is_primary_of has_phone_id update_many
    count_where find_first text_eq
second_is_new = refl

two_numbers : PhoneRun no_phones (set_primary 7 second_number with_second)
unfolding count_where
two_numbers =
    then_call
      (then_call (then_call at_rest (attaches (attaching 1) first_number refl))
        (attaches (attaching 2) second_number second_is_new))
      (sets_primary 7 second_number)

none_stored : HasOnePrimary no_phones.phones
unfolding HasOnePrimary count_where
none_stored = (λ id. ground arith, λ lead. ground arith, refl)

-- The first number of a lead becomes the primary one.
first_is_primary : count_where (is_primary_of 7) with_first.phones ≡ 1
unfolding attach becomes_primary store_phone unset_if unset_primaries find_attached reattached
    created_phone normalize_phone only_digits trim trim_start is_primary_of has_phone_id update_many
    count_where find_first text_eq
first_is_primary = refl

-- Attached a second time without options, it is no longer primary, and the lead has no primary number.
again_is_not :
    count_where (is_primary_of 7) (attach (attaching 3) first_number with_first).phones ≡ 0
unfolding attach becomes_primary store_phone unset_if unset_primaries find_attached reattached
    created_phone normalize_phone only_digits trim trim_start is_primary_of has_phone_id update_many
    count_where find_first text_eq
again_is_not = refl

PhoneRun-HasOnePrimary_example : HasOnePrimary (set_primary 7 second_number with_second).phones
PhoneRun-HasOnePrimary_example = PhoneRun-HasOnePrimary two_numbers none_stored
