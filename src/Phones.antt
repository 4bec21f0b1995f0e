-- ===== src/Phones.antt =====
-- The phone numbers of leads: src/services/phone.service.ts and normalizePhone of
-- src/utils/phone.util.ts, on the rows of LeadPhone and the column Lead.phone. The times of creation
-- and of the last update of a row, which nothing reads, are left out.
pub mod Primary
pub mod Calls
use hpx_eigen_s1_foundation.Common.{
  ℕ, Bool, true, false, ◌&&◌, Option, none, some, List, [], ◌∷◌, ◌++◌, Text, codes, text_eq, trim,
  only_digits, is_empty, length, leb, take, drop, ◌==◌, find_first, update_many, get_or_else,
  is_some, some_of, if◌then◌else◌,
}

pub data PhoneStatus : Type 0 where
  active inactive : PhoneStatus

pub data PhoneSource : Type 0 where
  import manual api backfill : PhoneSource

pub record LeadPhone : Type 0 where
  pub id : ℕ
  pub tenant_id : ℕ
  pub lead_id : ℕ
  pub phone_original : Text
  pub phone_normalized : Option Text
  pub status : PhoneStatus
  pub is_primary : Bool
  pub source : PhoneSource
  pub deactivated_at : Option ℕ

-- The columns of Lead that this service writes.
pub record LeadMirror : Type 0 where
  pub id : ℕ
  pub phone : Option Text

pub record PhonesDb : Type 0 where
  pub phones : List LeadPhone
  pub leads : List LeadMirror

-- The last ten digits of twelve that begin with 91.
abbrev without_country_code : Text → Text
without_country_code digits =
    if (length digits == 12) && text_eq (take 2 digits) (codes "91") then drop 2 digits else digits

-- `normalizePhone(input)`
unfoldable pub normalize_phone : Text → Option Text
unfolding only_digits
normalize_phone input =
    let digits = without_country_code (only_digits input) in
    if leb 6 (length digits) then some digits else none

abbrev pub is_active : PhoneStatus → Bool
is_active active = true
is_active inactive = false

unfoldable pub is_primary_of : ℕ → LeadPhone → Bool
is_primary_of lead x = (x.lead_id == lead) && x.is_primary

abbrev is_active_primary_of : ℕ → LeadPhone → Bool
is_active_primary_of lead x = (x.lead_id == lead) && x.is_primary && is_active x.status

abbrev equals_number : Option Text → Text → Bool
equals_number none n = false
equals_number (some m) n = text_eq m n

abbrev pub has_number : ℕ → Text → LeadPhone → Bool
has_number lead n x = (x.lead_id == lead) && equals_number x.phone_normalized n

abbrev pub has_active_number : ℕ → Text → LeadPhone → Bool
has_active_number lead n x = has_number lead n x && is_active x.status

unfoldable pub has_phone_id : ℕ → LeadPhone → Bool
has_phone_id id x = x.id == id

-- `updateMany({ where: { leadId, isPrimary: true }, data: { isPrimary: false } })`
unfoldable pub unset_primaries : ℕ → List LeadPhone → List LeadPhone
unset_primaries lead phones =
    update_many (is_primary_of lead) (λ x. record x { is_primary = false }) phones

-- What `attach` was told: a new row's id, the tenant, the lead and the options.
pub record AttachInput : Type 0 where
  pub new_id : ℕ
  pub tenant_id : ℕ
  pub lead_id : ℕ
  pub is_primary : Option Bool
  pub source : Option PhoneSource

-- Whether the attached number becomes the primary one: if asked for, or if there is none.
unfoldable pub becomes_primary : AttachInput → List LeadPhone → Bool
becomes_primary input phones =
    if get_or_else input.is_primary false
    then true
    else elim (find_first (is_active_primary_of input.lead_id) phones) [
      | none ↦ true
      | some x ↦ false
    ]

unfoldable pub reattached : AttachInput → Text → Bool → LeadPhone → LeadPhone
reattached input trimmed primary x = record x {
  status = active;
  deactivated_at = none;
  is_primary = primary;
  phone_original = trimmed;
  source = get_or_else input.source manual;
}

unfoldable pub created_phone : AttachInput → Text → Bool → LeadPhone
unfolding normalize_phone
created_phone input trimmed primary = record {
  id = input.new_id;
  tenant_id = input.tenant_id;
  lead_id = input.lead_id;
  phone_original = trimmed;
  phone_normalized = normalize_phone trimmed;
  status = active;
  is_primary = primary;
  source = get_or_else input.source manual;
  deactivated_at = none;
}

-- The row of the lead that has the number already.
unfoldable pub find_attached : ℕ → Option Text → List LeadPhone → Option LeadPhone
find_attached lead none phones = none
find_attached lead (some n) phones = find_first (has_number lead n) phones

-- The row is updated in place if there is one, and created if not.
unfoldable pub store_phone : AttachInput → Text → Bool → List LeadPhone → List LeadPhone
unfolding find_attached reattached created_phone has_phone_id normalize_phone
store_phone input trimmed primary phones =
    elim (find_attached input.lead_id (normalize_phone trimmed) phones) [
      | some x ↦ update_many (has_phone_id x.id) (reattached input trimmed primary) phones
      | none ↦ phones ++ created_phone input trimmed primary ∷ []
    ]

unfoldable pub unset_if : Bool → ℕ → List LeadPhone → List LeadPhone
unfolding unset_primaries
unset_if true lead phones = unset_primaries lead phones
unset_if false lead phones = phones

-- `attach(tx, leadId, tenantId, phoneOriginal, opts)`; the returned row is left in the table.
unfoldable pub attach : AttachInput → Text → PhonesDb → PhonesDb
unfolding becomes_primary store_phone unset_if
attach input phone db =
    let trimmed = trim phone in
    let primary = becomes_primary input db.phones in
    if is_empty trimmed then db else record db {
      phones = store_phone input trimmed primary (unset_if primary input.lead_id db.phones);
    }

unfoldable pub deactivated : ℕ → LeadPhone → LeadPhone
deactivated now x = record x { status = inactive; deactivated_at = some now; is_primary = false }

-- The active row of the lead with the number, if the text has a number.
unfoldable pub find_active : ℕ → Option Text → List LeadPhone → Option LeadPhone
find_active lead none phones = none
find_active lead (some n) phones = find_first (has_active_number lead n) phones

-- `deactivate(tx, leadId, phoneOriginal)`
unfoldable pub deactivate : ℕ → ℕ → Text → PhonesDb → PhonesDb
unfolding find_active deactivated has_phone_id normalize_phone
deactivate now lead phone db = elim (find_active lead (normalize_phone phone) db.phones) [
  | none ↦ db
  | some x ↦ record db { phones = update_many (has_phone_id x.id) (deactivated now) db.phones }
]

unfoldable pub made_primary : LeadPhone → LeadPhone
made_primary x = record x { is_primary = true }

unfoldable pub mark_primary : ℕ → Text → List LeadPhone → List LeadPhone
unfolding find_active made_primary has_phone_id
mark_primary lead n phones = elim (find_active lead (some n) phones) [
  | none ↦ phones
  | some x ↦ update_many (has_phone_id x.id) made_primary phones
]

-- `setPrimary(tx, leadId, phoneOriginal)`
unfoldable pub set_primary : ℕ → Text → PhonesDb → PhonesDb
unfolding normalize_phone unset_primaries mark_primary
set_primary lead phone db = elim (normalize_phone phone) [
  | none ↦ db
  | some n ↦ record db { phones = mark_primary lead n (unset_primaries lead db.phones) }
]

abbrev is_lead : ℕ → LeadMirror → Bool
is_lead lead l = l.id == lead

abbrev original_of : Option LeadPhone → Option Text
original_of none = none
original_of (some x) = some x.phone_original

-- `syncLeadPhone(tx, leadId)`; none if there is no such lead, where the update throws.
unfoldable pub sync_lead_phone : ℕ → PhonesDb → Option PhonesDb
sync_lead_phone lead db =
    let phone = original_of (find_first (is_active_primary_of lead) db.phones) in
    if some_of (is_lead lead) db.leads
    then some (record db {
      leads = update_many (is_lead lead) (λ l. record l { phone = phone }) db.leads;
    })
    else none
