-- ===== src/Phones/Calls.antt =====
-- Runs of the calls of src/services/phone.service.ts, one after the other.
use hpx_eigen_s1_foundation.Common.{
  ℕ, ◌≡◌, refl, Bool, true, false, none, some, List, Text, arith, ==_iff, sym, find_first,
  find_first_holds, count_where, update_many, Option-cases, Bool-cases, inl, inr, trim, is_empty,
}
use mathlib.Core.Path.{subst}
use hpx_eigen_s1_foundation.Phones.{
  LeadPhone, PhonesDb, AttachInput, is_primary_of, has_phone_id, has_number, has_active_number,
  unset_primaries, becomes_primary, reattached, created_phone, find_attached, store_phone, unset_if,
  attach, deactivated, find_active, deactivate, made_primary, mark_primary, set_primary,
  sync_lead_phone, normalize_phone,
}
use hpx_eigen_s1_foundation.Phones.Primary.{
  HasOnePrimary, is_stray, update_row-HasOnePrimary, unset_primaries-count,
  unset_primaries-HasOnePrimary, unset_if-HasOnePrimary, snoc-HasOnePrimary, count_where-kept,
}

-- One call. A call that creates a row gives it an id that no row has.
pub data PhoneStep : PhonesDb → PhonesDb → Type 0 where
  attaches :
      (input : AttachInput) (phone : Text) {db : PhonesDb}
      → count_where (has_phone_id input.new_id) db.phones ≡ 0
      → PhoneStep db (attach input phone db)
  deactivates :
      (now lead : ℕ) (phone : Text) {db : PhonesDb} → PhoneStep db (deactivate now lead phone db)
  sets_primary :
      (lead : ℕ) (phone : Text) {db : PhonesDb} → PhoneStep db (set_primary lead phone db)
  syncs : (lead : ℕ) {db next : PhonesDb} → sync_lead_phone lead db ≡ some next → PhoneStep db next

pub data PhoneRun : PhonesDb → PhonesDb → Type 0 where
  at_rest : {db : PhonesDb} → PhoneRun db db
  then_call :
      {start db next : PhonesDb} → PhoneRun start db → PhoneStep db next → PhoneRun start next

has_number-lead :
    (lead : ℕ) (n : Text) (x : LeadPhone) → has_number lead n x ≡ true → x.lead_id ≡ lead
has_number-lead lead n x h = (==_iff x.lead_id lead).0 (ground arith)

reattached-HasOnePrimary :
    (input : AttachInput) (trimmed : Text) (primary : Bool) (n : Text) (phones : List LeadPhone)
    (x : LeadPhone)
    → find_attached input.lead_id (some n) phones ≡ some x
    → (primary ≡ true → count_where (is_primary_of input.lead_id) phones ≡ 0)
    → HasOnePrimary phones
    → HasOnePrimary (update_many (has_phone_id x.id) (reattached input trimmed primary) phones)
unfolding find_attached reattached is_stray
reattached-HasOnePrimary input trimmed primary n phones x found free sound =
    let of_lead =
      has_number-lead input.lead_id n x
        (find_first_holds (has_number input.lead_id n) phones found) in
    update_row-HasOnePrimary (has_number input.lead_id n) (reattached input trimmed primary) phones
      found (λ y. refl) refl (ground arith)
      (λ h. subst (λ k. count_where (is_primary_of k) phones ≡ 0) (sym of_lead) (free h)) sound

store_phone-HasOnePrimary :
    (input : AttachInput) (trimmed : Text) (primary : Bool) (phones : List LeadPhone)
    → count_where (has_phone_id input.new_id) phones ≡ 0
    → (primary ≡ true → count_where (is_primary_of input.lead_id) phones ≡ 0)
    → HasOnePrimary phones
    → HasOnePrimary (store_phone input trimmed primary phones)
unfolding created_phone is_stray store_phone HasOnePrimary
store_phone-HasOnePrimary input trimmed primary phones fresh free sound =
    let created =
      snoc-HasOnePrimary (created_phone input trimmed primary) phones fresh (ground arith) free
        sound in
    elim (Option-cases (normalize_phone trimmed)) [
      | inl unread ↦
          let absent : find_attached input.lead_id (normalize_phone trimmed) phones ≡ none =
            rw unread (unfold find_attached in refl) in
          rw (store_phone, absent) created
      | inr (n, read) ↦ elim (Option-cases (find_attached input.lead_id (some n) phones)) [
        | inl absent ↦
            let gone : find_attached input.lead_id (normalize_phone trimmed) phones ≡ none =
              rw read absent in
            rw (store_phone, gone) created
        | inr (x, found) ↦
            let there : find_attached input.lead_id (normalize_phone trimmed) phones ≡ some x =
              rw read found in
            rw (store_phone, there)
              (reattached-HasOnePrimary input trimmed primary n phones x found free sound)
      ]
    ]

unset_if-count :
    (b : Bool) (lead : ℕ) (phones : List LeadPhone)
    → b ≡ true
    → count_where (is_primary_of lead) (unset_if b lead phones) ≡ 0
unfolding unset_if
unset_if-count true lead phones e = unset_primaries-count lead phones
unset_if-count false lead phones e = absurd (ground arith)

unset_if-fresh :
    (b : Bool) (lead id : ℕ) (phones : List LeadPhone)
    → count_where (has_phone_id id) phones ≡ 0
    → count_where (has_phone_id id) (unset_if b lead phones) ≡ 0
unfolding unset_if unset_primaries has_phone_id
unset_if-fresh false lead id phones fresh = fresh
unset_if-fresh true lead id phones fresh =
    rw
      (count_where-kept (has_phone_id id) (is_primary_of lead)
        (λ x. record x { is_primary = false }) phones (λ x. refl))
      fresh

attach-HasOnePrimary :
    (input : AttachInput) (phone : Text) (db : PhonesDb)
    → count_where (has_phone_id input.new_id) db.phones ≡ 0
    → HasOnePrimary db.phones
    → HasOnePrimary (attach input phone db).phones
unfolding attach
attach-HasOnePrimary input phone db fresh sound =
    let primary = becomes_primary input db.phones in
    let lead = input.lead_id in
    let stored =
      store_phone-HasOnePrimary input (trim phone) primary (unset_if primary lead db.phones)
        (unset_if-fresh primary lead input.new_id db.phones fresh)
        (unset_if-count primary lead db.phones)
        (unset_if-HasOnePrimary primary lead db.phones sound) in
    elim (Bool-cases (is_empty (trim phone))) [
      | inl blank ↦ rw blank sound
      | inr given ↦ rw given stored
    ]

deactivate-HasOnePrimary :
    (now lead : ℕ) (phone : Text) (db : PhonesDb)
    → HasOnePrimary db.phones
    → HasOnePrimary (deactivate now lead phone db).phones
unfolding deactivate find_active deactivated is_stray
deactivate-HasOnePrimary now lead phone db sound = elim (Option-cases (normalize_phone phone)) [
  | inl unread ↦ rw (deactivate, unread) sound
  | inr (n, read) ↦ elim (Option-cases (find_first (has_active_number lead n) db.phones)) [
    | inl absent ↦ rw (deactivate, read, absent) sound
    | inr (x, found) ↦
        rw (deactivate, read, found)
          (update_row-HasOnePrimary (has_active_number lead n) (deactivated now) db.phones found
            (λ y. refl) refl (ground arith) (λ h. absurd (ground arith)) sound)
  ]
]

mark_primary-HasOnePrimary :
    (lead : ℕ) (n : Text) (phones : List LeadPhone)
    → count_where (is_primary_of lead) phones ≡ 0
    → HasOnePrimary phones
    → HasOnePrimary (mark_primary lead n phones)
unfolding mark_primary find_active made_primary is_stray
mark_primary-HasOnePrimary lead n phones none_yet sound =
    elim (Option-cases (find_first (has_active_number lead n) phones)) [
      | inl absent ↦ rw (mark_primary, absent) sound
      | inr (x, found) ↦
          let holds = find_first_holds (has_active_number lead n) phones found in
          let of_lead = has_number-lead lead n x (ground arith) in
          rw (mark_primary, found)
            (update_row-HasOnePrimary (has_active_number lead n) made_primary phones found
              (λ y. refl) refl (ground arith)
              (λ h. subst (λ k. count_where (is_primary_of k) phones ≡ 0) (sym of_lead) none_yet)
              sound)
    ]

set_primary-HasOnePrimary :
    (lead : ℕ) (phone : Text) (db : PhonesDb)
    → HasOnePrimary db.phones
    → HasOnePrimary (set_primary lead phone db).phones
unfolding set_primary
set_primary-HasOnePrimary lead phone db sound = elim (Option-cases (normalize_phone phone)) [
  | inl unread ↦ rw (set_primary, unread) sound
  | inr (n, read) ↦
      rw (set_primary, read)
        (mark_primary-HasOnePrimary lead n (unset_primaries lead db.phones)
          (unset_primaries-count lead db.phones)
          (unset_primaries-HasOnePrimary lead db.phones sound))
]

sync_lead_phone-phones :
    (lead : ℕ) (db next : PhonesDb) → sync_lead_phone lead db ≡ some next → next.phones ≡ db.phones
unfolding sync_lead_phone
sync_lead_phone-phones lead db next h = ground arith

PhoneStep-HasOnePrimary :
    {db next : PhonesDb} → PhoneStep db next → HasOnePrimary db.phones → HasOnePrimary next.phones
PhoneStep-HasOnePrimary (attaches input phone fresh) sound =
    attach-HasOnePrimary input phone _ fresh sound
PhoneStep-HasOnePrimary (deactivates now lead phone) sound =
    deactivate-HasOnePrimary now lead phone _ sound
PhoneStep-HasOnePrimary (sets_primary lead phone) sound =
    set_primary-HasOnePrimary lead phone _ sound
PhoneStep-HasOnePrimary (syncs lead synced) sound =
    subst HasOnePrimary (sym (sync_lead_phone-phones lead _ _ synced)) sound

-- However many calls attach, deactivate, setPrimary and syncLeadPhone are made one after another,
-- each new row with an id of its own: if at the start no two rows have one id, no lead has two
-- primary numbers and every primary number is active, then so it is at the end.
pub PhoneRun-HasOnePrimary :
    {start end : PhonesDb}
    → PhoneRun start end
    → HasOnePrimary start.phones
    → HasOnePrimary end.phones
PhoneRun-HasOnePrimary at_rest sound = sound
PhoneRun-HasOnePrimary (then_call run step) sound =
    PhoneStep-HasOnePrimary step (PhoneRun-HasOnePrimary run sound)
