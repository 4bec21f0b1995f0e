-- ===== src/Phones/Primary.antt =====
-- The primary number of a lead (src/services/phone.service.ts).
use mathlib.Core.Path.{subst}
use hpx_eigen_s1_foundation.Common.{
  ℕ, ap, ◌+◌, ◌≤◌, ◌≡◌, refl, Bool, true, false, not, ◌&&◌, some, List, [], ◌∷◌, ◌++◌, arith, ◌==◌,
  ==_iff, find_first, update_many, count_where, count_where-update_many, Bool-cases, inl, inr,
}
use hpx_eigen_s1_foundation.Phones.{
  LeadPhone, is_active, is_primary_of, has_phone_id, unset_primaries, unset_if,
}

abbrev one_if : Bool → ℕ
one_if true = 1
one_if false = 0

module _ {A : Type 0} where
  -- Rows that a test passes over count no row after an update that keeps them out.
  pub count_where-kept :
      (r q : A → Bool) (f : A → A) (xs : List A)
      → ((x : A) → r (f x) ≡ r x)
      → count_where r (update_many q f xs) ≡ count_where r xs
  unfolding count_where update_many
  count_where-kept r q f [] keeps = refl
  count_where-kept r q f (x ∷ xs) keeps = ground (arith, keeps x, count_where-kept r q f xs keeps)

  count_where-cleared :
      (r q : A → Bool) (f : A → A) (xs : List A)
      → ((x : A) → r (f x) ≡ true → r x ≡ true)
      → count_where r (update_many q f xs) ≤ count_where r xs
  unfolding count_where update_many
  count_where-cleared r q f [] clears = ground arith
  count_where-cleared r q f (x ∷ xs) clears =
      ground (arith, clears x, count_where-cleared r q f xs clears)

  count_where-snoc :
      (r : A → Bool) (xs : List A) (a : A)
      → count_where r (xs ++ a ∷ []) ≡ count_where r xs + one_if (r a)
  unfolding count_where
  count_where-snoc r [] a = ground arith
  count_where-snoc r (x ∷ xs) a = ground (arith, count_where-snoc r xs a)

  count_where-zero :
      (p r : A → Bool) (xs : List A) {a : A}
      → find_first p xs ≡ some a
      → count_where r xs ≡ 0
      → r a ≡ false
  unfolding find_first count_where
  count_where-zero p r [] found h = ground arith
  count_where-zero p r (x ∷ xs) {a} found h = ground (arith, count_where-zero p r xs {a = a})

  update_many-none :
      (q : A → Bool) (f : A → A) (xs : List A) → count_where q xs ≡ 0 → update_many q f xs ≡ xs
  unfolding update_many count_where
  update_many-none q f [] h = refl
  update_many-none q f (x ∷ xs) h = ground (arith, update_many-none q f xs)

  -- An update of the only row that passes `q` changes a count by what that row counts.
  count_where-update_one :
      (p q r : A → Bool) (f : A → A) (xs : List A) {a : A}
      → find_first p xs ≡ some a
      → q a ≡ true
      → count_where q xs ≤ 1
      → count_where r (update_many q f xs) + one_if (r a) ≡ count_where r xs + one_if (r (f a))
  unfolding find_first count_where update_many
  count_where-update_one p q r f [] found qa one = ground arith
  count_where-update_one p q r f (x ∷ xs) {a} found qa one = elim (Bool-cases (p x)) [
    | inl here ↦ ground (arith, update_many-none q f xs)
    | inr off ↦
        ground (arith, count_where-zero p q xs {a = a}, count_where-update_one p q r f xs {a = a})
  ]

-- A row that is primary and not active.
unfoldable pub is_stray : LeadPhone → Bool
is_stray x = x.is_primary && not (is_active x.status)

-- No two rows have one id, no lead has two primary rows, and no row that is not active is primary.
unfoldable pub HasOnePrimary : List LeadPhone → Type 0
HasOnePrimary phones =
    ((id : ℕ) → count_where (has_phone_id id) phones ≤ 1)
    × ((lead : ℕ) → count_where (is_primary_of lead) phones ≤ 1)
    × (count_where is_stray phones ≡ 0)

module _ (p : LeadPhone → Bool) (f : LeadPhone → LeadPhone) (phones : List LeadPhone) where
  -- The update of one row by its id.
  pub update_row-HasOnePrimary :
      {x : LeadPhone}
      → find_first p phones ≡ some x
      → ((y : LeadPhone) → (f y).id ≡ y.id)
      → (f x).lead_id ≡ x.lead_id
      → is_stray (f x) ≡ false
      → ((f x).is_primary ≡ true → count_where (is_primary_of x.lead_id) phones ≡ 0)
      → HasOnePrimary phones
      → HasOnePrimary (update_many (has_phone_id x.id) f phones)
  unfolding HasOnePrimary has_phone_id is_primary_of
  update_row-HasOnePrimary {x} found keeps lead_kept proper free (unique, single, no_stray) =
      let changes : (r : LeadPhone → Bool) → _ = λ r.
        count_where-update_one p (has_phone_id x.id) r f phones found ((==_iff x.id x.id).1 refl)
          (unique x.id) in
      (
        λ id.
            rw
              (count_where-kept (has_phone_id id) (has_phone_id x.id) f phones
                (λ y. ap (λ k. k == id) (keeps y)))
              (unique id),
        λ lead. elim (Bool-cases (is_primary_of lead (f x))) [
          | inl is ↦
              let same : x.lead_id ≡ lead = ground (arith, ==_iff (f x).lead_id lead) in
              let none_yet : count_where (is_primary_of lead) phones ≡ 0 =
                subst (λ k. count_where (is_primary_of k) phones ≡ 0) same (free (ground arith)) in
              ground (arith, changes (is_primary_of lead))
          | inr is_not ↦ ground (arith, changes (is_primary_of lead), single lead)
        ],
        ground (arith, changes is_stray),
      )

-- After `unset_primaries` the lead has no primary row.
pub unset_primaries-count :
    (lead : ℕ) (phones : List LeadPhone)
    → count_where (is_primary_of lead) (unset_primaries lead phones) ≡ 0
unfolding unset_primaries
unset_primaries-count lead phones =
    count_where-update_many (is_primary_of lead) (is_primary_of lead) _ phones
      (λ x h. unfold is_primary_of in ground arith) (λ x h. h)

pub unset_primaries-HasOnePrimary :
    (lead : ℕ) (phones : List LeadPhone)
    → HasOnePrimary phones
    → HasOnePrimary (unset_primaries lead phones)
unfolding HasOnePrimary unset_primaries has_phone_id
unset_primaries-HasOnePrimary lead phones (unique, single, no_stray) =
    let clear : LeadPhone → LeadPhone = λ x. record x { is_primary = false } in
    (
      λ id.
          rw (count_where-kept (has_phone_id id) (is_primary_of lead) clear phones (λ x. refl))
            (unique id),
      λ other. ground (
        arith,
        single other,
        count_where-cleared (is_primary_of other) (is_primary_of lead) clear phones
            (λ x h. unfold is_primary_of in absurd (ground arith)),
      ),
      ground (
        arith,
        count_where-cleared is_stray (is_primary_of lead) clear phones
            (λ x h. unfold is_stray in absurd (ground arith)),
      ),
    )

pub unset_if-HasOnePrimary :
    (b : Bool) (lead : ℕ) (phones : List LeadPhone)
    → HasOnePrimary phones
    → HasOnePrimary (unset_if b lead phones)
unfolding unset_if
unset_if-HasOnePrimary true lead phones sound = unset_primaries-HasOnePrimary lead phones sound
unset_if-HasOnePrimary false lead phones sound = sound

-- A new row with a new id, primary only if the lead has no primary row.
pub snoc-HasOnePrimary :
    (x : LeadPhone) (phones : List LeadPhone)
    → count_where (has_phone_id x.id) phones ≡ 0
    → is_stray x ≡ false
    → (x.is_primary ≡ true → count_where (is_primary_of x.lead_id) phones ≡ 0)
    → HasOnePrimary phones
    → HasOnePrimary (phones ++ x ∷ [])
unfolding HasOnePrimary has_phone_id is_primary_of
snoc-HasOnePrimary x phones fresh proper free (unique, single, no_stray) = (
  λ id. elim (Bool-cases (has_phone_id id x)) [
    | inl is ↦
        let same : x.id ≡ id = ground (arith, ==_iff x.id id) in
        let none_yet : count_where (has_phone_id id) phones ≡ 0 =
          subst (λ k. count_where (has_phone_id k) phones ≡ 0) same fresh in
        ground (arith, count_where-snoc (has_phone_id id) phones x)
    | inr is_not ↦ ground (arith, unique id, count_where-snoc (has_phone_id id) phones x)
  ],
  λ lead. elim (Bool-cases (is_primary_of lead x)) [
    | inl is ↦
        let same : x.lead_id ≡ lead = ground (arith, ==_iff x.lead_id lead) in
        let none_yet : count_where (is_primary_of lead) phones ≡ 0 =
          subst (λ k. count_where (is_primary_of k) phones ≡ 0) same (free (ground arith)) in
        ground (arith, count_where-snoc (is_primary_of lead) phones x)
    | inr is_not ↦ ground (arith, single lead, count_where-snoc (is_primary_of lead) phones x)
  ],
  ground (arith, count_where-snoc is_stray phones x),
)
