-- ===== src/Audit/Append.antt =====
-- What an append does to the chain of a tenant (src/services/audit.service.ts).
use mathlib.Core.Path.{subst}
use mathlib.Core.List.{Memᴰ}
use hpx_eigen_s1_foundation.Common.{
  ℕ, ◌≡◌, ◌⊎◌, inl, inr, refl, sym, ap, ◌∙◌, true, false, not, Option, none, some, List, [], ◌∷◌,
  Text, text_eq_iff, arith, some_of, Bool-cases,
}
use hpx_eigen_s1_foundation.Store.{Result, ok, Result-cases}
use hpx_eigen_s1_foundation.Fields.Types.{Json}
use hpx_eigen_s1_foundation.Audit.{
  AuditRow, AuditAppendInput, is_intact, follows, leaves, find_leaf, of_tenant, new_row,
  append_in_tx,
}
use hpx_eigen_s1_foundation.Audit.Walk.{Memᴰ-keep, List-cases}

-- The database gives a row of the table, and none only of an empty one.
pub record Picks (newest : List AuditRow → Option AuditRow) : Type 0 where
  pub member : (rows : List AuditRow) (q : AuditRow) → newest rows ≡ some q → Memᴰ q rows
  pub empty : (rows : List AuditRow) → newest rows ≡ none → rows ≡ []

-- The start of the chain, or the digest of a row that no row follows yet.
unfoldable pub IsTip : List AuditRow → Option Text → Type 0
IsTip own previous =
    ((previous ≡ none) × (own ≡ []))
    ⊎ ((q : AuditRow) × Memᴰ q own
        × (previous ≡ some q.current_hash)
        × (some_of (follows q.current_hash) own ≡ false))

find_leaf-IsTip :
    (newest : Option AuditRow) (own : List AuditRow) (previous : Option Text)
    → ((q : AuditRow) → newest ≡ some q → Memᴰ q own)
    → (newest ≡ none → own ≡ [])
    → find_leaf newest own ≡ ok previous
    → IsTip own previous
unfolding find_leaf leaves IsTip
find_leaf-IsTip none own previous member empty h = inl (ground arith, empty refl)
find_leaf-IsTip (some q) own previous member empty h =
    elim (Bool-cases (some_of (follows q.current_hash) own)) [
      | inr tip ↦ inr (q, member q refl, ground arith, tip)
      | inl followed ↦ elim (List-cases (leaves own)) [
        | inl nothing ↦ absurd (ground arith)
        | inr (inl (r, one)) ↦
            let (inside, free) =
              Memᴰ-keep (λ x. not (some_of (follows x.current_hash) own)) own
                (subst (Memᴰ r) (sym one) (Memᴰ.head refl)) in
            inr (r, inside, ground arith, ground arith)
        | inr (inr (r, t, more, many)) ↦ absurd (ground arith)
      ]
    ]

new_row-is_intact :
    (digest : Text → Text) (iso : ℕ → Text) (stringify : Json → Text) (new_id now : ℕ)
    (input : AuditAppendInput) (previous : Option Text)
    → is_intact digest iso stringify (new_row digest iso stringify new_id now input previous) ≡ true
unfolding is_intact new_row
new_row-is_intact digest iso stringify new_id now input previous = (text_eq_iff _ _).1 refl

ok_injective : {a b : AuditRow} → ok a ≡ ok b → a ≡ b
ok_injective e = ground arith

appended :
    (n row : AuditRow) (rows rows' : List AuditRow)
    → ◌≡◌ {A = Result AuditRow × List AuditRow} (ok n, n ∷ rows) (ok row, rows')
    → (n ≡ row) × (row ∷ rows ≡ rows')
appended n row rows rows' h =
    let same : n ≡ row = ok_injective (ap (λ p. p.0) h) in
    (same, ap (λ r. r ∷ rows) (sym same) ∙ ap (λ p. p.1) h)

-- An appended row carries the digest of its content, and it starts the chain of its tenant or
-- follows a row of the tenant that no row followed: an append never forks the chain, whichever row
-- the database gives as the newest.
pub append_in_tx-IsTip :
    (digest : Text → Text) (iso : ℕ → Text) (stringify : Json → Text)
    (newest : List AuditRow → Option AuditRow) (new_id now : ℕ) (input : AuditAppendInput)
    (rows rows' : List AuditRow) (row : AuditRow)
    → Picks newest
    → append_in_tx digest iso stringify newest new_id now input rows ≡ (ok row, rows')
    → (rows' ≡ row ∷ rows)
      × (is_intact digest iso stringify row ≡ true)
      × IsTip (of_tenant input.tenant_id rows) row.previous_hash
unfolding append_in_tx new_row
append_in_tx-IsTip digest iso stringify newest new_id now input rows rows' row picks h =
    let own = of_tenant input.tenant_id rows in
    elim (Result-cases (find_leaf (newest own) own)) [
      | inr (e, refused) ↦ absurd (ground arith)
      | inl (previous, found) ↦
          let made : (new_row digest iso stringify new_id now input previous ≡ row)
              × (row ∷ rows ≡ rows') =
            appended _ row rows rows' (rw (found, append_in_tx) at h) in
          let tip =
            find_leaf-IsTip (newest own) own previous (picks.member own) (picks.empty own) found in
          (
            sym made.1,
            subst (λ r. is_intact digest iso stringify r ≡ true) made.0
                (new_row-is_intact digest iso stringify new_id now input previous),
            subst (λ r. IsTip own r.previous_hash) made.0 tip,
          )
    ]
