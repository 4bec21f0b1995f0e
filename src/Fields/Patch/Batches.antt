-- ===== src/Fields/Patch/Batches.antt =====
-- The optimistic lock of the field values over whole batches
-- (src/services/case-field-value.service.ts).
use mathlib.Core.Path.{subst}
use mathlib.Core.List.{Memᴰ}
use mathlib.Core.List.Memᴰ
use hpx_eigen_s1_foundation.Common.{
  ℕ, ◌≡◌, ◌≢◌, ◌≤◌, ◌<◌, refl, sym, ap, ◌∙◌, Bool, true, false, Option, some, List, [], ◌∷◌, Text,
  All, arith, inl, inr,
}
use hpx_eigen_s1_foundation.Store.{Result, ok, Result-cases, is_ok, Ctx}
use hpx_eigen_s1_foundation.Store.Keys.{HasUniqueKeys}
use hpx_eigen_s1_foundation.Fields.Patch.{
  FieldValue, ValuesDb, PatchEntry, find_value, patch_entry, patch_entries, patch_values,
}
use hpx_eigen_s1_foundation.Fields.Patch.Locking.{patch_entry-stale}
use hpx_eigen_s1_foundation.Fields.Patch.Tracking.{
  Tracked, Tracked-values, found_at, patch_entry-Tracked, tracks,
}

module _ (parse_date : Text → Option ℕ) (matches : Text → Text → Result Bool) (ctx : Ctx)
    (case_id : ℕ) where
  -- A batch goes on after an entry that is accepted.
  patch_entries_after :
      (e : PatchEntry) (es : List PatchEntry) (db : ValuesDb) {a : Unit {0}}
      → (patch_entry parse_date matches ctx case_id e db).0 ≡ ok a
      → let rest =
          patch_entries parse_date matches ctx case_id es
            (patch_entry parse_date matches ctx case_id e db).1 in
        ((patch_entries parse_date matches ctx case_id (e ∷ es) db).0 ≡ rest.0)
        × ((patch_entries parse_date matches ctx case_id (e ∷ es) db).1 ≡ rest.1)
  unfolding patch_entries
  patch_entries_after e es db fine = (ground arith, ground arith)

  -- The batch of an accepted call is accepted, and gives the values of the call.
  accepted_batch :
      (es : List PatchEntry) (db : ValuesDb)
      → is_ok (patch_values parse_date matches ctx case_id es db).0 ≡ true
      → (is_ok (patch_entries parse_date matches ctx case_id es db).0 ≡ true)
        × ((patch_values parse_date matches ctx case_id es db).1.values
            ≡ (patch_entries parse_date matches ctx case_id es db).1.values)
  unfolding patch_values
  accepted_batch es db done =
      elim (Result-cases (patch_entries parse_date matches ctx case_id es db).0) [
        | inl (a, fine) ↦ (ground arith, ground arith)
        | inr (x, bad) ↦ absurd (ground arith)
      ]

  -- A call whose batch is refused changes nothing.
  refused_batch :
      (es : List PatchEntry) (db : ValuesDb)
      → is_ok (patch_entries parse_date matches ctx case_id es db).0 ≡ false
      → (is_ok (patch_values parse_date matches ctx case_id es db).0 ≡ false)
        × ((patch_values parse_date matches ctx case_id es db).1 ≡ db)
  unfolding patch_values
  refused_batch es db refused =
      elim (Result-cases (patch_entries parse_date matches ctx case_id es db).0) [
        | inl (a, fine) ↦ absurd (ground arith)
        | inr (x, bad) ↦ (ground arith, ground arith)
      ]

  module _ (field id : ℕ) where
    -- A batch that is accepted and holds an entry for the field raises the version.
    patch_entries-Tracked :
        (es : List PatchEntry) (db : ValuesDb) (w : FieldValue)
        → All (λ e. id ≢ e.new_id) es
        → Tracked ctx.tenant_id case_id field id w db
        → is_ok (patch_entries parse_date matches ctx case_id es db).0 ≡ true
        → (u : FieldValue) × Tracked ctx.tenant_id case_id field id u
            (patch_entries parse_date matches ctx case_id es db).1
          × (w.version ≤ u.version)
          × ((e : PatchEntry) → Memᴰ e es → e.field_id ≡ field → w.version < u.version)
    unfolding patch_entries
    patch_entries-Tracked [] db w fresh tracked done =
        (w, tracked, omega arith, λ e m same. absurd (Memᴰ.not-nil m))
    patch_entries-Tracked (e ∷ es) db w (new, fresh) tracked done =
        elim (Result-cases (patch_entry parse_date matches ctx case_id e db).0) [
          | inr (x, bad) ↦ absurd (ground arith)
          | inl (a, fine) ↦
              let after = (patch_entry parse_date matches ctx case_id e db).1 in
              let goes = patch_entries_after e es db fine in
              let (u, now, kept, raised) =
                patch_entry-Tracked parse_date matches ctx case_id field id e db w new tracked
                  (ap is_ok fine) in
              let (t, end, more, later) =
                patch_entries-Tracked es after u fresh now (ap is_ok (sym goes.0) ∙ done) in
              (
                t,
                Tracked-values ctx.tenant_id case_id field id t _ _ (ap (λ d. d.values) goes.1) end,
                omega arith,
                λ d m same. elim (Memᴰ.cases_cons m) [
                  | inl here ↦
                      let up = raised (ap (λ x. x.field_id) (sym here) ∙ same) in omega arith
                  | inr there ↦ let up = later d there same in omega arith
                ],
              )
        ]

    -- A batch with an entry that names a version that the row has passed is refused.
    patch_entries-stale :
        (es : List PatchEntry) (db : ValuesDb) (w : FieldValue) (e : PatchEntry) (n : ℕ)
        → All (λ x. id ≢ x.new_id) es
        → Tracked ctx.tenant_id case_id field id w db
        → Memᴰ e es
        → e.field_id ≡ field
        → e.version ≡ some n
        → n < w.version
        → is_ok (patch_entries parse_date matches ctx case_id es db).0 ≡ false
    unfolding patch_entries
    patch_entries-stale [] db w e n fresh tracked m same named passed = absurd (Memᴰ.not-nil m)
    patch_entries-stale (x ∷ es) db w e n (new, fresh) tracked m same named passed =
        elim (Result-cases (patch_entry parse_date matches ctx case_id x db).0) [
          | inr (why, bad) ↦ ground arith
          | inl (a, fine) ↦ elim (Memᴰ.cases_cons m) [
            | inl here ↦
                let refused =
                  patch_entry-stale parse_date matches ctx case_id x db w n
                    (found_at parse_date matches ctx case_id field id x db w tracked
                      (ap (λ d. d.field_id) (sym here) ∙ same))
                    (ap (λ d. d.version) (sym here) ∙ named) (omega arith) in
                absurd (ground arith)
            | inr there ↦
                let after = (patch_entry parse_date matches ctx case_id x db).1 in
                let (u, now, kept, raised) =
                  patch_entry-Tracked parse_date matches ctx case_id field id x db w new tracked
                    (ap is_ok fine) in
                let rest =
                  patch_entries-stale es after u e n fresh now there same named (omega arith) in
                ap is_ok (patch_entries_after x es db fine).0 ∙ rest
          ]
        ]

-- Two users have read the same version of a value, and each sends a batch that writes it among any
-- other values of the case; the second names the version that was read. Once the first batch has
-- succeeded, the second is refused as a whole and changes nothing. The values have different ids, and
-- no new row gets the id of the value.
pub patch_values-lost_update :
    (parse_date : Text → Option ℕ) (matches : Text → Text → Result Bool) (ctx later : Ctx)
    (case_id : ℕ) (es es' : List PatchEntry) (e e' : PatchEntry) (db : ValuesDb) (v : FieldValue)
    → later.tenant_id ≡ ctx.tenant_id
    → Memᴰ e es
    → Memᴰ e' es'
    → e'.field_id ≡ e.field_id
    → e'.version ≡ some v.version
    → HasUniqueKeys FieldValue.id db.values
    → All (λ x. v.id ≢ x.new_id) es
    → All (λ x. v.id ≢ x.new_id) es'
    → find_value ctx.tenant_id case_id e.field_id db ≡ some v
    → is_ok (patch_values parse_date matches ctx case_id es db).0 ≡ true
    → let db' = (patch_values parse_date matches ctx case_id es db).1 in
      (is_ok (patch_values parse_date matches later case_id es' db').0 ≡ false)
      × ((patch_values parse_date matches later case_id es' db').1 ≡ db')
patch_values-lost_update parse_date matches ctx later case_id es es' e e' db v tenant m m' field
      named unique new new' existing done =
    let db' = (patch_values parse_date matches ctx case_id es db).1 in
    let begin = tracks ctx.tenant_id case_id e.field_id db v unique existing in
    let (fine, same) = accepted_batch parse_date matches ctx case_id es db done in
    let (u, now, kept, raised) =
      patch_entries-Tracked parse_date matches ctx case_id e.field_id v.id es db v new begin fine in
    let left =
      Tracked-values ctx.tenant_id case_id e.field_id v.id u
        (patch_entries parse_date matches ctx case_id es db).1 db' same now in
    refused_batch parse_date matches later case_id es' db' (
      patch_entries-stale parse_date matches later case_id e.field_id v.id es' db' u e' v.version
        new' (subst (λ t. Tracked t case_id e.field_id v.id u db') (sym tenant) left) m' field named
        (raised e m refl))
