-- ===== src/Fields/Patch/Locking.antt =====
-- The optimistic lock of the field values (src/services/case-field-value.service.ts).
use mathlib.Core.Path.{subst}
use hpx_eigen_s1_foundation.Common.{
  ◌⊎◌, ◌∷◌, update_many, none, true, ℕ, ◌≡◌, ◌≢◌, Bool, false, Option, some, Text, arith, ◌==◌,
  ◌&&◌, find_first, find_first_holds, Option-cases, inl, inr,
}
use hpx_eigen_s1_foundation.Store.{Result, Result-cases, is_ok, Ctx}
use hpx_eigen_s1_foundation.Fields.Types.{FieldType}
use hpx_eigen_s1_foundation.Fields.Rows.{FieldDefinition}
use hpx_eigen_s1_foundation.Fields.Values.{TypedValue, coerce_value}
use hpx_eigen_s1_foundation.Fields.Patch.{
  rewritten_value, new_value, write_value, add_history, FieldValue, ValuesDb, PatchEntry,
  find_value, replaced_selections, patch_entry,
}

pub replaced_selections-values :
    (t : FieldType) (id : ℕ) (typed : TypedValue) (db : ValuesDb)
    → (replaced_selections t id typed db).values ≡ db.values
unfolding replaced_selections
replaced_selections-values t id typed db = ground arith

abbrev pub field_of : Ctx → PatchEntry → ValuesDb → Option FieldDefinition
field_of ctx e db = find_first (λ f. f.id == e.field_id && f.tenant_id == ctx.tenant_id) db.fields

pub field_of-id :
    (ctx : Ctx) (e : PatchEntry) (db : ValuesDb) {f : FieldDefinition}
    → field_of ctx e db ≡ some f
    → f.id ≡ e.field_id
field_of-id ctx e db {f} found = ground (
  arith,
  find_first_holds (λ f. f.id == e.field_id && f.tenant_id == ctx.tenant_id) db.fields {a = f}
      found,
)

module _ (parse_date : Text → Option ℕ) (matches : Text → Text → Result Bool) where
  -- An entry that names another version than the row has is refused.
  pub patch_entry-stale :
      (ctx : Ctx) (case_id : ℕ) (e : PatchEntry) (db : ValuesDb) (w : FieldValue) (n : ℕ)
      → find_value ctx.tenant_id case_id e.field_id db ≡ some w
      → e.version ≡ some n
      → n ≢ w.version
      → is_ok (patch_entry parse_date matches ctx case_id e db).0 ≡ false
  unfolding patch_entry
  patch_entry-stale ctx case_id e db w n existing named other =
      elim (Option-cases (field_of ctx e db)) [
        | inl unknown ↦ ground arith
        | inr (f, known) ↦
            let same = field_of-id ctx e db known in
            let there : find_value ctx.tenant_id case_id f.id db ≡ some w = rw same existing in
            elim (Result-cases (coerce_value parse_date matches f.type f.validation_rules e.raw)) [
              | inr (x, bad) ↦ ground arith
              | inl (typed, good) ↦ ground arith
            ]
      ]

module _ (parse_date : Text → Option ℕ) (matches : Text → Text → Result Bool) (ctx : Ctx)
    (case_id : ℕ) where
  -- What an accepted entry does to the rows: it rewrites the value of its field, or adds one.
  pub patch_entry-values :
      (e : PatchEntry) (db : ValuesDb)
      → is_ok (patch_entry parse_date matches ctx case_id e db).0 ≡ true
      → ((v : FieldValue) × (typed : TypedValue) × (find_value ctx.tenant_id case_id e.field_id db
            ≡ some v)
          × ((patch_entry parse_date matches ctx case_id e db).1.values
              ≡ update_many (λ x. x.id == v.id) (rewritten_value typed v.version) db.values))
        ⊎ ((typed : TypedValue) × (find_value ctx.tenant_id case_id e.field_id db ≡ none)
            × ((patch_entry parse_date matches ctx case_id e db).1.values
                ≡ new_value ctx case_id e.field_id e.new_id typed ∷ db.values))
  unfolding patch_entry
  patch_entry-values e db done = elim (Option-cases (field_of ctx e db)) [
    | inl unknown ↦ absurd (ground arith)
    | inr (f, known) ↦
        let same = field_of-id ctx e db known in
        let after = patch_entry parse_date matches ctx case_id e db in
        elim (Result-cases (coerce_value parse_date matches f.type f.validation_rules e.raw)) [
          | inr (x, bad) ↦ absurd (ground arith)
          | inl (typed, good) ↦ elim (Option-cases (find_value ctx.tenant_id case_id f.id db)) [
            | inl absent ↦
                let written : ValuesDb = record db {
                  values = new_value ctx case_id f.id e.new_id typed ∷ db.values;
                } in
                let step : after.1.values ≡ written.values =
                  unfold write_value add_history in
                  ground (arith, replaced_selections-values f.type e.new_id typed written) in
                inr (
                  typed,
                  rw same at absent,
                  subst (λ k. after.1.values ≡ new_value ctx case_id k e.new_id typed ∷ db.values)
                      same step,
                )
            | inr (v, there) ↦
                let written : ValuesDb = record db {
                  values =
                      update_many (λ x. x.id == v.id) (rewritten_value typed v.version) db.values;
                } in
                let step : after.1.values ≡ written.values =
                  unfold write_value add_history in
                  ground (arith, replaced_selections-values f.type v.id typed written) in
                inl (v, typed, rw same at there, step)
          ]
        ]
  ]
