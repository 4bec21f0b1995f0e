-- ===== src/Fields/Patch/Tracking.antt =====
-- The row of a field's value from entry to entry
-- (src/services/case-field-value.service.ts).
use hpx_eigen_s1_foundation.Common.{
  ℕ, ◌≡◌, ◌≢◌, ◌≤◌, ◌<◌, refl, sym, ap, ◌∙◌, Bool, true, Option, none, some, List, [], ◌∷◌, Text,
  All, arith, ◌==◌, ==_iff, ◌&&◌, find_first, find_first_holds, find_first-update_many_if,
  update_many, Bool-cases, inl, inr,
}
use hpx_eigen_s1_foundation.Store.{Result, is_ok, Ctx}
use hpx_eigen_s1_foundation.Store.Keys.{HasUniqueKeys, find_first-All}
use hpx_eigen_s1_foundation.Fields.Values.{TypedValue}
use hpx_eigen_s1_foundation.Fields.Patch.{
  FieldValue, ValuesDb, PatchEntry, find_value, rewritten_value, new_value, patch_entry,
}
use hpx_eigen_s1_foundation.Fields.Patch.Locking.{patch_entry-values}

module _ {A : Type 0} where
  All-map : {P Q : A → Type 0} (xs : List A) → ((x : A) → P x → Q x) → All P xs → All Q xs
  All-map [] f h = tt
  All-map (x ∷ xs) f (hx, h) = (f x hx, All-map xs f h)

  All-update_many :
      (P : A → Type 0) (q : A → Bool) (f : A → A) (xs : List A)
      → ((x : A) → P x → P (f x))
      → All P xs
      → All P (update_many q f xs)
  unfolding update_many
  All-update_many P q f [] keeps h = tt
  All-update_many P q f (x ∷ xs) keeps (hx, h) = elim (Bool-cases (q x)) [
    | inl hit ↦ rw hit (keeps x hx, All-update_many P q f xs keeps h)
    | inr missed ↦ rw missed (hx, All-update_many P q f xs keeps h)
  ]

-- The test that `find_value` runs on a row.
abbrev is_value_of : ℕ → ℕ → ℕ → FieldValue → Bool
is_value_of tenant case_id field_id v =
    v.tenant_id == tenant && v.case_id == case_id && v.field_id == field_id

-- The field has the value `w` in the row `id`, and no row of another field has that id.
unfoldable pub Tracked : ℕ → ℕ → ℕ → ℕ → FieldValue → ValuesDb → Type 0
Tracked tenant case_id field id w db =
    (find_value tenant case_id field db ≡ some w)
    × (w.id ≡ id)
    × All (λ x. x.id ≡ id → x.field_id ≡ field) db.values

pub Tracked-values :
    (tenant case_id field id : ℕ) (w : FieldValue) (db db' : ValuesDb)
    → db'.values ≡ db.values
    → Tracked tenant case_id field id w db
    → Tracked tenant case_id field id w db'
unfolding Tracked find_value
Tracked-values tenant case_id field id w db db' same tracked = rw same tracked

only_field :
    (p : FieldValue → Bool) (xs : List FieldValue) {v : FieldValue}
    → HasUniqueKeys FieldValue.id xs
    → find_first p xs ≡ some v
    → All (λ x. x.id ≡ v.id → x.field_id ≡ v.field_id) xs
unfolding find_first
only_field p [] u h = tt
only_field p (x ∷ xs) {v} (ux, u) h = elim (Bool-cases (p x)) [
  | inl here ↦
      let same : x ≡ v = ground arith in
      (
        λ e. ap (λ y. y.field_id) same,
        All-map xs (λ d apart e. absurd (apart (ap (λ y. y.id) same ∙ sym e))) ux,
      )
  | inr off ↦
      let found : find_first p xs ≡ some v = ground arith in
      (λ e. absurd (find_first-All (λ d. x.id ≢ d.id) p xs ux found e), only_field p xs u found)
]

module _ (parse_date : Text → Option ℕ) (matches : Text → Text → Result Bool) (ctx : Ctx)
    (case_id : ℕ) where
  module _ (field id : ℕ) where
    -- An accepted entry for the field raises the version, and one for another field leaves the row.
    rewritten-Tracked :
        (e : PatchEntry) (db : ValuesDb) (w v : FieldValue) (typed : TypedValue)
        → Tracked ctx.tenant_id case_id field id w db
        → find_value ctx.tenant_id case_id e.field_id db ≡ some v
        → (u : FieldValue) × Tracked ctx.tenant_id case_id field id u (record db {
          values = update_many (λ x. x.id == v.id) (rewritten_value typed v.version) db.values;
        })
          × (w.version ≤ u.version)
          × (e.field_id ≡ field → w.version < u.version)
    unfolding Tracked find_value rewritten_value
    rewritten-Tracked e db w v typed (found, at_id, own) there =
        let after =
          find_first-update_many_if (is_value_of ctx.tenant_id case_id field) (λ x. x.id == v.id)
            (rewritten_value typed v.version) db.values (λ x. refl) found in
        let owned =
          All-update_many (λ x. x.id ≡ id → x.field_id ≡ field) (λ x. x.id == v.id)
            (rewritten_value typed v.version) db.values (λ x h. h) own in
        let of_field : v.field_id ≡ e.field_id = ground (
          arith,
          find_first_holds (is_value_of ctx.tenant_id case_id e.field_id) db.values {a = v} there,
          ==_iff v.field_id e.field_id,
        ) in
        elim (Bool-cases (w.id == v.id)) [
          | inl hit ↦
              let ids : v.id ≡ id = ground (arith, ==_iff w.id v.id) in
              let at_field : e.field_id ≡ field =
                sym of_field
                ∙ find_first-All (λ x. x.id ≡ id → x.field_id ≡ field) _ db.values own there ids in
              let moved : find_first (is_value_of ctx.tenant_id case_id field) db.values ≡ some v =
                rw (← at_field) there in
              let one : w ≡ v = ground arith in
              let same_version : w.version ≡ v.version = ap (λ x. x.version) one in
              (
                rewritten_value typed v.version w,
                (after ∙ rw hit refl, at_id, owned),
                omega arith,
                λ _. omega arith,
              )
          | inr missed ↦ (
            w,
            (after ∙ rw missed refl, at_id, owned),
            omega arith,
            λ same.
                let moved : find_first (is_value_of ctx.tenant_id case_id field) db.values
                    ≡ some v =
                  rw (← same) there in
                let one : w ≡ v = ground arith in
                absurd (ground (arith, ==_iff w.id v.id, ap (λ x. x.id) one)),
          )
        ]

    added-Tracked :
        (e : PatchEntry) (db : ValuesDb) (w : FieldValue) (typed : TypedValue)
        → id ≢ e.new_id
        → Tracked ctx.tenant_id case_id field id w db
        → find_value ctx.tenant_id case_id e.field_id db ≡ none
        → Tracked ctx.tenant_id case_id field id w
            (record db { values = new_value ctx case_id e.field_id e.new_id typed ∷ db.values })
          × (e.field_id ≢ field)
    unfolding Tracked find_value find_first new_value
    added-Tracked e db w typed fresh (found, at_id, own) absent =
        let apart : e.field_id ≢ field = λ same.
          let gone : find_first (is_value_of ctx.tenant_id case_id field) db.values ≡ none =
            rw (← same) absent in
          ground arith in
        (
          (
            ground (arith, ==_iff e.field_id field),
            at_id,
            ((λ taken. absurd (fresh (sym taken))), own),
          ),
          apart,
        )

    pub found_at :
        (e : PatchEntry) (db : ValuesDb) (w : FieldValue)
        → Tracked ctx.tenant_id case_id field id w db
        → e.field_id ≡ field
        → find_value ctx.tenant_id case_id e.field_id db ≡ some w
    unfolding Tracked
    found_at e db w tracked same = rw same tracked.0

    pub patch_entry-Tracked :
        (e : PatchEntry) (db : ValuesDb) (w : FieldValue)
        → id ≢ e.new_id
        → Tracked ctx.tenant_id case_id field id w db
        → is_ok (patch_entry parse_date matches ctx case_id e db).0 ≡ true
        → (u : FieldValue) × Tracked ctx.tenant_id case_id field id u
            (patch_entry parse_date matches ctx case_id e db).1
          × (w.version ≤ u.version)
          × (e.field_id ≡ field → w.version < u.version)
    patch_entry-Tracked e db w fresh tracked done =
        let after = (patch_entry parse_date matches ctx case_id e db).1 in
        elim (patch_entry-values parse_date matches ctx case_id e db done) [
          | inl (v, typed, there, written) ↦
              let (u, now, kept, raised) = rewritten-Tracked e db w v typed tracked there in
              (u, Tracked-values ctx.tenant_id case_id field id u _ after written now, kept, raised)
          | inr (typed, absent, written) ↦
              let (now, apart) = added-Tracked e db w typed fresh tracked absent in
              (
                w,
                Tracked-values ctx.tenant_id case_id field id w _ after written now,
                omega arith,
                λ same. absurd (apart same),
              )
        ]

pub tracks :
    (tenant case_id field : ℕ) (db : ValuesDb) (v : FieldValue)
    → HasUniqueKeys FieldValue.id db.values
    → find_value tenant case_id field db ≡ some v
    → Tracked tenant case_id field v.id v db
unfolding Tracked find_value
tracks tenant case_id field db v unique found =
    let of_field : v.field_id ≡ field = ground (
      arith,
      find_first_holds (is_value_of tenant case_id field) db.values {a = v} found,
      ==_iff v.field_id field,
    ) in
    (
      found,
      refl,
      All-map db.values (λ x h e. h e ∙ of_field)
          (only_field (is_value_of tenant case_id field) db.values unique found),
    )
