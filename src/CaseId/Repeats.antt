-- ===== src/CaseId/Repeats.antt =====
-- Repeated calls for a case number (src/services/case-id.service.ts).
use mathlib.Core.Path.{subst}
use hpx_eigen_s1_foundation.Common.{
  ℕ, zero, suc, ◌+◌, ◌≡◌, refl, sym, ap, ◌∙◌, Bool, true, false, List, [], ◌∷◌, Bool-cases, ==_iff,
  find_first-update_many_if, none, some, Text, is_empty, arith, find_first, find_first_holds,
  find_first-update_many, update_many, Option-cases, inl, inr,
}
use hpx_eigen_s1_foundation.Case.{DocCase}
use hpx_eigen_s1_foundation.CaseNumber.{generate_case_number}
use hpx_eigen_s1_foundation.CaseNumber.Mint.{mint_case_number, mint_from, max_retries}
use hpx_eigen_s1_foundation.Handoff.Confirm.{is_case_number_taken}
use hpx_eigen_s1_foundation.Store.{
  Result, ok, err, settle, Db, Ctx, find_case, is_live_case, has_id,
}
use hpx_eigen_s1_foundation.CaseId.{
  given_number, numbered_case, mint_unique_case_number, generate_case_id_in_tx,
  generate_case_id_manual,
}

mint_from-nonempty :
    (taken : Text → Bool) (draw : ℕ → ℕ) (tries k : ℕ) {n : Text}
    → mint_from taken draw tries k ≡ some n
    → is_empty n ≡ false
unfolding mint_from generate_case_number
mint_from-nonempty taken draw zero k h = ground arith
mint_from-nonempty taken draw (suc tries) k {n} h =
    ground (arith, mint_from-nonempty taken draw tries (k + 8) {n = n})

-- The live case of the tenant has the number.
Numbered : ℕ → ℕ → Db → Text → Type 0
Numbered tenant id db n =
    (c : DocCase) × (find_case tenant id db ≡ some c) × (given_number c ≡ some n)

given_number-numbered_case :
    (n : Text) (c : DocCase) → is_empty n ≡ false → given_number (numbered_case n c) ≡ some n
unfolding given_number numbered_case
given_number-numbered_case n c e = ground arith

find_case-numbered_case :
    (tenant id : ℕ) (db : Db) (n : Text) {c : DocCase}
    → find_case tenant id db ≡ some c
    → find_first (is_live_case tenant id) (update_many (has_id id) (numbered_case n) db.cases)
      ≡ some (numbered_case n c)
unfolding find_case numbered_case is_live_case
find_case-numbered_case tenant id db n {c} found =
    find_first-update_many (is_live_case tenant id) (has_id id) (numbered_case n) db.cases
      (λ x e. refl) found
      (ground (arith, find_first_holds (is_live_case tenant id) db.cases {a = c} found))

generate_case_id_in_tx-Numbered :
    (ctx : Ctx) (draw : ℕ → ℕ) (id : ℕ) (db : Db) (n : Text) (had : Bool)
    → (generate_case_id_in_tx ctx draw id db).0 ≡ ok (n, had)
    → Numbered ctx.tenant_id id (generate_case_id_in_tx ctx draw id db).1 n
unfolding generate_case_id_in_tx mint_unique_case_number mint_case_number Numbered
generate_case_id_in_tx-Numbered ctx draw id db n had h =
    elim (Option-cases (find_case ctx.tenant_id id db)) [
      | inl gone ↦ absurd (ground arith)
      | inr (c, found) ↦ elim (Option-cases (given_number c)) [
        | inr (m, given) ↦ (c, ground arith, ground arith)
        | inl fresh ↦ elim (Option-cases (mint_from (is_case_number_taken db) draw max_retries 0)) [
          | inl spent ↦ absurd (ground arith)
          | inr (m, minted) ↦
              let same : m ≡ n = ground arith in
              (
                numbered_case n c,
                unfold find_case in
                    ground (arith, find_case-numbered_case ctx.tenant_id id db n found),
                given_number-numbered_case n c (
                    mint_from-nonempty (is_case_number_taken db) draw max_retries 0 {n = n}
                      (rw same at minted)),
              )
        ]
      ]
    ]

settled :
    {A : Type 0} (s : Db) (p : Result A × Db) (a : A) (s' : Db)
    → ◌≡◌ {A = Result A × Db} (settle s p) (ok a, s')
    → (p.0 ≡ ok a) × (p.1 ≡ s')
settled s (ok b, t) a s' h = (ap (λ q. q.0) h, ap (λ q. q.1) h)
settled s (err e, t) a s' h = absurd (err-ok (ap (λ q. q.0) h))
  where
    err-ok : err e ≡ ok a → ⊥
    err-ok k = ground arith

generate_case_id_manual-given :
    (ctx : Ctx) (draw : ℕ → ℕ) (id : ℕ) (db : Db) (n : Text)
    → Numbered ctx.tenant_id id db n
    → ◌≡◌ {A = Result (Text × Bool) × Db}
        (generate_case_id_manual ctx draw id db)
        (ok (n, true), db)
unfolding generate_case_id_manual generate_case_id_in_tx Numbered
generate_case_id_manual-given ctx draw id db n (c, found, given) = ground arith

-- A call for some case of the tenant by one of its users.
pub record MintCall : Type 0 where
  pub user_id : ℕ
  pub now : ℕ
  pub draw : ℕ → ℕ
  pub case_id : ℕ

abbrev caller : ℕ → MintCall → Ctx
caller tenant call = record { tenant_id = tenant; user_id = call.user_id; now = call.now }

-- The calls, one after the other.
unfoldable pub run_mints : ℕ → List MintCall → Db → Db
unfolding generate_case_id_manual
run_mints tenant [] db = db
run_mints tenant (m ∷ ms) db =
    run_mints tenant ms (generate_case_id_manual (caller tenant m) m.draw m.case_id db).1

-- A number that a case has is left alone when another case, or none, is given one.
numbered_elsewhere :
    (tenant id other : ℕ) (db : Db) (n m : Text) {c d : DocCase}
    → find_case tenant id db ≡ some c
    → given_number c ≡ some n
    → find_case tenant other db ≡ some d
    → given_number d ≡ none
    → find_first (is_live_case tenant id) (update_many (has_id other) (numbered_case m) db.cases)
      ≡ some c
unfolding find_case numbered_case
numbered_elsewhere tenant id other db n m {c} {d} found given there fresh =
    elim (Bool-cases (has_id other c)) [
      | inr apart ↦
          find_first-update_many_if (is_live_case tenant id) (has_id other) (numbered_case m)
            db.cases (λ x. unfold is_live_case in refl) found
          ∙ rw apart refl
      | inl here ↦
          let at_id = find_first_holds (is_live_case tenant id) db.cases found in
          let same : id ≡ other =
            unfold is_live_case in ground (arith, ==_iff c.id id, ==_iff c.id other) in
          let moved : find_first (is_live_case tenant other) db.cases ≡ some c = rw same at found in
          let one : c ≡ d = ground arith in absurd (ground arith)
    ]

generate_case_id_in_tx-keeps :
    (ctx : Ctx) (draw : ℕ → ℕ) (id other : ℕ) (db : Db) (n : Text)
    → Numbered ctx.tenant_id id db n
    → Numbered ctx.tenant_id id (generate_case_id_in_tx ctx draw other db).1 n
unfolding generate_case_id_in_tx mint_unique_case_number mint_case_number Numbered
generate_case_id_in_tx-keeps ctx draw id other db n (c, found, given) =
    elim (Option-cases (find_case ctx.tenant_id other db)) [
      | inl gone ↦ (c, ground arith, given)
      | inr (d, there) ↦ elim (Option-cases (given_number d)) [
        | inr (m, has) ↦ (c, ground arith, given)
        | inl fresh ↦ elim (Option-cases (mint_from (is_case_number_taken db) draw max_retries 0)) [
          | inl spent ↦ (c, ground arith, given)
          | inr (m, minted) ↦ (
            c,
            unfold find_case in
                ground
                  (arith, numbered_elsewhere ctx.tenant_id id other db n m found given there fresh),
            given,
          )
        ]
      ]
    ]

settle-keeps :
    (P : Db → Type 0) {A : Type 0} (s : Db) (p : Result A × Db) → P s → P p.1 → P (settle s p).1
settle-keeps P s (ok a, t) before after = after
settle-keeps P s (err e, t) before after = before

run_mints-Numbered :
    (tenant id : ℕ) (calls : List MintCall) (db : Db) (n : Text)
    → Numbered tenant id db n
    → Numbered tenant id (run_mints tenant calls db) n
unfolding run_mints generate_case_id_manual
run_mints-Numbered tenant id [] db n numbered = numbered
run_mints-Numbered tenant id (m ∷ ms) db n numbered =
    let step = generate_case_id_in_tx (caller tenant m) m.draw m.case_id db in
    run_mints-Numbered tenant id ms (settle db step).1 n (
      settle-keeps (λ d. Numbered tenant id d n) db step numbered
        (generate_case_id_in_tx-keeps (caller tenant m) m.draw id m.case_id db n numbered))

-- Once a call has given a case a number, then after any number of such calls by users of the tenant,
-- for this case and others, one more call for the case, whatever it would draw, returns this number,
-- says that it was there already, and changes nothing.
pub generate_case_id_manual-again :
    (ctx later : Ctx) (draw draw' : ℕ → ℕ) (id : ℕ) (calls : List MintCall) (db db' : Db) (n : Text)
    (had : Bool)
    → later.tenant_id ≡ ctx.tenant_id
    → ◌≡◌ {A = Result (Text × Bool) × Db}
        (generate_case_id_manual ctx draw id db)
        (ok (n, had), db')
    → ◌≡◌ {A = Result (Text × Bool) × Db}
        (generate_case_id_manual later draw' id (run_mints ctx.tenant_id calls db'))
        (ok (n, true), run_mints ctx.tenant_id calls db')
unfolding generate_case_id_manual
generate_case_id_manual-again ctx later draw draw' id calls db db' n had same h =
    let (returned, left) = settled db (generate_case_id_in_tx ctx draw id db) (n, had) db' h in
    let numbered =
      subst (λ d. Numbered ctx.tenant_id id d n) left
        (generate_case_id_in_tx-Numbered ctx draw id db n had returned) in
    let end = run_mints ctx.tenant_id calls db' in
    generate_case_id_manual-given later draw' id end n (
      subst (λ t. Numbered t id end n) (sym same)
        (run_mints-Numbered ctx.tenant_id id calls db' n numbered))
