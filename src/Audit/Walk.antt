-- ===== src/Audit/Walk.antt =====
-- The walk of `verifyChain` (src/services/audit.service.ts) over the rows of a tenant.
use mathlib.Core.Path.{subst}
use mathlib.Core.List.{Memᴰ}
use mathlib.Core.List.Memᴰ
use hpx_eigen_s1_foundation.Common.{
  ℕ, zero, suc, ◌+◌, ◌<◌, ◌≡◌, ◌≢◌, ◌⊎◌, inl, inr, refl, sym, ap, ◌∙◌, Bool, true, false, Option,
  none, some, List, [], ◌∷◌, Text, arith, keep, length, All, if◌then◌else◌, Bool-cases,
  Option-cases, text_eq_iff,
}
use hpx_eigen_s1_foundation.Store.Keys.{HasUniqueKeys}
use hpx_eigen_s1_foundation.Fields.Types.{Json}
use hpx_eigen_s1_foundation.Fields.Graph.{has, has_cases}
use hpx_eigen_s1_foundation.Audit.{
  AuditRow, AuditFault, WalkEnd, is_intact, successors, walk_chain, follows, with_fault,
  hash_mismatch,
}

module _ {A : Type 0} where
  pub Memᴰ-keep :
      (p : A → Bool) (xs : List A) {x : A} → Memᴰ x (keep p xs) → Memᴰ x xs × (p x ≡ true)
  Memᴰ-keep p [] m = absurd (Memᴰ.not-nil m)
  Memᴰ-keep p (y ∷ ys) {x} m = elim (Bool-cases (p y)) [
    | inl yes_y ↦ elim (Memᴰ.cases_cons (rw yes_y at m)) [
      | inl here ↦ (Memᴰ.head here, ap p here ∙ yes_y)
      | inr there ↦ let (inside, holds) = Memᴰ-keep p ys there in (Memᴰ.tail inside, holds)
    ]
    | inr no_y ↦ let (inside, holds) = Memᴰ-keep p ys (rw no_y at m) in (Memᴰ.tail inside, holds)
  ]

  pub All-Memᴰ : (P : A → Type 0) (xs : List A) {x : A} → All P xs → Memᴰ x xs → P x
  All-Memᴰ P [] h m = absurd (Memᴰ.not-nil m)
  All-Memᴰ P (y ∷ ys) (hy, h) m = elim (Memᴰ.cases_cons m) [
    | inl here ↦ subst P (sym here) hy
    | inr there ↦ All-Memᴰ P ys h there
  ]

-- The rows that the walk has not visited.
pub unvisited : List AuditRow → List ℕ → ℕ
unvisited [] seen = 0
unvisited (r ∷ rs) seen = let rest = unvisited rs seen in if has r.id seen then rest else suc rest

pub unvisited-none :
    (rs : List AuditRow) (seen : List ℕ)
    → unvisited rs seen ≡ 0
    → {r : AuditRow} → Memᴰ r rs
    → has r.id seen ≡ true
unfolding unvisited
unvisited-none [] seen h m = absurd (Memᴰ.not-nil m)
unvisited-none (q ∷ rs) seen h {r} m = elim (Bool-cases (has q.id seen)) [
  | inr off ↦ absurd (ground arith)
  | inl on ↦ elim (Memᴰ.cases_cons m) [
    | inl here ↦ ap (λ x. has x.id seen) here ∙ on
    | inr there ↦ unvisited-none rs seen (ground arith) there
  ]
]

unvisited-absent :
    (rs : List AuditRow) (seen : List ℕ) (k : ℕ)
    → All (λ r. k ≢ r.id) rs
    → unvisited rs (k ∷ seen) ≡ unvisited rs seen
unfolding unvisited has
unvisited-absent [] seen k h = refl
unvisited-absent (r ∷ rs) seen k (hr, h) = ground (arith, unvisited-absent rs seen k h)

-- A row visited for the first time is one row less.
pub unvisited-new :
    (rs : List AuditRow) (seen : List ℕ) {s : AuditRow}
    → HasUniqueKeys AuditRow.id rs
    → Memᴰ s rs
    → has s.id seen ≡ false
    → suc (unvisited rs (s.id ∷ seen)) ≡ unvisited rs seen
unfolding unvisited has
unvisited-new [] seen u m h = absurd (Memᴰ.not-nil m)
unvisited-new (r ∷ rs) seen {s} (ur, u) m h = elim (Memᴰ.cases_cons m) [
  | inl here ↦
      let same : s.id ≡ r.id = ap (λ x. x.id) here in
      let rest = unvisited-absent rs seen s.id (rw same ur) in ground arith
  | inr there ↦
      let apart : r.id ≢ s.id = All-Memᴰ (λ d. r.id ≢ d.id) rs ur there in
      ground (arith, unvisited-new rs seen {s = s} u there h)
]

unvisited_blank : (rs : List AuditRow) → unvisited rs [] ≡ length rs
unfolding unvisited has
unvisited_blank [] = refl
unvisited_blank (r ∷ rs) = ap suc (unvisited_blank rs)

pub unvisited-one :
    (rs : List AuditRow) {s : AuditRow}
    → HasUniqueKeys AuditRow.id rs
    → Memᴰ s rs
    → unvisited rs (s.id ∷ []) + 1 ≡ length rs
unvisited-one rs {s} u m =
    omega (arith, unvisited-new rs [] u m (unfold has in refl), unvisited_blank rs)

-- Rows with one id are one row.
pub one_row :
    (rs : List AuditRow) {r s : AuditRow}
    → HasUniqueKeys AuditRow.id rs
    → Memᴰ r rs
    → Memᴰ s rs
    → r.id ≡ s.id
    → r ≡ s
one_row [] u m n e = absurd (Memᴰ.not-nil m)
one_row (q ∷ rs) {r} {s} (uq, u) m n e = elim (Memᴰ.cases_cons m) [
  | inl here ↦ elim (Memᴰ.cases_cons n) [
    | inl both ↦ here ∙ sym both
    | inr there ↦ absurd (All-Memᴰ (λ d. q.id ≢ d.id) rs uq there (sym (ap (λ x. x.id) here) ∙ e))
  ]
  | inr there ↦ elim (Memᴰ.cases_cons n) [
    | inl here ↦
        absurd (All-Memᴰ (λ d. q.id ≢ d.id) rs uq there (sym (ap (λ x. x.id) here) ∙ sym e))
    | inr both ↦ one_row rs u there both e
  ]
]

pub List-cases :
    (xs : List AuditRow)
    → (xs ≡ [])
      ⊎ ((s : AuditRow) × (xs ≡ s ∷ []))
      ⊎ ((s : AuditRow) × (t : AuditRow) × (more : List AuditRow) × (xs ≡ s ∷ t ∷ more))
List-cases [] = inl refl
List-cases (s ∷ []) = inr (inl (s, refl))
List-cases (s ∷ t ∷ more) = inr (inr (s, t, more, refl))

without_fault :
    (ok : Bool) (f : AuditFault) (o : Option WalkEnd) {e : WalkEnd}
    → with_fault ok f o ≡ some e
    → e.faults ≡ []
    → (ok ≡ true) × (o ≡ some e)
without_fault true f o h k = (refl, h)
without_fault false f none h k = absurd (ground arith)
without_fault false f (some d) {e} h k = absurd (ground arith)

follows-hash : (r : AuditRow) (hash : Text) → follows hash r ≡ true → r.previous_hash ≡ some hash
follows-hash r hash h = elim (Option-cases r.previous_hash) [
  | inl start ↦ absurd (ground arith)
  | inr (found, e) ↦ ground (arith, text_eq_iff found hash)
]

Memᴰ-successors :
    (rows : List AuditRow) (hash : Text) {s : AuditRow} {more : List AuditRow}
    → successors rows hash ≡ s ∷ more
    → Memᴰ s (keep (follows hash) rows)
unfolding successors
Memᴰ-successors rows hash {s} next = subst (Memᴰ s) (sym next) (Memᴰ.head refl)

module _ (digest : Text → Text) (iso : ℕ → Text) (stringify : Json → Text)
    (rows : List AuditRow) where
  -- A row that carries its own digest, and starts the chain or follows a row of the table.
  unfoldable pub IsSound : AuditRow → Type 0
  IsSound r =
      (is_intact digest iso stringify r ≡ true)
      × ((r.previous_hash ≡ none)
          ⊎ ((q : AuditRow) × Memᴰ q rows × (r.previous_hash ≡ some q.current_hash)))

  unfoldable pub IsLinked : AuditRow → Type 0
  IsLinked r =
      (r.previous_hash ≡ none)
      ⊎ ((q : AuditRow) × Memᴰ q rows × (r.previous_hash ≡ some q.current_hash))

  module _ (unique : HasUniqueKeys AuditRow.id rows) where
    -- The rows visited before the current one are sound, and each was counted once.
    pub record Progress (visited : List ℕ) (current : AuditRow) : Type 0 where
      pub inside : Memᴰ current rows
      pub linked : IsLinked current
      pub counted : unvisited rows visited + length visited ≡ length rows
      pub sound :
          (r : AuditRow) → Memᴰ r rows → has r.id visited ≡ true → (r.id ≡ current.id) ⊎ IsSound r

    advance :
        (visited : List ℕ) (current s : AuditRow) {more : List AuditRow}
        → Progress visited current
        → is_intact digest iso stringify current ≡ true
        → successors rows current.current_hash ≡ s ∷ more
        → has s.id visited ≡ false
        → Progress (s.id ∷ visited) s
    unfolding successors IsLinked IsSound
    advance visited current s {more} p intact next fresh =
        let (inside, follow) =
          Memᴰ-keep (follows current.current_hash) rows
            (subst (Memᴰ s) (sym next) (Memᴰ.head refl)) in
        record {
          inside = inside;
          linked =
              inr (current, p.inside, ground (arith, follows-hash s current.current_hash follow));
          counted = omega (arith, p.counted, unvisited-new rows visited unique inside fresh);
          sound = λ r m v. elim (has_cases r.id s.id visited v) [
            | inl here ↦ inl (sym here)
            | inr before ↦ elim (p.sound r m before) [
              | inr done ↦ inr done
              | inl at ↦
                  inr (subst IsSound (one_row rows unique p.inside m (sym at)) (intact, p.linked))
            ]
          ];
        }

    pub record Outcome (visited : List ℕ) : Type 0 where
      pub counted : unvisited rows visited + length visited ≡ length rows
      pub sound : (r : AuditRow) → Memᴰ r rows → has r.id visited ≡ true → IsSound r

    at_leaf :
        (visited : List ℕ) (current : AuditRow)
        → Progress visited current
        → is_intact digest iso stringify current ≡ true
        → Outcome visited
    unfolding IsLinked IsSound
    at_leaf visited current p intact = record {
      counted = p.counted;
      sound = λ r m v. elim (p.sound r m v) [
        | inr done ↦ done
        | inl at ↦ subst IsSound (one_row rows unique p.inside m (sym at)) (intact, p.linked)
      ];
    }

    -- A walk without a fault visited sound rows only.
    pub walk_chain-Outcome :
        (fuel : ℕ) (visited : List ℕ) (current : AuditRow) (e : WalkEnd)
        → Progress visited current
        → walk_chain digest iso stringify rows fuel visited current ≡ some e
        → e.faults ≡ []
        → Outcome e.visited
    unfolding walk_chain
    walk_chain-Outcome zero visited current e p h clean = absurd (ground arith)
    walk_chain-Outcome (suc fuel) visited current e p h clean =
        let (intact, goes) =
          without_fault (is_intact digest iso stringify current) (hash_mismatch current.id) _ h
            clean in
        elim (List-cases (successors rows current.current_hash)) [
          | inl leaf ↦
              let same : visited ≡ e.visited = ground arith in
              subst Outcome same (at_leaf visited current p intact)
          | inr (inl (s, next)) ↦ elim (Bool-cases (has s.id visited)) [
            | inl again ↦ absurd (ground arith)
            | inr fresh ↦
                walk_chain-Outcome fuel (s.id ∷ visited) s e
                  (advance visited current s p intact next fresh) (ground arith) clean
          ]
          | inr (inr (s, t, more, next)) ↦ absurd (ground arith)
        ]

    -- The walk visits each row once, so that it ends.
    pub walk_chain_ends :
        (fuel : ℕ) (visited : List ℕ) (current : AuditRow)
        → Memᴰ current rows
        → unvisited rows visited < fuel
        → walk_chain digest iso stringify rows fuel visited current ≢ none
    unfolding walk_chain
    walk_chain_ends zero visited current inside h e = omega arith
    walk_chain_ends (suc fuel) visited current inside h e =
        elim (List-cases (successors rows current.current_hash)) [
          | inl leaf ↦ ground arith
          | inr (inl (s, next)) ↦ elim (Bool-cases (has s.id visited)) [
            | inl again ↦ ground arith
            | inr fresh ↦
                let (found, follow) =
                  Memᴰ-keep (follows current.current_hash) rows
                    (Memᴰ-successors rows current.current_hash next) in
                walk_chain_ends fuel (s.id ∷ visited) s found
                  (omega (arith, unvisited-new rows visited unique found fresh)) (ground arith)
          ]
          | inr (inr (s, t, more, next)) ↦ ground arith
        ]
