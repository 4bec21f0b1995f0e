-- ===== src/Audit/Verified.antt =====
-- What the audit log promises (src/services/audit.service.ts).
use mathlib.Core.List.{Memᴰ}
use mathlib.Core.List.Memᴰ
use hpx_eigen_s1_foundation.Common.{
  ℕ, suc, ◌≡◌, ◌≢◌, ◌⊎◌, ◌==◌, Bool-cases, text_eq_iff, inl, inr, refl, true, Option, none, some,
  List, [], ◌∷◌, ◌++◌, Text, arith, keep, length, Option-cases,
}
use hpx_eigen_s1_foundation.Store.Keys.{HasUniqueKeys}
use hpx_eigen_s1_foundation.Fields.Types.{Json}
use hpx_eigen_s1_foundation.Fields.Graph.{has}
use hpx_eigen_s1_foundation.Audit.{
  AuditRow, AuditFault, WalkEnd, is_intact, hash_input, walk_chain, is_genesis, check_visited,
  from_genesis, verify_chain, disconnected,
}
use hpx_eigen_s1_foundation.Audit.Walk.{
  Memᴰ-keep, unvisited-none, IsSound, IsLinked, Progress, walk_chain-Outcome, walk_chain_ends,
  unvisited-one,
}

has_one : (x y : ℕ) → has x (y ∷ []) ≡ true → x ≡ y
unfolding has
has_one x y v = ground arith

append_some : (fs : List AuditFault) (f : AuditFault) → fs ++ f ∷ [] ≢ []
append_some [] f h = ground arith
append_some (g ∷ fs) f h = ground arith

checked :
    (rows : List AuditRow) (e : WalkEnd)
    → check_visited rows (some e) ≡ some []
    → (length e.visited ≡ length rows) × (e.faults ≡ [])
checked rows e h = ground (arith, append_some e.faults disconnected)

module _ (digest : Text → Text) (iso : ℕ → Text) (stringify : Json → Text) (rows : List AuditRow)
    (unique : HasUniqueKeys AuditRow.id rows) where
  walked : (g : AuditRow) → Option WalkEnd
  walked g = walk_chain digest iso stringify rows (suc (length rows)) (g.id ∷ []) g

  -- Without a fault every row was visited.
  all_visited :
      (g : AuditRow) (e : WalkEnd)
      → Memᴰ g rows
      → g.previous_hash ≡ none
      → walked g ≡ some e
      → check_visited rows (some e) ≡ some []
      → (r : AuditRow) → Memᴰ r rows
      → IsSound digest iso stringify rows r
  unfolding IsLinked walked
  all_visited g e inside start walked_to clean r m =
      let begin : Progress digest iso stringify rows unique (g.id ∷ []) g = record {
        inside = inside;
        linked = inl start;
        counted = unvisited-one rows unique inside;
        sound = λ q n v. inl (has_one q.id g.id v);
      } in
      let (full, no_faults) = checked rows e clean in
      let outcome =
        walk_chain-Outcome digest iso stringify rows unique (suc (length rows)) (g.id ∷ []) g e
          begin walked_to no_faults in
      outcome.sound r m (unvisited-none rows e.visited (omega (arith, outcome.counted, full)) m)

  one_genesis :
      (gs : List AuditRow)
      → ((g : AuditRow) → Memᴰ g gs → Memᴰ g rows × (is_genesis g ≡ true))
      → from_genesis digest iso stringify rows gs ≡ some []
      → (r : AuditRow) → Memᴰ r rows
      → IsSound digest iso stringify rows r
  unfolding walked
  one_genesis [] starts h = absurd (ground arith)
  one_genesis (g ∷ []) starts h = elim (Option-cases (walked g)) [
    | inl lost ↦ absurd (ground arith)
    | inr (e, ended) ↦
        let (inside, start) = starts g (Memᴰ.head refl) in
        all_visited g e inside (ground arith) ended (ground arith)
  ]
  one_genesis (g ∷ k ∷ more) starts h = absurd (ground arith)

-- What a row is checked for: it carries the digest of its content, unless its hash is of another version
-- than 1, and it starts the chain or names the digest of a row of the table.
abbrev pub IsVerified :
    (Text → Text) → (ℕ → Text) → (Json → Text) → List AuditRow → AuditRow → Type 0
IsVerified digest iso stringify rows r =
    ((r.hash_version ≢ 1)
      ⊎ (digest (
            hash_input iso stringify r.previous_hash r.payload r.before_state r.after_state
              r.created_at)
          ≡ r.current_hash))
    × ((r.previous_hash ≡ none)
        ⊎ ((q : AuditRow) × Memᴰ q rows × (r.previous_hash ≡ some q.current_hash)))

intact_row :
    (digest : Text → Text) (iso : ℕ → Text) (stringify : Json → Text) (r : AuditRow)
    → is_intact digest iso stringify r ≡ true
    → (r.hash_version ≢ 1)
      ⊎ (digest (
            hash_input iso stringify r.previous_hash r.payload r.before_state r.after_state
              r.created_at)
          ≡ r.current_hash)
unfolding is_intact
intact_row digest iso stringify r h =
    let whole = digest (
      hash_input iso stringify r.previous_hash r.payload r.before_state r.after_state
        r.created_at) in
    elim (Bool-cases (r.hash_version == 1)) [
      | inl current ↦ inr ((text_eq_iff whole r.current_hash).0 (ground arith))
      | inr old ↦ inl (λ e. ground arith)
    ]

every_row :
    (digest : Text → Text) (iso : ℕ → Text) (stringify : Json → Text) (rows : List AuditRow)
    → HasUniqueKeys AuditRow.id rows
    → verify_chain digest iso stringify rows ≡ some []
    → (r : AuditRow) → Memᴰ r rows
    → IsSound digest iso stringify rows r
unfolding verify_chain
every_row digest iso stringify [] unique h r m = absurd (Memᴰ.not-nil m)
every_row digest iso stringify (q ∷ rows) unique h r m =
    one_genesis digest iso stringify (q ∷ rows) unique (keep is_genesis (q ∷ rows))
      (λ g n. Memᴰ-keep is_genesis (q ∷ rows) n) h r m

-- If verification reports no fault, then every row of the tenant with hash version 1 carries the digest
-- of its own content, and every row, of whatever version, either starts the chain or names the digest
-- of a row of the tenant. The rows have different ids.
pub verify_chain-IsVerified :
    (digest : Text → Text) (iso : ℕ → Text) (stringify : Json → Text) (rows : List AuditRow)
    → HasUniqueKeys AuditRow.id rows
    → verify_chain digest iso stringify rows ≡ some []
    → (r : AuditRow) → Memᴰ r rows
    → IsVerified digest iso stringify rows r
unfolding IsSound
verify_chain-IsVerified digest iso stringify rows unique h r m =
    let (intact, linked) = every_row digest iso stringify rows unique h r m in
    (intact_row digest iso stringify r intact, linked)

walks_from :
    (digest : Text → Text) (iso : ℕ → Text) (stringify : Json → Text) (rows gs : List AuditRow)
    → HasUniqueKeys AuditRow.id rows
    → ((g : AuditRow) → Memᴰ g gs → Memᴰ g rows × (is_genesis g ≡ true))
    → from_genesis digest iso stringify rows gs ≢ none
walks_from digest iso stringify rows [] unique starts h = ground arith
walks_from digest iso stringify rows (g ∷ []) unique starts h =
    let (inside, start) = starts g (Memᴰ.head refl) in
    let ends =
      walk_chain_ends digest iso stringify rows unique (suc (length rows)) (g.id ∷ []) g inside
        (omega (arith, unvisited-one rows unique inside)) in
    ground arith
walks_from digest iso stringify rows (g ∷ k ∷ more) unique starts h = ground arith

-- Verification ends: the walk visits every row once at most, whatever the rows link to.
pub verify_chain-ends :
    (digest : Text → Text) (iso : ℕ → Text) (stringify : Json → Text) (rows : List AuditRow)
    → HasUniqueKeys AuditRow.id rows
    → verify_chain digest iso stringify rows ≢ none
unfolding verify_chain
verify_chain-ends digest iso stringify [] unique h = ground arith
verify_chain-ends digest iso stringify (q ∷ rows) unique h =
    walks_from digest iso stringify (q ∷ rows) (keep is_genesis (q ∷ rows)) unique
      (λ g m. Memᴰ-keep is_genesis (q ∷ rows) m) h
