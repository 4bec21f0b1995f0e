-- ===== src/Fields/Options.antt =====
-- The chain of parents of an option: `assertNoOptionCycle` (src/services/case-field.validation.ts).
use mathlib.Core.Path.{subst}
use hpx_eigen_s1_foundation.Common.{
  ℕ, zero, suc, ◌≤◌, ◌<◌, ◌≡◌, ◌≢◌, ◌↔◌, ◌⊎◌, inl, inr, refl, sym, Bool, true, false, Option, none,
  some, List, [], ◌∷◌, arith, ◌==◌, if◌then◌else◌, Bool-cases, Option-cases, length,
}
use hpx_eigen_s1_foundation.Fields.Graph.{has, has_cases}
use hpx_eigen_s1_foundation.Fields.Search.{Verdict, no_cycle, cycle_found, out_of_fuel, by_verdict}

-- `{ id, parentOptionId }`, an entry of the map `parents`
pub record OptionLink : Type 0 where
  pub id : ℕ
  pub parent : Option ℕ

-- `parents.get(cursor) ?? null`
unfoldable pub parent_of : List OptionLink → ℕ → Option ℕ
parent_of [] cursor = none
parent_of (l ∷ ls) cursor = if l.id == cursor then l.parent else parent_of ls cursor

-- `optionId && cursor === optionId`
abbrev pub is_option : Option ℕ → ℕ → Bool
is_option none cursor = false
is_option (some o) cursor = cursor == o

-- The `while` loop, one round for each unit of fuel.
unfoldable pub walk_up : List OptionLink → Option ℕ → ℕ → List ℕ → Option ℕ → Verdict
unfolding parent_of
walk_up links option fuel seen none = no_cycle
walk_up links option zero seen (some cursor) = out_of_fuel
walk_up links option (suc fuel) seen (some cursor) = elim (is_option option cursor) [
  | true ↦ cycle_found
  | false ↦ elim (has cursor seen) [
    | true ↦ cycle_found
    | false ↦ walk_up links option fuel (cursor ∷ seen) (parent_of links cursor)
  ]
]

unfoldable pub assert_no_option_cycle : Option ℕ → Option ℕ → List OptionLink → Verdict
unfolding walk_up
assert_no_option_cycle option none links = no_cycle
assert_no_option_cycle option (some parent) links =
    if is_option option parent
    then cycle_found
    else walk_up links option (suc (length links)) [] (some parent)

-- The options above an option, itself among them.
pub data Above (links : List OptionLink) : ℕ → ℕ → Type 0 where
  self : {u : ℕ} → Above links u u
  up : {u v w : ℕ} → parent_of links u ≡ some v → Above links v w → Above links u w

-- No option stands above itself.
unfoldable pub IsForest : List OptionLink → Type 0
IsForest links = (u v : ℕ) → parent_of links u ≡ some v → ¬ Above links v u

pub Above-trans :
    {links : List OptionLink} {u v w : ℕ} → Above links u v → Above links v w → Above links u w
Above-trans self q = q
Above-trans (up e p) q = up e (Above-trans p q)

Above-from : {links : List OptionLink} {u v w : ℕ} → u ≡ v → Above links u w → Above links v w
Above-from {links} {w = w} e p = subst (λ x. Above links x w) e p

Above-to : {links : List OptionLink} {u v w : ℕ} → v ≡ w → Above links u v → Above links u w
Above-to {links} {u} e p = subst (Above links u) e p

-- The links that the walk has not passed.
unpassed : List OptionLink → List ℕ → ℕ
unpassed [] seen = 0
unpassed (l ∷ ls) seen = let rest = unpassed ls seen in if has l.id seen then rest else suc rest

unpassed_more :
    (ls : List OptionLink) (seen : List ℕ) (c : ℕ) → unpassed ls (c ∷ seen) ≤ unpassed ls seen
unfolding unpassed has
unpassed_more [] seen c = omega arith
unpassed_more (l ∷ ls) seen c = ground (arith, unpassed_more ls seen c)

unpassed_new :
    (ls : List OptionLink) (seen : List ℕ) (c : ℕ) {p : ℕ}
    → has c seen ≡ false
    → parent_of ls c ≡ some p
    → unpassed ls (c ∷ seen) < unpassed ls seen
unfolding unpassed has parent_of
unpassed_new [] seen c h e = absurd (ground arith)
unpassed_new (l ∷ ls) seen c {p} h e =
    ground (arith, unpassed_more ls seen c, unpassed_new ls seen c {p = p} h)

unpassed_blank : (ls : List OptionLink) → unpassed ls [] ≡ length ls
unfolding unpassed has
unpassed_blank [] = refl
unpassed_blank (l ∷ ls) = ground (arith, unpassed_blank ls)

walk_up-ends :
    (links : List OptionLink) (option : Option ℕ) (fuel : ℕ) (seen : List ℕ) (at : Option ℕ)
    → unpassed links seen < fuel
    → walk_up links option fuel seen at ≢ out_of_fuel
unfolding walk_up
walk_up-ends links option fuel seen none h e = ground arith
walk_up-ends links option zero seen (some c) h e = omega arith
walk_up-ends links option (suc fuel) seen (some c) h e = elim (Bool-cases (is_option option c)) [
  | inl stop ↦ ground arith
  | inr on ↦ elim (Bool-cases (has c seen)) [
    | inl old ↦ ground arith
    | inr new ↦ elim (Option-cases (parent_of links c)) [
      | inl top ↦ ground arith
      | inr (p, next) ↦
          walk_up-ends links option fuel (c ∷ seen) (parent_of links c)
            (omega (arith, unpassed_new links seen c new next)) (ground arith)
    ]
  ]
]

walk_up-no_cycle :
    (links : List OptionLink) (o fuel : ℕ) (seen : List ℕ) {c : ℕ}
    → walk_up links (some o) fuel seen (some c) ≡ no_cycle
    → ¬ Above links c o
unfolding walk_up
walk_up-no_cycle links o zero seen h p = ground arith
walk_up-no_cycle links o (suc fuel) seen h self = ground (arith)
walk_up-no_cycle links o (suc fuel) seen {c} h (up {v = v} e p) =
    walk_up-no_cycle links o fuel (c ∷ seen) {c = v} (ground arith) p

-- In a forest the walk only stops early at the option itself.
walk_up-cycle_found :
    (links : List OptionLink) (o fuel : ℕ) (seen : List ℕ) (c : ℕ)
    → IsForest links
    → ((x : ℕ) → has x seen ≡ true → (y : ℕ) × (parent_of links x ≡ some y) × Above links y c)
    → walk_up links (some o) fuel seen (some c) ≡ cycle_found
    → Above links c o
unfolding walk_up IsForest
walk_up-cycle_found links o zero seen c forest below h = absurd (ground arith)
walk_up-cycle_found links o (suc fuel) seen c forest below h = elim (Bool-cases (c == o)) [
  | inl stop ↦ Above-to (ground arith) self
  | inr on ↦ elim (Bool-cases (has c seen)) [
    | inl old ↦ let (y, e, p) = below c old in absurd (forest c y e p)
    | inr new ↦ elim (Option-cases (parent_of links c)) [
      | inl top ↦ absurd (ground arith)
      | inr (v, next) ↦ up next (
          walk_up-cycle_found links o fuel (c ∷ seen) v forest
            (λ x m. elim (has_cases x c seen m) [
              | inl here ↦ (v, subst (λ z. parent_of links z ≡ some v) here next, self)
              | inr there ↦ let (y, e, p) = below x there in (y, e, Above-trans p (up next self))
            ])
            (ground arith))
    ]
  ]
]

-- The walk up the parents ends within one round more than the field has options.
pub assert_no_option_cycle-ends :
    (option parent : Option ℕ) (links : List OptionLink)
    → assert_no_option_cycle option parent links ≢ out_of_fuel
unfolding assert_no_option_cycle
assert_no_option_cycle-ends option none links e = ground arith
assert_no_option_cycle-ends option (some p) links e = elim (Bool-cases (is_option option p)) [
  | inl itself ↦ ground arith
  | inr apart ↦
      walk_up-ends links option (suc (length links)) [] (some p)
        (omega (arith, unpassed_blank links)) (ground arith)
]

-- In a forest of options, a new parent is accepted exactly if the option is not above it.
pub assert_no_option_cycle_iff :
    (o p : ℕ) (links : List OptionLink)
    → IsForest links
    → (assert_no_option_cycle (some o) (some p) links ≡ no_cycle) ↔ (¬ Above links p o)
unfolding assert_no_option_cycle
assert_no_option_cycle_iff o p links forest = elim (Bool-cases (p == o)) [
  | inl itself ↦ (λ h. ground arith, λ free. absurd (free (Above-to (ground arith) self)))
  | inr apart ↦ (
    λ h. walk_up-no_cycle links o (suc (length links)) [] (ground arith),
    λ free. by_verdict _ (assert_no_option_cycle-ends (some o) (some p) links) (λ found. free (
        walk_up-cycle_found links o (suc (length links)) [] p forest
          (λ x m. unfold has in absurd (ground arith)) (ground arith))),
  )
]

-- `links` after the option `o` got the parent `p`.
unfoldable pub set_parent : ℕ → Option ℕ → List OptionLink → List OptionLink
set_parent o p [] = []
set_parent o p (l ∷ ls) =
    (if l.id == o then record { id = l.id; parent = p } else l) ∷ set_parent o p ls

pub parent_of-set_parent :
    (o : ℕ) (p : Option ℕ) (ls : List OptionLink) {u v : ℕ}
    → parent_of (set_parent o p ls) u ≡ some v
    → (parent_of ls u ≡ some v) ⊎ (u ≡ o) × (p ≡ some v)
unfolding parent_of set_parent
parent_of-set_parent o p [] e = absurd (ground arith)
parent_of-set_parent o p (l ∷ ls) {u} {v} e =
    ground (arith, parent_of-set_parent o p ls {u = u} {v = v})

some_injective : {a b : ℕ} → some a ≡ some b → a ≡ b
some_injective e = ground arith

module _ (o p : ℕ) (links : List OptionLink) (free : ¬ Above links p o) where
  -- A chain of parents after the edit is one before it, or passes the new link once.
  split-Above :
      {u w : ℕ}
      → Above (set_parent o (some p) links) u w
      → Above links u w ⊎ (Above links u o × Above links p w)
  split-Above self = inl self
  split-Above {w = w} (up {v = v} e q) = elim (parent_of-set_parent o (some p) links e) [
    | inr (at_option, set) ↦ elim (split-Above q) [
      | inl rest ↦ inr (Above-to at_option self, Above-from (some_injective (sym set)) rest)
      | inr (early, rest) ↦ absurd (free (Above-from (some_injective (sym set)) early))
    ]
    | inl old ↦ elim (split-Above q) [
      | inl before ↦ inl (up old before)
      | inr (early, rest) ↦ inr (up old early, rest)
    ]
  ]

  set_parent-IsForest : IsForest links → IsForest (set_parent o (some p) links)
  unfolding IsForest
  set_parent-IsForest forest u v e q = elim (parent_of-set_parent o (some p) links e) [
    | inl old ↦ elim (split-Above q) [
      | inl before ↦ forest u v old before
      | inr (early, rest) ↦ free (Above-trans rest (up old early))
    ]
    | inr (at_option, set) ↦ elim (split-Above q) [
      | inl before ↦ free (Above-to at_option (Above-from (some_injective (sym set)) before))
      | inr (early, rest) ↦ free (Above-from (some_injective (sym set)) early)
    ]
  ]

-- A parent that the check accepts keeps the options a forest.
pub assert_no_option_cycle-IsForest :
    (o p : ℕ) (links : List OptionLink)
    → IsForest links
    → assert_no_option_cycle (some o) (some p) links ≡ no_cycle
    → IsForest (set_parent o (some p) links)
assert_no_option_cycle-IsForest o p links forest h =
    set_parent-IsForest o p links ((assert_no_option_cycle_iff o p links forest).0 h) forest
