-- ===== src/Fields/Graph.antt =====
-- The graph of rules, an edge from the condition field to the target field, and its walks
-- (src/services/case-field.validation.ts).
use hpx_eigen_s1_foundation.Common.{
  ℕ, ◌≡◌, ◌⊎◌, inl, inr, Bool, true, false, ◌&&◌, ◌||◌, List, [], ◌∷◌, arith, ◌==◌, if◌then◌else◌,
  ◌++◌, sym,
}
use mathlib.Core.Path.{subst}

-- `{ from: string; to: string }`
pub record Edge : Type 0 where
  pub from : ℕ
  pub to : ℕ

-- `xs.has(x)`
unfoldable pub has : ℕ → List ℕ → Bool
has x [] = false
has x (y ∷ ys) = y == x || has x ys

pub has_cases : (x y : ℕ) (ys : List ℕ) → has x (y ∷ ys) ≡ true → (y ≡ x) ⊎ (has x ys ≡ true)
unfolding has
has_cases x y ys h = ground arith

-- `adj.get(n) ?? []`, once every edge was added
unfoldable pub targets : List Edge → ℕ → List ℕ
targets [] n = []
targets (e ∷ es) n = let rest = targets es n in if e.from == n then e.to ∷ rest else rest

-- The fields that a chain of edges leads to.
pub data Walk (es : List Edge) : ℕ → ℕ → Type 0 where
  here : {u : ℕ} → Walk es u u
  step : {u v w : ℕ} → has v (targets es u) ≡ true → Walk es v w → Walk es u w

-- No field leads back to itself.
unfoldable pub IsAcyclic : List Edge → Type 0
IsAcyclic es = (u v : ℕ) → has v (targets es u) ≡ true → ¬ Walk es v u

pub Walk-trans : {es : List Edge} {u v w : ℕ} → Walk es u v → Walk es v w → Walk es u w
Walk-trans here q = q
Walk-trans (step e p) q = step e (Walk-trans p q)

pub has-targets_snoc :
    (es : List Edge) (new : Edge) (u v : ℕ)
    → has v (targets (es ++ new ∷ []) u) ≡ (has v (targets es u) || (new.from == u && new.to == v))
unfolding has targets
has-targets_snoc [] new u v = ground arith
has-targets_snoc (e ∷ es) new u v = ground (arith, has-targets_snoc es new u v)

pub Walk-to : {es : List Edge} {u v w : ℕ} → v ≡ w → Walk es u v → Walk es u w
Walk-to {es} {u} e p = subst (Walk es u) e p

Walk-from : {es : List Edge} {u v w : ℕ} → u ≡ v → Walk es u w → Walk es v w
Walk-from {es} {w = w} e p = subst (λ x. Walk es x w) e p

module _ (es : List Edge) (new : Edge) where
  abbrev grown : List Edge
  grown = es ++ new ∷ []

  new_edge :
      (u v : ℕ)
      → has v (targets grown u) ≡ true
      → (has v (targets es u) ≡ true) ⊎ (new.from ≡ u) × (new.to ≡ v)
  new_edge u v h = ground (arith, has-targets_snoc es new u v)

  -- A walk in the larger graph stays in the smaller one, or passes the new edge.
  split-Walk :
      {u w : ℕ} → Walk grown u w → Walk es u w ⊎ (Walk grown u new.from × Walk grown new.to w)
  split-Walk here = inl here
  split-Walk {u} (step {v = v} e p) = elim (split-Walk p) [
    | inr (before, after) ↦ inr (step e before, after)
    | inl inside ↦ elim (new_edge u v e) [
      | inl old ↦ inl (step old inside)
      | inr (at_from, at_to) ↦ inr (Walk-from at_from here, Walk-from (sym at_to) p)
    ]
  ]

  -- An edge whose end does not lead back to its start keeps the graph acyclic.
  pub snoc-IsAcyclic : IsAcyclic es → ¬ Walk grown new.to new.from → IsAcyclic grown
  unfolding IsAcyclic
  snoc-IsAcyclic acyclic open_end u v e p = elim (split-Walk p) [
    | inr (before, after) ↦ open_end (Walk-trans after (step e before))
    | inl inside ↦ elim (new_edge u v e) [
      | inl old ↦ acyclic u v old inside
      | inr (at_from, at_to) ↦ open_end (Walk-from (sym at_to) (Walk-to (sym at_from) p))
    ]
  ]
