-- ===== src/Fields/Search.antt =====
-- The search for a cycle: `assertNoRuleCycle` (src/services/case-field.validation.ts).
use hpx_eigen_s1_foundation.Common.{
  ℕ, zero, suc, ◌+◌, ◌≤◌, ◌≡◌, ◌≢◌, ◌↔◌, inl, inr, refl, ap, true, false, ◌||◌, List, [], ◌∷◌,
  arith, ◌==◌, if◌then◌else◌, Bool-cases, ◌++◌, length,
}
use hpx_eigen_s1_foundation.Fields.Graph.{
  Edge, has, targets, Walk, here, step, Walk-to, Walk-trans, IsAcyclic, snoc-IsAcyclic,
}

-- How the search ends; the source has no third case.
pub data Verdict : Type 0 where
  no_cycle cycle_found out_of_fuel : Verdict

-- `for (const m of ms) stack.push(m)`; the top of the stack is the head of the list.
unfoldable pub push_all : List ℕ → List ℕ → List ℕ
push_all [] stack = stack
push_all (m ∷ ms) stack = push_all ms (m ∷ stack)

-- The `while` loop, one round for each unit of fuel.
unfoldable pub search : List Edge → ℕ → ℕ → List ℕ → List ℕ → Verdict
search es from fuel seen [] = no_cycle
search es from zero seen (n ∷ stack) = out_of_fuel
search es from (suc fuel) seen (n ∷ stack) = elim (n == from) [
  | true ↦ cycle_found
  | false ↦ elim (has n seen) [
    | true ↦ search es from fuel seen stack
    | false ↦ search es from fuel (n ∷ seen) (push_all (targets es n) stack)
  ]
]

-- `assertNoRuleCycle(edges, newEdge)`: it throws exactly on `cycle_found`.
unfoldable pub assert_no_rule_cycle : List Edge → Edge → Verdict
unfolding search
assert_no_rule_cycle edges new =
    let es = edges ++ new ∷ [] in search es new.from (suc (length es)) [] (new.to ∷ [])

pub by_verdict : (v : Verdict) → v ≢ out_of_fuel → v ≢ cycle_found → v ≡ no_cycle
by_verdict no_cycle a b = refl
by_verdict cycle_found a b = absurd (b refl)
by_verdict out_of_fuel a b = absurd (a refl)

has_singleton : (u x : ℕ) → has x (u ∷ []) ≡ true → u ≡ x
unfolding has
has_singleton u x h = ground arith

has-push_all : (ms stack : List ℕ) (x : ℕ) → has x (push_all ms stack) ≡ (has x ms || has x stack)
unfolding has push_all
has-push_all [] stack x = refl
has-push_all (m ∷ ms) stack x = ground (arith, has-push_all ms (m ∷ stack) x)

length-push_all : (ms stack : List ℕ) → length (push_all ms stack) ≡ length ms + length stack
unfolding push_all
length-push_all [] stack = omega arith
length-push_all (m ∷ ms) stack = omega (arith, length-push_all ms (m ∷ stack))

-- The edges whose start was not seen: each of them is pushed once at most.
unpushed : List Edge → List ℕ → ℕ
unpushed [] seen = 0
unpushed (e ∷ es) seen = let rest = unpushed es seen in if has e.from seen then rest else suc rest

unpushed_new :
    (es : List Edge) (seen : List ℕ) (n : ℕ)
    → has n seen ≡ false
    → length (targets es n) + unpushed es (n ∷ seen) ≡ unpushed es seen
unfolding unpushed targets has
unpushed_new [] seen n h = refl
unpushed_new (e ∷ es) seen n h = ground (arith, unpushed_new es seen n h)

-- A round pops one field and pushes only edges from a field that it marks as seen, so the measure
-- falls by one.
search_ends :
    (es : List Edge) (from fuel : ℕ) (seen stack : List ℕ)
    → unpushed es seen + length stack ≤ fuel
    → search es from fuel seen stack ≢ out_of_fuel
unfolding search
search_ends es from fuel seen [] h e = ground arith
search_ends es from zero seen (n ∷ stack) h e = omega arith
search_ends es from (suc fuel) seen (n ∷ stack) h e = elim (Bool-cases (n == from)) [
  | inl stop ↦ ground arith
  | inr on ↦ elim (Bool-cases (has n seen)) [
    | inl old ↦ search_ends es from fuel seen stack (omega arith) (ground arith)
    | inr new ↦
        search_ends es from fuel (n ∷ seen) (push_all (targets es n) stack)
          (omega (arith, unpushed_new es seen n new, length-push_all (targets es n) stack))
          (ground arith)
  ]
]

-- A set that no edge leaves and that misses the start of the new edge holds no walk to it.
trapped :
    (es : List Edge) (from : ℕ) (seen : List ℕ)
    → ((u v : ℕ) → has u seen ≡ true → has v (targets es u) ≡ true → has v seen ≡ true)
    → has from seen ≡ false
    → {u w : ℕ} → has u seen ≡ true
    → Walk es u w
    → w ≢ from
trapped es from seen closed apart {u} inside here same = ground (arith, ap (λ x. has x seen) same)
trapped es from seen closed apart {u} inside (step {v = v} e p) same =
    trapped es from seen closed apart (closed u v inside e) p same

-- The fields seen or waiting on the stack do not lead to `from` when the search finds no cycle.
search-no_cycle :
    (es : List Edge) (from fuel : ℕ) (seen stack : List ℕ)
    → ((u v : ℕ)
        → has u seen ≡ true
        → has v (targets es u) ≡ true
        → (has v seen || has v stack) ≡ true)
    → has from seen ≡ false
    → search es from fuel seen stack ≡ no_cycle
    → (u : ℕ) → (has u seen || has u stack) ≡ true
    → ¬ Walk es u from
unfolding search
search-no_cycle es from fuel seen [] closed apart h u inside p =
    trapped es from seen (λ x y m e. unfold has in ground (arith, closed x y m e)) apart {u = u}
      (unfold has in ground arith) p refl
search-no_cycle es from zero seen (n ∷ stack) closed apart h u inside p = ground arith
search-no_cycle es from (suc fuel) seen (n ∷ stack) closed apart h u inside p =
    elim (Bool-cases (n == from)) [
      | inl stop ↦ ground arith
      | inr on ↦ elim (Bool-cases (has n seen)) [
        | inl old ↦
            search-no_cycle es from fuel seen stack
              (λ x y m e. unfold has in ground (arith, closed x y m e)) apart (ground arith) u
              (unfold has in ground arith) p
        | inr new ↦
            search-no_cycle es from fuel (n ∷ seen) (push_all (targets es n) stack)
              (λ x y m e.
                unfold has in ground (arith, closed x y, has-push_all (targets es n) stack y))
              (unfold has in ground arith) (ground arith) u
              (unfold has in ground (arith, has-push_all (targets es n) stack u)) p
      ]
    ]

-- A cycle is only found along a walk.
search-cycle_found :
    (es : List Edge) (to from fuel : ℕ) (seen stack : List ℕ)
    → ((u : ℕ) → has u stack ≡ true → Walk es to u)
    → search es from fuel seen stack ≡ cycle_found
    → Walk es to from
unfolding search
search-cycle_found es to from fuel seen [] led h = absurd (ground arith)
search-cycle_found es to from zero seen (n ∷ stack) led h = absurd (ground arith)
search-cycle_found es to from (suc fuel) seen (n ∷ stack) led h = elim (Bool-cases (n == from)) [
  | inl stop ↦ Walk-to (ground arith) (led n (unfold has in ground arith))
  | inr on ↦ elim (Bool-cases (has n seen)) [
    | inl old ↦
        search-cycle_found es to from fuel seen stack (λ x m. led x (unfold has in ground arith))
          (ground arith)
    | inr new ↦
        search-cycle_found es to from fuel (n ∷ seen) (push_all (targets es n) stack)
          (λ x m. elim (Bool-cases (has x stack)) [
            | inl waiting ↦ led x (unfold has in ground arith)
            | inr pushed ↦
                Walk-trans (led n (unfold has in ground arith))
                  (step (ground (arith, has-push_all (targets es n) stack x)) here)
          ])
          (ground arith)
  ]
]

unpushed_blank : (es : List Edge) → unpushed es [] ≡ length es
unfolding unpushed has
unpushed_blank [] = refl
unpushed_blank (e ∷ es) = ap suc (unpushed_blank es)

-- The search for a cycle ends within one round more than there are edges, the new one counted.
pub assert_no_rule_cycle-ends :
    (edges : List Edge) (new : Edge) → assert_no_rule_cycle edges new ≢ out_of_fuel
unfolding assert_no_rule_cycle
assert_no_rule_cycle-ends edges new =
    let es = edges ++ new ∷ [] in
    search_ends es new.from (suc (length es)) [] (new.to ∷ []) (omega (arith, unpushed_blank es))

-- A rule is refused exactly if the rules, the new one among them, lead from its target field back
-- to its condition field.
pub assert_no_rule_cycle_iff :
    (edges : List Edge) (new : Edge)
    → (assert_no_rule_cycle edges new ≡ no_cycle) ↔ (¬ Walk (edges ++ new ∷ []) new.to new.from)
unfolding assert_no_rule_cycle
assert_no_rule_cycle_iff edges new =
    let es = edges ++ new ∷ [] in
    let fuel = suc (length es) in
    (
      λ h.
          search-no_cycle es new.from fuel [] (new.to ∷ []) (λ u v m e. unfold has in ground arith)
            (unfold has in refl) h new.to (unfold has in ground arith),
      λ free. by_verdict _ (assert_no_rule_cycle-ends edges new) (λ found. free (
          search-cycle_found es new.to new.from fuel [] (new.to ∷ [])
            (λ u m. Walk-to (has_singleton new.to u m) here) found)),
    )

-- Checked one after the other, rules whose graph has no cycle never get one.
pub assert_no_rule_cycle-IsAcyclic :
    (edges : List Edge) (new : Edge)
    → IsAcyclic edges
    → assert_no_rule_cycle edges new ≡ no_cycle
    → IsAcyclic (edges ++ new ∷ [])
assert_no_rule_cycle-IsAcyclic edges new acyclic h =
    snoc-IsAcyclic edges new acyclic ((assert_no_rule_cycle_iff edges new).0 h)
