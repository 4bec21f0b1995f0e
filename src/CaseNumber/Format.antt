-- ===== src/CaseNumber/Format.antt =====
-- What the case number functions promise about the format (src/domain/caseNumber.ts).
use hpx_eigen_s1_foundation.Common.{
  ℕ, ◌≡◌, refl, sym, ◌∙◌, ap, Bool, true, List, [], ◌∷◌, ◌++◌, Text, codes, take, drop, keep,
  some_of, every, arith, ◌==◌, to_upper, map,
}
use hpx_eigen_s1_foundation.CaseNumber.{
  alphabet, in_alphabet, literal, matches, four, case_number_regex, is_valid_case_number,
  is_alphanumeric, strip_prefix, join_segments, normalise_case_number,
}

-- What holds of every listed unit holds of a unit that is in the list.
every_of_some_of :
    (p : ℕ → Bool) (xs : Text) (c : ℕ)
    → every p xs ≡ true
    → some_of (λ a. a == c) xs ≡ true
    → p c ≡ true
every_of_some_of p [] c h k = ground arith
every_of_some_of p (x ∷ xs) c h k = ground (arith, every_of_some_of p xs c)

alphabet-is_alphanumeric : (c : ℕ) → in_alphabet c ≡ true → is_alphanumeric c ≡ true
unfolding in_alphabet
alphabet-is_alphanumeric c h = every_of_some_of is_alphanumeric alphabet c refl h

matches-append :
    (ps qs : List (ℕ → Bool)) (s : Text)
    → matches (ps ++ qs) s ≡ true
    → (s1 s2 : Text) × (s ≡ s1 ++ s2) × (matches ps s1 ≡ true) × (matches qs s2 ≡ true)
unfolding matches
matches-append [] qs s h = ([], s, refl, refl, h)
matches-append (p ∷ ps) qs [] h = ground arith
matches-append (p ∷ ps) qs (c ∷ s) h =
    let (s1, s2, e, h1, h2) = matches-append ps qs s (ground arith) in
    (c ∷ s1, s2, ap (λ t. c ∷ t) e, ground arith, h2)

matches-literals :
    (lit : Text) (qs : List (ℕ → Bool)) (s : Text)
    → matches (map literal lit ++ qs) s ≡ true
    → (t : Text) × (s ≡ lit ++ t) × (matches qs t ≡ true)
unfolding matches
matches-literals [] qs s h = (s, refl, h)
matches-literals (a ∷ lit) qs [] h = ground arith
matches-literals (a ∷ lit) qs (c ∷ s) h =
    let (t, e, k) = matches-literals lit qs s (ground arith) in
    let same : c ≡ a = ground arith in (t, rw (same, e), k)

-- Four letters or digits.
abbrev IsSegment : Text → Type 0
IsSegment (a ∷ b ∷ c ∷ d ∷ []) =
    (is_alphanumeric a ≡ true)
    × (is_alphanumeric b ≡ true)
    × (is_alphanumeric c ≡ true)
    × (is_alphanumeric d ≡ true)
IsSegment _ = ⊥

matches-four : (s : Text) → matches four s ≡ true → IsSegment s
unfolding matches
matches-four (a ∷ b ∷ c ∷ d ∷ []) h = (
  alphabet-is_alphanumeric a (ground arith),
  alphabet-is_alphanumeric b (ground arith),
  alphabet-is_alphanumeric c (ground arith),
  alphabet-is_alphanumeric d (ground arith),
)
matches-four [] h = ground arith
matches-four (a ∷ []) h = ground arith
matches-four (a ∷ b ∷ []) h = ground arith
matches-four (a ∷ b ∷ c ∷ []) h = ground arith
matches-four (a ∷ b ∷ c ∷ d ∷ e ∷ s) h = ground arith

-- The canonical form of a valid number, in its two segments.
canonical_parts :
    (u : Text)
    → matches case_number_regex u ≡ true
    → (s1 s2 : Text) × (u ≡ codes "HPX-" ++ (s1 ++ (b'-' ∷ s2))) × IsSegment s1 × IsSegment s2
canonical_parts u h =
    let (t, e, k) = matches-literals (codes "HPX-") _ u h in
    let (s1, r, e1, h1, k1) = matches-append four _ t k in
    let (s2, e2, h2) = matches-literals (codes "-") four r k1 in
    (s1, s2, rw (e, e1, e2), matches-four s1 h1, matches-four s2 h2)

normalise_parts :
    (s1 s2 : Text)
    → IsSegment s1
    → IsSegment s2
    → (t : Text)
    → keep is_alphanumeric t ≡ keep is_alphanumeric (codes "HPX-" ++ (s1 ++ (b'-' ∷ s2)))
    → join_segments
        (take 4 (strip_prefix (keep is_alphanumeric t)))
        (take 4 (drop 4 (strip_prefix (keep is_alphanumeric t))))
      ≡ codes "HPX-" ++ (s1 ++ (b'-' ∷ s2))
unfolding join_segments strip_prefix
normalise_parts (a ∷ b ∷ c ∷ d ∷ []) (e ∷ f ∷ g ∷ h ∷ []) (pa, pb, pc, pd) (pe, pf, pg, ph) t same =
    rw (same, pa, pb, pc, pd, pe, pf, pg, ph)
normalise_parts [] s2 p _ t same = elim p [ ]
normalise_parts (a ∷ []) s2 p _ t same = elim p [ ]
normalise_parts (a ∷ b ∷ []) s2 p _ t same = elim p [ ]
normalise_parts (a ∷ b ∷ c ∷ []) s2 p _ t same = elim p [ ]
normalise_parts (a ∷ b ∷ c ∷ d ∷ i ∷ s) s2 p _ t same = elim p [ ]
normalise_parts (a ∷ b ∷ c ∷ d ∷ []) [] _ q t same = elim q [ ]
normalise_parts (a ∷ b ∷ c ∷ d ∷ []) (e ∷ []) _ q t same = elim q [ ]
normalise_parts (a ∷ b ∷ c ∷ d ∷ []) (e ∷ f ∷ []) _ q t same = elim q [ ]
normalise_parts (a ∷ b ∷ c ∷ d ∷ []) (e ∷ f ∷ g ∷ []) _ q t same = elim q [ ]
normalise_parts (a ∷ b ∷ c ∷ d ∷ []) (e ∷ f ∷ g ∷ h ∷ i ∷ s) _ q t same = elim q [ ]

-- Whatever the letter case, the dashes and the other separators in which a valid case number is
-- typed, normalising it gives the number in upper case with its dashes.
pub normalise_case_number_canonical :
    (value raw : Text)
    → is_valid_case_number value ≡ true
    → keep is_alphanumeric (to_upper raw) ≡ keep is_alphanumeric (to_upper value)
    → normalise_case_number raw ≡ to_upper value
unfolding is_valid_case_number normalise_case_number
normalise_case_number_canonical value raw valid same =
    let (s1, s2, e, h1, h2) = canonical_parts (to_upper value) valid in
    normalise_parts s1 s2 h1 h2 (to_upper raw) (same ∙ ap (keep is_alphanumeric) e) ∙ sym e
