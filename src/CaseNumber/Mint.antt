-- ===== src/CaseNumber/Mint.antt =====
-- Minting: the generated numbers, and the loop of `mintCaseNumber` that retries
-- (src/services/handoff.service.ts).
use hpx_eigen_s1_foundation.Common.{
  ℕ, zero, suc, ◌+◌, ◌*◌, ◌≤◌, ◌<◌, ◌↔◌, ◌≡◌, refl, sym, ◌∙◌, ap, Bool, true, false, ◌&&◌, Option,
  none, some, [], ◌∷◌, Text, upper, arith, ◌==◌, ==_iff, if◌then◌else◌,
}
use hpx_eigen_s1_foundation.CaseNumber.{
  alphabet, in_alphabet, matches, is_valid_case_number, letter_at, letter, generate_case_number,
}

abbrev pub max_retries : ℕ
max_retries = 5

-- One candidate per round, from eight draws; `taken` is the look-up of the unique column.
unfoldable pub mint_from : (Text → Bool) → (ℕ → ℕ) → ℕ → ℕ → Option Text
mint_from taken draw zero k = none
mint_from taken draw (suc tries) k =
    let candidate = generate_case_number draw k in
    let rest = mint_from taken draw tries (k + 8) in
    if taken candidate then rest else some candidate

unfoldable pub mint_case_number : (Text → Bool) → (ℕ → ℕ) → Option Text
unfolding mint_from
mint_case_number taken draw = mint_from taken draw max_retries 0

-- A position in the alphabet, found again.
index_of : Text → ℕ → ℕ
index_of [] c = 0
index_of (x ∷ s) c = if x == c then 0 else suc (index_of s c)

-- Does every index of the alphabet, counted up from `start`, pass a test?
passes_from : (ℕ → Bool) → ℕ → ℕ → Bool
passes_from test start zero = true
passes_from test start (suc more) = test start && passes_from test (suc start) more

passes_from-each :
    (test : ℕ → Bool) (start more : ℕ) {i : ℕ}
    → passes_from test start more ≡ true
    → start ≤ i
    → i < start + more
    → test i ≡ true
unfolding passes_from
passes_from-each test start zero all low high = absurd (omega arith)
passes_from-each test start (suc more) {i} all low high =
    ground (arith, passes_from-each test (suc start) more {i = i})

letter-in_alphabet : (i : ℕ) → i < 32 → in_alphabet (upper (letter i)) ≡ true
letter-in_alphabet i h =
    passes_from-each (λ j. in_alphabet (upper (letter j))) 0 32
      (unfold passes_from letter_at in_alphabet in refl) (omega arith) (omega arith)

index_of-letter : (i : ℕ) → i < 32 → index_of alphabet (letter i) ≡ i
index_of-letter i h = (==_iff _ i).0 (
    passes_from-each (λ j. index_of alphabet (letter j) == j) 0 32
      (unfold passes_from index_of letter_at in refl) (omega arith) (omega arith))

letter_injective : (i j : ℕ) → i < 32 → j < 32 → letter i ≡ letter j → i ≡ j
letter_injective i j hi hj e =
    sym (index_of-letter i hi) ∙ ap (index_of alphabet) e ∙ index_of-letter j hj

-- With draws below 32, as `crypto.randomInt(0, 32)` gives them, the generated number is valid.
pub generate_case_number-valid :
    (draw : ℕ → ℕ) (k : ℕ)
    → ((i : ℕ) → draw i < 32)
    → is_valid_case_number (generate_case_number draw k) ≡ true
unfolding is_valid_case_number generate_case_number matches
generate_case_number-valid draw k bound = rw (
  letter-in_alphabet _ (bound k),
  letter-in_alphabet _ (bound (k + 1)),
  letter-in_alphabet _ (bound (k + 2)),
  letter-in_alphabet _ (bound (k + 3)),
  letter-in_alphabet _ (bound (k + 4)),
  letter-in_alphabet _ (bound (k + 4 + 1)),
  letter-in_alphabet _ (bound (k + 4 + 2)),
  letter-in_alphabet _ (bound (k + 4 + 3)),
)

-- With draws below 32, a minted number is not taken, and it is valid.
pub mint_from-fresh :
    (taken : Text → Bool) (draw : ℕ → ℕ) (tries k : ℕ) {n : Text}
    → ((i : ℕ) → draw i < 32)
    → mint_from taken draw tries k ≡ some n
    → (taken n ≡ false) × (is_valid_case_number n ≡ true)
unfolding mint_from
mint_from-fresh taken draw zero k bound h = ground arith
mint_from-fresh taken draw (suc tries) k {n} bound h = ground (
  arith,
  mint_from-fresh taken draw tries (k + 8) {n = n} bound,
  generate_case_number-valid draw k bound,
)

mint_from-none_all_taken :
    (taken : Text → Bool) (draw : ℕ → ℕ) (tries k : ℕ)
    → mint_from taken draw tries k ≡ none
    → (t : ℕ) → t < tries
    → taken (generate_case_number draw (k + 8 * t)) ≡ true
unfolding mint_from
mint_from-none_all_taken taken draw zero k h t lt = absurd (omega arith)
mint_from-none_all_taken taken draw (suc tries) k h zero lt =
    let same : k + 8 * zero ≡ k = omega arith in rw same (ground arith)
mint_from-none_all_taken taken draw (suc tries) k h (suc t) lt =
    let same : k + 8 * suc t ≡ k + 8 + 8 * t = omega arith in
    rw same (mint_from-none_all_taken taken draw tries (k + 8) (ground arith) t (omega arith))

mint_from-all_taken_none :
    (taken : Text → Bool) (draw : ℕ → ℕ) (tries k : ℕ)
    → ((t : ℕ) → t < tries → taken (generate_case_number draw (k + 8 * t)) ≡ true)
    → mint_from taken draw tries k ≡ none
unfolding mint_from
mint_from-all_taken_none taken draw zero k h = refl
mint_from-all_taken_none taken draw (suc tries) k h =
    let here : k + 8 * 0 ≡ k = omega arith in
    let there : (t : ℕ) → k + 8 + 8 * t ≡ k + 8 * suc t = λ t. omega arith in
    let at_zero : taken (generate_case_number draw (k + 8 * 0)) ≡ true = h 0 (omega arith) in
    let first : taken (generate_case_number draw k) ≡ true = rw here at at_zero in
    rw first (
      mint_from-all_taken_none taken draw tries (k + 8)
        (λ t lt. rw (there t) (h (suc t) (omega arith))))

-- Minting gives up exactly when each of its five candidates is taken.
pub mint_case_number-none_iff :
    (taken : Text → Bool) (draw : ℕ → ℕ)
    → (mint_case_number taken draw ≡ none)
      ↔ ((t : ℕ) → t < max_retries → taken (generate_case_number draw (0 + 8 * t)) ≡ true)
unfolding mint_case_number
mint_case_number-none_iff taken draw = (
  mint_from-none_all_taken taken draw max_retries 0,
  mint_from-all_taken_none taken draw max_retries 0,
)

abbrev pub SameDraws : (ℕ → ℕ) → (ℕ → ℕ) → ℕ → Type 0
SameDraws draw draw' k =
    (draw k ≡ draw' k)
    × (draw (k + 1) ≡ draw' (k + 1))
    × (draw (k + 2) ≡ draw' (k + 2))
    × (draw (k + 3) ≡ draw' (k + 3))

-- With draws below 32, equal case numbers come from equal draws: none of the eight letters is
-- lost.
pub generate_case_number-injective :
    (draw draw' : ℕ → ℕ) (k : ℕ)
    → ((i : ℕ) → draw i < 32)
    → ((i : ℕ) → draw' i < 32)
    → generate_case_number draw k ≡ generate_case_number draw' k
    → SameDraws draw draw' k × SameDraws draw draw' (k + 4)
unfolding generate_case_number
generate_case_number-injective draw draw' k bound bound' e =
    let inj = λ (i : ℕ) (same : letter (draw i) ≡ letter (draw' i)).
      letter_injective (draw i) (draw' i) (bound i) (bound' i) same in
    (
      (inj k (cc), inj (k + 1) (cc), inj (k + 2) (cc), inj (k + 3) (cc)),
      (inj (k + 4) (cc), inj (k + 4 + 1) (cc), inj (k + 4 + 2) (cc), inj (k + 4 + 3) (cc)),
    )
