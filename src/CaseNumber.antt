-- ===== src/CaseNumber.antt =====
-- The public case identifier HPX-XXXX-XXXX (src/domain/caseNumber.ts).
pub mod Format
pub mod Mint
use hpx_eigen_s1_foundation.Common.{
  ℕ, zero, suc, ◌+◌, Bool, true, false, ◌&&◌, ◌||◌, List, [], ◌∷◌, ◌++◌, Text, codes, length, take,
  drop, keep, some_of, leb, ◌==◌, if◌then◌else◌, is_digit, only_digits, last_units, to_upper,
  is_empty, map,
}

abbrev pub alphabet : Text
alphabet = codes "ABCDEFGHJKLMNPQRSTUVWXYZ23456789"

-- `[ABCDEFGHJKLMNPQRSTUVWXYZ23456789]`
unfoldable pub in_alphabet : ℕ → Bool
in_alphabet c = some_of (λ a. a == c) alphabet

abbrev pub literal : ℕ → ℕ → Bool
literal a c = c == a

-- A regular expression that is a sequence of character classes, anchored at both ends.
unfoldable pub matches : List (ℕ → Bool) → Text → Bool
matches [] [] = true
matches [] (c ∷ s) = false
matches (p ∷ ps) [] = false
matches (p ∷ ps) (c ∷ s) = p c && matches ps s

abbrev pub four : List (ℕ → Bool)
four = in_alphabet ∷ in_alphabet ∷ in_alphabet ∷ in_alphabet ∷ []

abbrev pub case_number_regex : List (ℕ → Bool)
case_number_regex = map literal (codes "HPX-") ++ (four ++ (map literal (codes "-") ++ four))

unfoldable pub is_valid_case_number : Text → Bool
unfolding matches in_alphabet
is_valid_case_number value = matches case_number_regex (to_upper value)

-- `[A-Z0-9]`
abbrev pub is_alphanumeric : ℕ → Bool
is_alphanumeric c = (leb b'A' c && leb c b'Z') || is_digit c

-- `stripped.startsWith('HPX') ? stripped.slice(3) : stripped`
unfoldable pub strip_prefix : Text → Text
strip_prefix (h ∷ p ∷ x ∷ body) =
    if h == b'H' && p == b'P' && x == b'X' then body else h ∷ p ∷ x ∷ body
strip_prefix s = s

unfoldable pub join_segments : Text → Text → Text
join_segments seg1 seg2 =
    if is_empty seg1
    then codes "HPX"
    else if is_empty seg2
    then codes "HPX-" ++ seg1
    else codes "HPX-" ++ (seg1 ++ (b'-' ∷ seg2))

unfoldable pub normalise_case_number : Text → Text
unfolding strip_prefix join_segments
normalise_case_number raw =
    let stripped = keep is_alphanumeric (to_upper raw) in
    let body = strip_prefix stripped in join_segments (take 4 body) (take 4 (drop 4 body))

-- `ALPHABET[i]`; the caller's index is below 32.
unfoldable pub letter_at : Text → ℕ → ℕ
letter_at [] i = 0
letter_at (c ∷ s) zero = c
letter_at (c ∷ s) (suc i) = letter_at s i

abbrev pub letter : ℕ → ℕ
letter i = letter_at alphabet i

-- `draw i` is the result of the i-th call of `crypto.randomInt(0, 32)`.
unfoldable pub generate_case_number : (ℕ → ℕ) → ℕ → Text
unfolding letter_at
generate_case_number draw k =
    let seg = λ (n : ℕ).
      letter (draw n)
      ∷ letter (draw (n + 1))
      ∷ letter (draw (n + 2))
      ∷ letter (draw (n + 3))
      ∷ [] in
    codes "HPX-" ++ (seg k ++ (b'-' ∷ seg (k + 4)))

-- The digits of a phone number, and the last four of them.
unfoldable pub normalise_phone : Text → Text
unfolding only_digits
normalise_phone phone = only_digits phone

unfoldable pub phone_last4 : Text → Text
unfolding only_digits last_units
phone_last4 phone = last_units 4 (only_digits phone)
