-- ===== src/Mandate/Rules/Laws.antt =====
-- The stored names of files, and the order of a mandate's states.
use hpx_eigen_s1_foundation.Common.{
  ℕ, zero, suc, ◌<◌, ◌≤◌, ◌≡◌, refl, Bool, true, false, ◌&&◌, List, [], ◌∷◌, Text, arith, length,
  take, map, All, ◌==◌, inl, inr, Bool-cases,
}
use hpx_eigen_s1_foundation.Mandate.Rules.{
  can_transition_mandate, is_reserved, mask_reserved, squeeze_dots, sanitize_file_name,
}
use hpx_eigen_s1_foundation.Store.{
  MandateRequestStatus, pending_upload, uploaded, verified, expired, superseded,
}

-- How far a request has come.
abbrev pub progress : MandateRequestStatus → ℕ
progress pending_upload = 0
progress uploaded = 1
progress expired = 1
progress MandateRequestStatus.rejected = 2
progress verified = 3
progress superseded = 3

-- Every transition of a mandate request raises its progress, a rank in which a verified and a
-- superseded request come last.
pub can_transition_mandate_forward :
    (a b : MandateRequestStatus) → can_transition_mandate a b ≡ true → progress a < progress b
unfolding can_transition_mandate
can_transition_mandate_forward a b h = ground arith

-- No reserved unit, and no two dots in a row.
pub IsSafeAfter : Bool → Text → Type 0
IsSafeAfter after_dot [] = Unit
IsSafeAfter after_dot (c ∷ s) =
    (is_reserved c ≡ false) × ((after_dot && (c == b'.')) ≡ false) × IsSafeAfter (c == b'.') s

underscore_free : is_reserved b'_' ≡ false
unfolding is_reserved
underscore_free = refl

mask_reserved_free : (c : ℕ) → is_reserved (mask_reserved c) ≡ false
unfolding mask_reserved
mask_reserved_free c = elim (Bool-cases (is_reserved c)) [
  | inl reserved ↦ rw reserved underscore_free
  | inr free ↦ rw free free
]

masked_free : (s : Text) → All (λ c. is_reserved c ≡ false) (map mask_reserved s)
masked_free [] = tt
masked_free (c ∷ s) = (mask_reserved_free c, masked_free s)

squeeze_dots-IsSafeAfter :
    (after_dot : Bool) (s : Text)
    → All (λ c. is_reserved c ≡ false) s
    → IsSafeAfter after_dot (squeeze_dots after_dot s)
unfolding squeeze_dots IsSafeAfter
squeeze_dots-IsSafeAfter after_dot [] h = tt
squeeze_dots-IsSafeAfter true (c ∷ s) (hc, h) = elim (Bool-cases (c == b'.')) [
  | inl dot ↦ rw dot (squeeze_dots-IsSafeAfter true s h)
  | inr other ↦ rw other (hc, other, rw other (squeeze_dots-IsSafeAfter false s h))
]
squeeze_dots-IsSafeAfter false (c ∷ s) (hc, h) = elim (Bool-cases (c == b'.')) [
  | inl dot ↦ rw dot (hc, refl, rw dot (squeeze_dots-IsSafeAfter true s h))
  | inr other ↦ rw other (hc, refl, rw other (squeeze_dots-IsSafeAfter false s h))
]

take-IsSafeAfter :
    (n : ℕ) (after_dot : Bool) (s : Text)
    → IsSafeAfter after_dot s
    → IsSafeAfter after_dot (take n s)
unfolding IsSafeAfter
take-IsSafeAfter zero after_dot s h = tt
take-IsSafeAfter (suc n) after_dot [] h = tt
take-IsSafeAfter (suc n) after_dot (c ∷ s) (free, dots, h) =
    (free, dots, take-IsSafeAfter n (c == b'.') s h)

length-take : {A : Type 0} (n : ℕ) (s : List A) → length (take n s) ≤ n
length-take zero s = ground arith
length-take (suc n) [] = ground arith
length-take (suc n) (c ∷ s) = ground (arith, length-take n s)

-- Whatever name a client gives its file, the stored name has at most 255 units, none of them
-- reserved, and no two dots in a row.
pub sanitize_file_name_safe :
    (name : Text)
    → (length (sanitize_file_name name) ≤ 255) × IsSafeAfter false (sanitize_file_name name)
unfolding sanitize_file_name
sanitize_file_name_safe name = (
  length-take 255 (squeeze_dots false (map mask_reserved name)),
  take-IsSafeAfter 255 false (squeeze_dots false (map mask_reserved name))
      (squeeze_dots-IsSafeAfter false (map mask_reserved name) (masked_free name)),
)
