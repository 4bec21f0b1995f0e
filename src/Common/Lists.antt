-- ===== src/Common/Lists.antt =====
-- Lists as database tables: the first row that passes a test, a conditional update, a count.
use Prim.Native.Nat.{ℕ, zero, suc}
use mathlib.Core.Path.{◌≡◌, refl, ap}
use mathlib.Core.Bool.{Bool, true, false, ◌&&◌, ◌||◌}
use mathlib.Core.Option.{Option, none, some}
use mathlib.Core.List.{List, [], ◌∷◌}
use native.Mathlib.Omega.{arith}
use hpx_eigen_s1_foundation.Common.Tests.{if◌then◌else◌}

module _ {ℓ} {A : Type ℓ} where
  abbrev pub length : List A → ℕ
  length [] = 0
  length (x ∷ xs) = suc (length xs)

  abbrev pub take : ℕ → List A → List A
  take zero xs = []
  take (suc n) [] = []
  take (suc n) (x ∷ xs) = x ∷ take n xs

  abbrev pub drop : ℕ → List A → List A
  drop zero xs = xs
  drop (suc n) [] = []
  drop (suc n) (x ∷ xs) = drop n xs

  abbrev pub keep : (A → Bool) → List A → List A
  keep p [] = []
  keep p (x ∷ xs) = if p x then x ∷ keep p xs else keep p xs

  -- `xs.some(p)`
  abbrev pub some_of : (A → Bool) → List A → Bool
  some_of p [] = false
  some_of p (x ∷ xs) = p x || some_of p xs

  -- `xs.every(p)`
  abbrev pub every : (A → Bool) → List A → Bool
  every p [] = true
  every p (x ∷ xs) = p x && every p xs

  -- `findFirst({ where: p })`
  unfoldable pub find_first : (A → Bool) → List A → Option A
  find_first p [] = none
  find_first p (x ∷ xs) = if p x then some x else find_first p xs

  -- `updateMany({ where: p, data: f })`
  unfoldable pub update_many : (A → Bool) → (A → A) → List A → List A
  update_many p f [] = []
  update_many p f (x ∷ xs) = (if p x then f x else x) ∷ update_many p f xs

  -- `count({ where: p })`, and the count that `updateMany` returns
  unfoldable pub count_where : (A → Bool) → List A → ℕ
  count_where p [] = 0
  count_where p (x ∷ xs) = if p x then suc (count_where p xs) else count_where p xs

module _ {ℓ κ} {A : Type ℓ} (P : A → Type κ) where
  abbrev pub All : List A → Type κ
  All [] = Unit
  All (x ∷ xs) = P x × All xs

module _ {ℓ} {A : Type ℓ} where
  -- The row found passes the test.
  pub find_first_holds :
      (p : A → Bool) (xs : List A) {a : A} → find_first p xs ≡ some a → p a ≡ true
  unfolding find_first
  find_first_holds p [] h = ground arith
  find_first_holds p (x ∷ xs) {a} h = ground (arith, find_first_holds p xs {a = a})

  -- Reading back the updated row, when the update keeps the row in the search.
  pub find_first-update_many :
      (p q : A → Bool) (f : A → A) (xs : List A) {a : A}
      → ((x : A) → q x ≡ true → p (f x) ≡ p x)
      → find_first p xs ≡ some a
      → q a ≡ true
      → find_first p (update_many q f xs) ≡ some (f a)
  unfolding find_first update_many
  find_first-update_many p q f [] keeps h k = ground arith
  find_first-update_many p q f (x ∷ xs) {a} keeps h k =
      ground (arith, keeps x, find_first-update_many p q f xs {a = a} keeps)

  -- The same for a row that the update may pass over.
  pub find_first-update_many_if :
      (p q : A → Bool) (f : A → A) (xs : List A) {a : A}
      → ((x : A) → p (f x) ≡ p x)
      → find_first p xs ≡ some a
      → find_first p (update_many q f xs) ≡ some (if q a then f a else a)
  unfolding find_first update_many
  find_first-update_many_if p q f [] keeps h = ground arith
  find_first-update_many_if p q f (x ∷ xs) {a} keeps h =
      ground (arith, keeps x, find_first-update_many_if p q f xs {a = a} keeps)

  -- A row on which two tests agree has the same place in both searches.
  pub count_where-update_many :
      (p q : A → Bool) (f : A → A) (xs : List A)
      → ((x : A) → q x ≡ true → p (f x) ≡ false)
      → ((x : A) → p x ≡ true → q x ≡ true)
      → count_where p (update_many q f xs) ≡ 0
  unfolding count_where update_many
  count_where-update_many p q f [] cleared covered = refl
  count_where-update_many p q f (x ∷ xs) cleared covered =
      ground (arith, cleared x, covered x, count_where-update_many p q f xs cleared covered)

  -- A row that is found and passes a further test is counted.
  pub count_where-find_first :
      (p q : A → Bool) (xs : List A) {a : A}
      → find_first p xs ≡ some a
      → q a ≡ true
      → count_where (λ x. p x && q x) xs ≡ 0
      → ⊥
  unfolding find_first count_where
  count_where-find_first p q [] found h k = ground arith
  count_where-find_first p q (x ∷ xs) {a} found h k =
      ground (arith, count_where-find_first p q xs {a = a})

  pub length-update_many :
      (q : A → Bool) (f : A → A) (xs : List A) → length (update_many q f xs) ≡ length xs
  unfolding update_many
  length-update_many q f [] = refl
  length-update_many q f (x ∷ xs) = ap suc (length-update_many q f xs)
