-- ===== src/Store/Keys.antt =====
-- Tables with a primary key, under updates by the key of a loaded row.
use hpx_eigen_s1_foundation.Common.{
  ℕ, ◌≡◌, ◌≢◌, refl, Bool, true, false, some, List, [], ◌∷◌, All, ◌==◌, ==_iff, arith, find_first,
  update_many, Bool-cases, inl, inr, find_first_holds, keep,
}

module _ {A : Type 0} where
  pub find_first-All :
      (P : A → Type 0) (p : A → Bool) (cs : List A) {c : A}
      → All P cs
      → find_first p cs ≡ some c
      → P c
  unfolding find_first
  find_first-All P p [] h e = ground arith
  find_first-All P p (x ∷ cs) (hx, h) e = elim (Bool-cases (p x)) [
    | inl yes_x ↦ let same : x ≡ _ = ground arith in rw same at hx
    | inr no_x ↦ find_first-All P p cs h (ground arith)
  ]

module _ {A : Type 0} (key : A → ℕ) where
  -- `@id`: no two rows have one key.
  abbrev pub HasUniqueKeys : List A → Type 0
  HasUniqueKeys [] = Unit
  HasUniqueKeys (c ∷ cs) = All (λ d. key c ≢ key d) cs × HasUniqueKeys cs

module _ {A : Type 0} (key : A → ℕ) where
  update_many-absent :
      (f : A → A) (k : ℕ) (cs : List A)
      → All (λ d. k ≢ key d) cs
      → update_many (λ x. key x == k) f cs ≡ cs
  unfolding update_many
  update_many-absent f k [] h = refl
  update_many-absent f k (x ∷ cs) (hx, h) = ground (arith, update_many-absent f k cs h)

  module _ (P : A → Type 0) (p : A → Bool) (k : ℕ) (of_key : (x : A) → p x ≡ true → key x ≡ k) where
    -- An update that keeps a property of the loaded row keeps it of every row.
    pub update_many-All :
        (f : A → A) (cs : List A) {c : A}
        → HasUniqueKeys key cs
        → find_first p cs ≡ some c
        → P (f c)
        → All P cs
        → All P (update_many (λ x. key x == k) f cs)
    unfolding update_many find_first
    update_many-All f [] u e pf h = tt
    update_many-All f (x ∷ cs) {c} (ux, u) e pf (hx, h) = elim (Bool-cases (p x)) [
      | inl live ↦
          let same : x ≡ c = ground arith in
          let at_key = (==_iff (key x) k).1 (of_key x live) in
          let rest = update_many-absent f k cs (rw (← of_key x live) ux) in
          rw (at_key, rest) (rw (← same) at pf, h)
      | inr dead ↦
          let found : find_first p cs ≡ some c = ground arith in
          let ne : key x ≢ key c = find_first-All (λ d. key x ≢ key d) p cs ux found in
          let c_key : key c ≡ k = of_key c (find_first_holds p cs found) in
          let off : (key x == k) ≡ false = ground arith in
          rw off (hx, update_many-All f cs u found pf h)
    ]

  All-absent-update_many :
      (p : A → Bool) (f : A → A) (k : ℕ) (cs : List A)
      → ((x : A) → key (f x) ≡ key x)
      → All (λ d. k ≢ key d) cs
      → All (λ d. k ≢ key d) (update_many p f cs)
  unfolding update_many
  All-absent-update_many p f k [] keeps h = tt
  All-absent-update_many p f k (x ∷ cs) keeps (hx, h) =
      (ground (arith, keeps x), All-absent-update_many p f k cs keeps h)

  -- An update that keeps the keys keeps them apart.
  pub HasUniqueKeys-update_many :
      (p : A → Bool) (f : A → A) (cs : List A)
      → ((x : A) → key (f x) ≡ key x)
      → HasUniqueKeys key cs
      → HasUniqueKeys key (update_many p f cs)
  unfolding update_many
  HasUniqueKeys-update_many p f [] keeps u = tt
  HasUniqueKeys-update_many p f (x ∷ cs) keeps (ux, u) =
      let apart = All-absent-update_many p f (key x) cs keeps ux in
      let rest = HasUniqueKeys-update_many p f cs keeps u in
      elim (Bool-cases (p x)) [
        | inl yes_x ↦ rw (yes_x, keeps x) (apart, rest)
        | inr no_x ↦ rw no_x (apart, rest)
      ]

module _ {A : Type 0} where
  -- A conditional update keeps what it keeps of each row that meets the condition.
  pub update_many-keeps :
      (P : A → Type 0) (p : A → Bool) (f : A → A) (cs : List A)
      → ((x : A) → p x ≡ true → P x → P (f x))
      → All P cs
      → All P (update_many p f cs)
  unfolding update_many
  update_many-keeps P p f [] keeps h = tt
  update_many-keeps P p f (x ∷ cs) keeps (hx, h) = (
    elim (Bool-cases (p x)) [ inl yes_x ↦ rw yes_x (keeps x yes_x hx) | inr no_x ↦ rw no_x hx ],
    update_many-keeps P p f cs keeps h,
  )

  -- A conditional update of rows that a filter passes over keeps what the filter keeps.
  pub keep-update_many :
      (q p : A → Bool) (f : A → A) (cs : List A)
      → ((x : A) → q (f x) ≡ q x)
      → ((x : A) → p x ≡ true → q x ≡ false)
      → keep q (update_many p f cs) ≡ keep q cs
  unfolding update_many
  keep-update_many q p f [] same out = refl
  keep-update_many q p f (x ∷ cs) same out =
      ground (arith, same x, out x, keep-update_many q p f cs same out)

module _ {A : Type 0} (key : A → ℕ) (p : A → Bool) (k : ℕ)
    (of_key : (x : A) → p x ≡ true → key x ≡ k) where
  -- The same for the update, by the key, of a loaded row that the filter passes over.
  pub keep-update_by_key :
      (q : A → Bool) (f : A → A) (cs : List A) {c : A}
      → ((x : A) → q (f x) ≡ q x)
      → HasUniqueKeys key cs
      → find_first p cs ≡ some c
      → q c ≡ false
      → keep q (update_many (λ x. key x == k) f cs) ≡ keep q cs
  unfolding update_many find_first
  keep-update_by_key q f [] same u e out = refl
  keep-update_by_key q f (x ∷ cs) {c} same (ux, u) e out = elim (Bool-cases (p x)) [
    | inl live ↦
        let here : x ≡ c = ground arith in
        let out_x : q x ≡ false = rw here out in
        let at_key = (==_iff (key x) k).1 (of_key x live) in
        let rest = update_many-absent key f k cs (rw (← of_key x live) ux) in
        rw (at_key, rest, same x, out_x) refl
    | inr dead ↦
        let found : find_first p cs ≡ some c = ground arith in
        let ne : key x ≢ key c = find_first-All (λ d. key x ≢ key d) p cs ux found in
        let c_key : key c ≡ k = of_key c (find_first_holds p cs found) in
        let off : (key x == k) ≡ false = ground arith in
        rw off (ground (arith, keep-update_by_key q f cs {c = c} same u found out))
  ]
