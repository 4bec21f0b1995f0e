-- ===== src/Store/Monad.antt =====
-- A service call: it reads and writes a state and may throw. What was written before a throw stays
-- written; `transaction` takes it back, as an interactive transaction of the database does.
use hpx_eigen_s1_foundation.Common.{
  Bool, true, false, Option, none, some, String, ◌≡◌, refl, ◌⊎◌, inl, inr,
}

-- The classes of src/types/exceptions.ts that the modelled services throw.
pub data ServiceError : Type 0 where
  validation_error business_rule_violation : String → ServiceError
  resource_not_found conflict case_closed authorization_error : ServiceError
  optimistic_lock audit_chain_branch : ServiceError
  portal_verification_failed duplicate_resource : String → ServiceError

pub data Result (A : Type 0) : Type 0 where
  ok : A → Result A
  err : ServiceError → Result A

pub Result-cases :
    {A : Type 0} (r : Result A) → ((a : A) × (r ≡ ok a)) ⊎ ((e : ServiceError) × (r ≡ err e))
Result-cases (ok a) = inl (a, refl)
Result-cases (err e) = inr (e, refl)

abbrev pub is_ok : {A : Type 0} → Result A → Bool
is_ok (ok a) = true
is_ok (err e) = false

abbrev pub Action : Type 0 → Type 0 → Type 0
Action S A = S → Result A × S

module _ {S A : Type 0} where
  abbrev pub pure : A → Action S A
  pure a s = (ok a, s)

  abbrev pub raise : ServiceError → Action S A
  raise e s = (err e, s)

  abbrev pub gets : (S → A) → Action S A
  gets f s = (ok (f s), s)

  -- `if (!x) throw e`
  abbrev pub or_raise : Option A → ServiceError → Action S A
  or_raise none e = raise e
  or_raise (some a) e = pure a

  -- `prisma.$transaction`: a throw rolls back.
  abbrev pub settle : S → Result A × S → Result A × S
  settle s (ok a, s') = (ok a, s')
  settle s (err e, s') = (err e, s)

  abbrev pub transaction : Action S A → Action S A
  transaction m s = settle s (m s)

module _ {S : Type 0} where
  abbrev pub modify : (S → S) → Action S (Unit {0})
  modify f s = (ok tt, f s)

  abbrev pub raise_if : Bool → ServiceError → Action S (Unit {0})
  raise_if true e = raise e
  raise_if false e = pure tt

infixl 5 ◌>>=◌ ◌>>◌
abbrev pub ◌>>=◌ : {S A B : Type 0} → Action S A → (A → Action S B) → Action S B
◌>>=◌ m f s = let (r, s') = m s in elim r [ ok a ↦ f a s' | err e ↦ raise e s' ]

abbrev pub ◌>>◌ : {S A B : Type 0} → Action S A → Action S B → Action S B
m >> k = m >>= λ _. k
