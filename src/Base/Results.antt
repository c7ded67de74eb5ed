-- ===== src/Base/Results.antt =====
-- Go's `(value, error)` returns: a value or one of the errors that the modelled code returns, and
-- `do` blocks for chains of `if err != nil { return err }`.
use mathlib.Core.Path.{◌≡◌, refl}
use mathlib.Core.Logic.{◌⊎◌, inl, inr}
use mathlib.Core.Bool.{Bool, true, false}
use Prim.Native.String.{String}

-- The error values of the modelled packages; `panicked` is a Go panic, and `external` an error
-- that a repository or another parameter returns.
pub data Error : Type 0 where
  unregistered_currency currency_mismatch invalid_amount panicked : Error
  no_lines rate_not_configured unknown_state : Error
  empty_journal unbalanced_journal one_sided_line period_locked amount_not_positive : Error
  invalid_movement_type quantity_not_positive unit_cost_required insufficient_stock : Error
  no_unit_conversion same_warehouse not_an_adjustment duplicate_serial forbidden not_found : Error
  not_generated invalid_close_role result_mismatch not_eligible missing_information : Error
  external : String → Error

pub data Result {ℓ} (A : Type ℓ) : Type ℓ where
  err : Error → Result A
  ok : A → Result A

module _ {ℓ κ} {A : Type ℓ} {B : Type κ} where
  infixl 5 ◌>>=◌
  abbrev pub ◌>>=◌ : Result A → (A → Result B) → Result B
  err failure >>= next = err failure
  ok value >>= next = next value

  -- Inversion of a successful step.
  pub >>=-eq-ok :
      (first : Result A) (next : A → Result B) {result : B}
      → (first >>= next) ≡ ok result
      → (value : A) × (first ≡ ok value) × (next value ≡ ok result)
  >>=-eq-ok (err failure) next h = cc
  >>=-eq-ok (ok value) next h = (value, refl, h)

-- A step for its error alone.
infixl 5 ◌>>◌
abbrev pub ◌>>◌ {κ} : {B : Type κ} → Result (Unit {0}) → Result B → Result B
check >> next = check >>= λ _. next

-- `if !test { return failure }`
abbrev pub guard : Bool → Error → Result (Unit {0})
guard false failure = err failure
guard true failure = ok tt

-- `if err != nil { return other }`
abbrev pub or_error {ℓ} : {A : Type ℓ} → Result A → Error → Result A
or_error (ok a) e = ok a
or_error (err _) e = err e

pub Result-cases {ℓ} :
    {A : Type ℓ} (r : Result A) → ((a : A) × (r ≡ ok a)) ⊎ ((e : Error) × (r ≡ err e))
Result-cases (ok a) = inl (a, refl)
Result-cases (err e) = inr (e, refl)

abbrev pub IsOk {ℓ} : {A : Type ℓ} → Result A → Type 0
IsOk (ok a) = Unit
IsOk (err e) = ⊥

pub IsOk-value {ℓ} : {A : Type ℓ} (m : Result A) → IsOk m → (a : A) × (m ≡ ok a)
IsOk-value (ok a) h = (a, refl)
IsOk-value (err e) h = absurd h

pub IsOk-bind {ℓ κ} :
    {A : Type ℓ} {B : Type κ} (m : Result A) (f : A → Result B)
    → IsOk (m >>= f)
    → (a : A) × (m ≡ ok a) × IsOk (f a)
IsOk-bind (ok a) f h = (a, refl, h)
IsOk-bind (err e) f h = absurd h
