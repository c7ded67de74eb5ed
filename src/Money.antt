-- ===== src/Money.antt =====
-- internal/platform/money/money.go: decimal amounts with an ISO 4217 currency code.
pub mod Laws
use billing_platform.Base.{
  ◌≢◌, Bool, true, false, Option, none, some, List, [], ◌∷◌, String, str_eq, if◌then◌else◌, Dict,
  lookup, insert, Result, ok, err, Error, unregistered_currency, currency_mismatch, invalid_amount,
  panicked, ◌>>=◌, ◌>>◌, guard,
}
use billing_platform.Base.Int.{ℤ, pos, negsuc}
use billing_platform.Decimal.{Decimal, is_zero, is_negative}

pub data RoundingMode : Type 0 where
  round_half_up round_half_even round_down : RoundingMode

-- The package variable `minorUnits`, which `RegisterCurrency` changes: it is passed along.
abbrev pub MinorUnits : Type 0
MinorUnits = Dict ℤ

abbrev pub minor_units : MinorUnits
minor_units =
    ("INR", pos 2)
    ∷ ("USD", pos 2)
    ∷ ("EUR", pos 2)
    ∷ ("GBP", pos 2)
    ∷ ("AED", pos 2)
    ∷ ("SGD", pos 2)
    ∷ ("AUD", pos 2)
    ∷ ("CAD", pos 2)
    ∷ ("JPY", pos 0)
    ∷ ("KWD", pos 3)
    ∷ ("BHD", pos 3)
    ∷ ("OMR", pos 3)
    ∷ []

unfoldable pub register_currency : MinorUnits → String → ℤ → MinorUnits
register_currency units code digits = insert code digits units

unfoldable pub minor_digits : MinorUnits → String → Option ℤ
minor_digits units code = lookup code units

-- The digits of a currency, 0 for one that is not registered.
abbrev pub digits_of : MinorUnits → String → ℤ
digits_of units code = elim (minor_digits units code) [ none ↦ pos 0 | some digits ↦ digits ]

abbrev pub IsRegistered : MinorUnits → String → Type 0
IsRegistered units code = minor_digits units code ≢ none

pub record Money (D : Type 0) : Type 0 where
  pub amount : D
  pub currency : String

pub data Sign : Type 0 where
  below level above : Sign

module _ {D : Type 0} ⦃d : Decimal D⦄ where
  unfoldable pub new : MinorUnits → D → String → Result (Money D)
  new units amount code = elim (minor_digits units code) [
    | none ↦ err unregistered_currency
    | some _ ↦ ok (record { amount = amount; currency = code })
  ]

  -- The panic of `MustNew` is the error `panicked`.
  unfoldable pub must_new : MinorUnits → D → String → Result (Money D)
  unfolding new
  must_new units amount code = elim (new units amount code) [ ok m ↦ ok m | err _ ↦ err panicked ]

  unfoldable pub zero_money : MinorUnits → String → Result (Money D)
  unfolding new
  zero_money units code = new units d.nought code

  unfoldable pub parse : MinorUnits → String → String → Result (Money D)
  unfolding new
  parse units text code = elim (d.from_string text) [
    | none ↦ err invalid_amount
    | some amount ↦ new units amount code
  ]

  unfoldable pub same_currency : Money D → Money D → Result (Unit {0})
  same_currency m other = guard (str_eq m.currency other.currency) currency_mismatch

  unfoldable pub add : Money D → Money D → Result (Money D)
  unfolding same_currency
  add m other = do
    same_currency m other
    ok (record { amount = d.add m.amount other.amount; currency = m.currency })

  unfoldable pub sub : Money D → Money D → Result (Money D)
  unfolding same_currency
  sub m other = do
    same_currency m other
    ok (record { amount = d.sub m.amount other.amount; currency = m.currency })

  unfoldable pub mul_decimal : Money D → D → Money D
  mul_decimal m factor = record { amount = d.mul m.amount factor; currency = m.currency }

  unfoldable pub neg : Money D → Money D
  neg m = record { amount = d.neg m.amount; currency = m.currency }

  unfoldable pub is_zero_money : Money D → Bool
  is_zero_money m = is_zero m.amount

  unfoldable pub is_negative_money : Money D → Bool
  is_negative_money m = is_negative m.amount

  unfoldable pub cmp : Money D → Money D → Result Sign
  unfolding same_currency
  cmp m other = do
    same_currency m other
    ok (
        if d.less_than m.amount other.amount
        then below
        else if d.less_than other.amount m.amount
        then above
        else level)

  unfoldable pub round_amount : RoundingMode → D → ℤ → D
  round_amount round_half_even a digits = d.round_bank a digits
  round_amount round_down a digits = d.truncate a digits
  round_amount round_half_up a digits = d.round a digits

  -- The panic over a currency that is no longer registered is the error `panicked`.
  unfoldable pub round : MinorUnits → RoundingMode → Money D → Result (Money D)
  unfolding round_amount
  round units mode m = elim (minor_digits units m.currency) [
    | none ↦ err panicked
    | some digits ↦ ok (record m { amount = round_amount mode m.amount digits })
  ]
