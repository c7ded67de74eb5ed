-- ===== src/Decimal/Interface.antt =====
-- The operations of `decimal.Decimal` that the code calls, and what it relies on.
use billing_platform.Base.{
  ◌≡◌, ◌↔◌, Bool, true, false, Option, String, if◌then◌else◌, Result, ok, err, panicked,
}
use billing_platform.Base.Int.{ℤ}

pub record Decimal (D : Type 0) : Type 0 where
  pub nought : D
  pub from_int : ℤ → D
  pub from_string : String → Option D
  pub add : D → D → D
  pub sub : D → D → D
  pub mul : D → D → D
  pub div : D → D → D
  pub neg : D → D
  pub equal : D → D → Bool
  pub less_than : D → D → Bool
  -- to so many places after the point: half away from zero, half to even, towards zero
  pub round : D → ℤ → D
  pub round_bank : D → ℤ → D
  pub truncate : D → ℤ → D

-- The comparisons that the library documents by way of these.
module _ {D : Type 0} ⦃d : Decimal D⦄ where
  abbrev pub greater_than : D → D → Bool
  greater_than a b = d.less_than b a

  abbrev pub is_positive : D → Bool
  is_positive a = d.less_than d.nought a

  abbrev pub is_negative : D → Bool
  is_negative a = d.less_than a d.nought

  abbrev pub is_zero : D → Bool
  is_zero a = d.equal a d.nought

  abbrev pub min : D → D → D
  min a b = if d.less_than b a then b else a

-- `Div` panics over a divisor of zero.
unfoldable pub divide : {D : Type 0} ⦃d : Decimal D⦄ → D → D → Result D
divide ⦃d⦄ a b = if is_zero b then err panicked else ok (d.div a b)

-- Sums and differences are exact.
pub record IsGroup (D : Type 0) ⦃d : Decimal D⦄ : Type 0 where
  pub add_assoc : (a b c : D) → d.add (d.add a b) c ≡ d.add a (d.add b c)
  pub add_comm : (a b : D) → d.add a b ≡ d.add b a
  pub add_nought : (a : D) → d.add a d.nought ≡ a
  pub add_neg : (a : D) → d.add a (d.neg a) ≡ d.nought
  pub sub_add_neg : (a b : D) → d.sub a b ≡ d.add a (d.neg b)

-- Comparison is the order of the numbers.
pub record IsOrder (D : Type 0) ⦃d : Decimal D⦄ : Type 0 where
  pub equal_iff : (a b : D) → (d.equal a b ≡ true) ↔ (a ≡ b)
  pub lt_irrefl : (a : D) → d.less_than a a ≡ false
  pub lt_trans :
      (a b c : D) → d.less_than a b ≡ true → d.less_than b c ≡ true → d.less_than a c ≡ true
  pub lt_total : (a b : D) → d.less_than a b ≡ false → d.less_than b a ≡ false → a ≡ b
  pub add_lt_add : (a b c : D) → d.less_than a b ≡ true → d.less_than (d.add a c) (d.add b c) ≡ true

-- A number that rounding leaves alone has at most that many places; sums have no more places.
pub record IsRounding (D : Type 0) ⦃d : Decimal D⦄ : Type 0 where
  pub round_idem : (a : D) (p : ℤ) → d.round (d.round a p) p ≡ d.round a p
  pub round_nought : (p : ℤ) → d.round d.nought p ≡ d.nought
  pub round-add :
      (a b : D) (p : ℤ) → d.round a p ≡ a → d.round b p ≡ b → d.round (d.add a b) p ≡ d.add a b
  pub round-neg : (a : D) (p : ℤ) → d.round (d.neg a) p ≡ d.neg (d.round a p)
