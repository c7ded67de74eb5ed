-- ===== src/Decimal/Fixed.antt =====
-- Decimals of four places as whole ten-thousandths: numbers for which the laws hold, so that the
-- theorems can be applied and the code can be run. Products and quotients are rounded half away from
-- zero to four places.
pub mod Rounding
use billing_platform.Base.{
  ℕ, suc, ◌+◌, ◌-◌, ◌*◌, ◌/◌, ◌%◌, ◌^◌, ◌≡◌, ◌<◌, ◌≤◌, refl, Bool, Option, none, some, String,
  arith, ◌==◌, if◌then◌else◌,
}
use billing_platform.Base.Int.{
  ℤ, pos, negsuc, ◌+ℤ◌, ◌-ℤ◌, neg_ℤ, sub_ℕ, pos_part, neg_part, ltb_ℤ, eqb_ℤ, int_laws, +ℤ_parts,
}
use billing_platform.Decimal.Interface.{Decimal, IsGroup, IsOrder, IsRounding}

-- The number of ten-thousandths in a unit of the last kept place.
abbrev pub unit_at : ℤ → ℕ
unit_at (pos places) = 10 ^ (4 - places)
unit_at (negsuc n) = 10 ^ (5 + n)

-- `n / m` to the nearest whole number, halves up, for numbers.
abbrev pub nearest : ℕ → ℕ → ℕ
nearest n m = (n + m / 2) / m

abbrev pub on_magnitude : (ℕ → ℕ) → ℤ → ℤ
on_magnitude f (pos n) = pos (f n)
on_magnitude f (negsuc n) = sub_ℕ 0 (f (suc n))

abbrev signed : ℤ → ℤ → ℕ → ℤ
signed (pos _) (pos _) n = pos n
signed (negsuc _) (negsuc _) n = pos n
signed (pos _) (negsuc _) n = sub_ℕ 0 n
signed (negsuc _) (pos _) n = sub_ℕ 0 n

abbrev magnitude : ℤ → ℕ
magnitude a = pos_part a + neg_part a

abbrev half_even : ℕ → ℕ → ℕ
half_even n m = if (n % m) * 2 == m then (n / m + (n / m) % 2) else nearest n m

instance abbrev pub fixed : Decimal ℤ
fixed = record {
  nought = pos 0;
  from_int = on_magnitude (λ n. n * 10000);
  from_string = λ s. none;
  add = ◌+ℤ◌;
  sub = ◌-ℤ◌;
  mul = λ a b. signed a b (nearest (magnitude a * magnitude b) 10000);
  div = λ a b. signed a b (nearest (magnitude a * 10000) (magnitude b));
  neg = neg_ℤ;
  equal = eqb_ℤ;
  less_than = ltb_ℤ;
  round = λ a p. on_magnitude (λ n. nearest n (unit_at p) * unit_at p) a;
  round_bank = λ a p. on_magnitude (λ n. half_even n (unit_at p) * unit_at p) a;
  truncate = λ a p. on_magnitude (λ n. n / unit_at p * unit_at p) a;
}

pub fixed-IsGroup : IsGroup ℤ
fixed-IsGroup = record {
  add_assoc = λ a b c. omega int_laws;
  add_comm = λ a b. omega int_laws;
  add_nought = λ a. omega int_laws;
  add_neg = λ a. omega int_laws;
  sub_add_neg = λ a b. omega int_laws;
}

pub fixed-IsOrder : IsOrder ℤ
fixed-IsOrder = record {
  equal_iff = λ a b. (λ h. ground arith, λ h. ground arith);
  lt_irrefl = λ a. ground arith;
  lt_trans = λ a b c h k. ground arith;
  lt_total = λ a b h k. ground arith;
  add_lt_add = λ a b c h. ground (arith, +ℤ_parts a c, +ℤ_parts b c);
}
