-- ===== src/Decimal/Fixed/Rounding.antt =====
-- Rounding of the fixed decimals: its results are the multiples of the unit of the last place.
use native.Mathlib.Nat.{pow-suc, pow-zero, mul-le-mul_right}
use mathlib.Core.Path.{ap₂}
use billing_platform.Base.{
  ℕ, zero, suc, ◌+◌, ◌-◌, ◌*◌, ◌^◌, ◌≡◌, ◌<◌, ◌≤◌, refl, sym, ap, ◌∙◌, arith, Bool-cases, leb, inl,
  inr,
}
use billing_platform.Base.Int.{ℤ, pos, negsuc, ◌+ℤ◌, neg_ℤ, sub_ℕ}
use billing_platform.Decimal.Interface.{IsRounding}
use billing_platform.Decimal.Fixed.{unit_at, nearest, on_magnitude, fixed}

pow_pos : (b n : ℕ) → 0 < b → 0 < b ^ n
pow_pos b zero h = rw pow-zero (omega arith)
pow_pos b (suc n) h = rw pow-suc (grind (arith, pow_pos b n h))

unit_at_pos : (p : ℤ) → 0 < unit_at p
unit_at_pos (pos places) = pow_pos 10 (4 - places) (omega arith)
unit_at_pos (negsuc n) = pow_pos 10 (5 + n) (omega arith)

nearest_multiple : (k u : ℕ) → 0 < u → nearest (k * u) u ≡ k
nearest_multiple k u h = grind arith

sub_add_sub : (a b c e : ℕ) → sub_ℕ a b +ℤ sub_ℕ c e ≡ sub_ℕ (a + c) (b + e)
unfolding ◌+ℤ◌
sub_add_sub a b c e = ground arith

sub_suc : (n : ℕ) → sub_ℕ 0 (suc n) ≡ negsuc n
sub_suc n = ground arith

sub_forward : (a b : ℕ) → b ≤ a → sub_ℕ a b ≡ pos (a - b)
sub_forward a b h = ground arith

sub_backward : (a b : ℕ) → a ≤ b → sub_ℕ a b ≡ sub_ℕ 0 (b - a)
sub_backward a b h = ground arith

on_magnitude-sub : (f : ℕ → ℕ) (n : ℕ) → f 0 ≡ 0 → on_magnitude f (sub_ℕ 0 n) ≡ sub_ℕ 0 (f n)
on_magnitude-sub f zero e = ap pos e ∙ sym (ap (sub_ℕ 0) e)
on_magnitude-sub f (suc n) e = ap (on_magnitude f) (sub_suc n)

pos_sub : (a z : ℕ) → z ≡ 0 → pos a ≡ sub_ℕ a z
pos_sub a z h = ground arith

scaled_difference : (k l u : ℕ) → l ≤ k → k * u - l * u ≡ (k - l) * u
scaled_difference k l u h = grind arith

neg-sub : (n : ℕ) → neg_ℤ (sub_ℕ 0 n) ≡ pos n
unfolding neg_ℤ
neg-sub n = ground arith

module _ (u : ℕ) (u_pos : 0 < u) where
  abbrev to_unit : ℕ → ℕ
  to_unit n = nearest n u * u

  abbrev rounded : ℤ → ℤ
  rounded = on_magnitude to_unit

  to_unit_zero : to_unit 0 ≡ 0
  to_unit_zero = grind arith

  to_unit_multiple : (k : ℕ) → to_unit (k * u) ≡ k * u
  to_unit_multiple k = ap (λ t. t * u) (nearest_multiple k u u_pos)

  abbrev IsMultiple : ℤ → Type 0
  IsMultiple a = (k : ℕ) × (l : ℕ) × (a ≡ sub_ℕ (k * u) (l * u))

  rounded-sub : (n : ℕ) → rounded (sub_ℕ 0 n) ≡ sub_ℕ 0 (to_unit n)
  rounded-sub n = on_magnitude-sub to_unit n to_unit_zero

  fixed-IsMultiple : (a : ℤ) → rounded a ≡ a → IsMultiple a
  fixed-IsMultiple (pos n) h =
      (nearest n u, 0, sym h ∙ pos_sub (nearest n u * u) (0 * u) (omega arith))
  fixed-IsMultiple (negsuc n) h =
      (0, nearest (suc n) u, sym h ∙ ap (λ z. sub_ℕ z (nearest (suc n) u * u)) (omega arith))

  rounded_difference : (k l : ℕ) → rounded (sub_ℕ (k * u) (l * u)) ≡ sub_ℕ (k * u) (l * u)
  rounded_difference k l = elim (Bool-cases (leb l k)) [
    | inl h ↦
        let le : l ≤ k = ground arith in
        let e =
          sub_forward (k * u) (l * u) (mul-le-mul_right u le)
          ∙ ap pos (scaled_difference k l u le) in
        rw e (ap pos (to_unit_multiple (k - l)))
    | inr h ↦
        let le : k ≤ l = ground arith in
        let e =
          sub_backward (k * u) (l * u) (mul-le-mul_right u le)
          ∙ ap (sub_ℕ 0) (scaled_difference l k u le) in
        rw e (rounded-sub ((l - k) * u) ∙ ap (sub_ℕ 0) (to_unit_multiple (l - k)))
  ]

  IsMultiple-add : (a b : ℤ) → IsMultiple a → IsMultiple b → IsMultiple (a +ℤ b)
  IsMultiple-add a b (k, l, e) (k', l', e') = (
    k + k',
    l + l',
    ap₂ ◌+ℤ◌ e e'
        ∙ sub_add_sub (k * u) (l * u) (k' * u) (l' * u)
        ∙ ap₂ sub_ℕ (grind arith) (grind arith),
  )

  IsMultiple-rounded : (a : ℤ) → IsMultiple a → rounded a ≡ a
  IsMultiple-rounded a (k, l, e) = rw e (rounded_difference k l)

  rounded_idem : (a : ℤ) → rounded (rounded a) ≡ rounded a
  rounded_idem (pos n) = ap pos (to_unit_multiple (nearest n u))
  rounded_idem (negsuc n) =
      rounded-sub (to_unit (suc n)) ∙ ap (sub_ℕ 0) (to_unit_multiple (nearest (suc n) u))

  rounded-neg : (a : ℤ) → rounded (neg_ℤ a) ≡ neg_ℤ (rounded a)
  unfolding neg_ℤ
  rounded-neg (pos n) = rounded-sub n
  rounded-neg (negsuc n) =
      ap rounded (sym (pos_sub (suc n) 0 refl)) ∙ sym (neg-sub (to_unit (suc n)))

pub fixed-IsRounding : IsRounding ℤ
fixed-IsRounding = record {
  round_idem = λ a p. rounded_idem (unit_at p) (unit_at_pos p) a;
  round_nought = λ p. ap pos (to_unit_zero (unit_at p) (unit_at_pos p));
  round-add = λ a b p ha hb. IsMultiple-rounded (unit_at p) (unit_at_pos p) (a +ℤ b) (
      IsMultiple-add (unit_at p) (unit_at_pos p) a b
        (fixed-IsMultiple (unit_at p) (unit_at_pos p) a ha)
        (fixed-IsMultiple (unit_at p) (unit_at_pos p) b hb));
  round-neg = λ a p. rounded-neg (unit_at p) (unit_at_pos p) a;
}
