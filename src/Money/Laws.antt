-- ===== src/Money/Laws.antt =====
-- What the operations of money.go return, on every branch.
use billing_platform.Base.{◌≡◌, String, eq_iff, ok, arith}
use billing_platform.Decimal.{Decimal}
use billing_platform.Money.{
  IsRegistered, MinorUnits, zero_money, digits_of, round_amount, Money, RoundingMode, round_half_up,
  new, add, sub, round,
}

module _ {D : Type 0} ⦃d : Decimal D⦄ where
  -- A value that `new` returns keeps its arguments, and its currency is registered.
  pub new_ok :
      (units : MinorUnits) (a : D) (code : String) {m : Money D}
      → new units a code ≡ ok m
      → (m.amount ≡ a) × (m.currency ≡ code) × (IsRegistered units code)
  unfolding new
  new_ok units a code h = ground arith

  pub add_ok :
      (m n : Money D) {r : Money D}
      → add m n ≡ ok r
      → (r.amount ≡ d.add m.amount n.amount) × (r.currency ≡ m.currency) × (n.currency ≡ m.currency)
  unfolding add
  add_ok m n h = ground (arith, eq_iff m.currency n.currency)

  pub sub_ok :
      (m n : Money D) {r : Money D}
      → sub m n ≡ ok r
      → (r.amount ≡ d.sub m.amount n.amount) × (r.currency ≡ m.currency) × (n.currency ≡ m.currency)
  unfolding sub
  sub_ok m n h = ground (arith, eq_iff m.currency n.currency)

  pub round_ok :
      (units : MinorUnits) (m : Money D) {r : Money D}
      → round units round_half_up m ≡ ok r
      → (r.currency ≡ m.currency)
        × (IsRegistered units m.currency)
        × (r.amount ≡ d.round m.amount (digits_of units m.currency))
  unfolding round
  round_ok units m h = ground arith

  -- Of the values that a registered currency's amount takes, none makes `round` panic.
  pub round_total :
      (units : MinorUnits) (mode : RoundingMode) (m : Money D)
      → IsRegistered units m.currency
      → (r : Money D) × (round units mode m ≡ ok r)
  unfolding round
  round_total units mode m h =
      (record m { amount = round_amount mode m.amount (digits_of units m.currency) }, ground arith)

  pub zero_money_ok :
      (units : MinorUnits) (code : String) {m : Money D}
      → zero_money units code ≡ ok m
      → (m.amount ≡ d.nought) × (m.currency ≡ code) × (IsRegistered units code)
  unfolding zero_money
  zero_money_ok units code h = ground arith

  pub add_total :
      (m n : Money D)
      → n.currency ≡ m.currency
      → add m n ≡ ok (record { amount = d.add m.amount n.amount; currency = m.currency })
  unfolding add
  add_total m n same = ground (arith, eq_iff m.currency n.currency)

  pub sub_total :
      (m n : Money D)
      → n.currency ≡ m.currency
      → sub m n ≡ ok (record { amount = d.sub m.amount n.amount; currency = m.currency })
  unfolding sub
  sub_total m n same = ground (arith, eq_iff m.currency n.currency)

  pub new_total :
      (units : MinorUnits) (a : D) (code : String)
      → IsRegistered units code
      → new units a code ≡ ok (record { amount = a; currency = code })
  unfolding new
  new_total units a code known = ground arith

  pub zero_money_total :
      (units : MinorUnits) (code : String)
      → IsRegistered units code
      → zero_money units code ≡ ok (record { amount = d.nought; currency = code })
  unfolding zero_money
  zero_money_total units code known = ground arith
