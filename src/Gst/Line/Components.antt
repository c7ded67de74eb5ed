-- ===== src/Gst/Line/Components.antt =====
-- Which components a line's tax has, and when a line is calculated at all.
use billing_platform.Base.{
  ◌≡◌, sym, ◌∙◌, Bool, List, [], ◌∷◌, String, ok, arith, All, IsOk, IsOk-value,
}
use billing_platform.Decimal.{Decimal}
use billing_platform.Money
use billing_platform.Money.{Money, MinorUnits, IsRegistered, round_half_up}
use billing_platform.Money.Laws.{round_total, round_ok, add_total, sub_total, new_total, add_ok}
use billing_platform.Gst.Types.{PricingMode, inclusive, exclusive, TaxComponent}
use billing_platform.Gst.Line.{gst_components, cess_components, round_components, line_amounts}
use billing_platform.Gst.Line.Steps.{round_components-LoopStep}

module _ {D : Type 0} ⦃d : Decimal D⦄ (units : MinorUnits) (code : String) where
  abbrev pub InCurrency : TaxComponent D → Type 0
  InCurrency c = c.amount.currency ≡ code

  pub gst_components-IsOk :
      (rate taxable : D) (intra_state place_is_ut : Bool)
      → IsRegistered units code
      → IsOk (gst_components units rate taxable code intra_state place_is_ut)
  unfolding gst_components Money.new
  gst_components-IsOk rate taxable intra_state place_is_ut known = ground arith

  pub gst_components-InCurrency :
      (rate taxable : D) (intra_state place_is_ut : Bool) {cs : List (TaxComponent D)}
      → gst_components units rate taxable code intra_state place_is_ut ≡ ok cs
      → All InCurrency cs
  unfolding gst_components Money.new
  gst_components-InCurrency rate taxable intra_state place_is_ut h = ground arith

  pub cess_components-IsOk :
      (rate taxable : D) → IsRegistered units code → IsOk (cess_components units rate taxable code)
  unfolding cess_components Money.new
  cess_components-IsOk rate taxable known = ground arith

  pub cess_components-InCurrency :
      (rate taxable : D) {cs : List (TaxComponent D)}
      → cess_components units rate taxable code ≡ ok cs
      → All InCurrency cs
  unfolding cess_components Money.new
  cess_components-InCurrency rate taxable h = ground arith

  pub round_components-IsOk :
      (cs : List (TaxComponent D)) (start : Money D)
      → IsRegistered units code
      → start.currency ≡ code
      → All InCurrency cs
      → IsOk (round_components units cs start)
  unfolding round_components
  round_components-IsOk [] start known same all = tt
  round_components-IsOk (c ∷ cs) start known same all =
      let (r, e) = round_total units round_half_up c.amount (rw all.0 known) in
      let (code_r, _, _) = round_ok units c.amount e in
      let sum = d.add start.amount r.amount in
      let next : Money D = record { amount = sum; currency = start.currency } in
      let (t, et) =
        IsOk-value (round_components units cs next)
          (round_components-IsOk cs next known same all.1) in
      rw (e, add_total start r (code_r ∙ all.0 ∙ sym same), et) tt

  pub line_amounts-IsOk :
      (mode : PricingMode) (amount line_tax : Money D) (taxable : D)
      → IsRegistered units code
      → amount.currency ≡ code
      → line_tax.currency ≡ code
      → IsOk (line_amounts units mode amount taxable line_tax)
  unfolding line_amounts
  line_amounts-IsOk inclusive amount line_tax taxable known here there =
      let (r, e) = round_total units round_half_up amount (rw here known) in
      let (code_r, _, _) = round_ok units amount e in
      rw (e, sub_total r line_tax (there ∙ sym here ∙ sym code_r)) tt
  line_amounts-IsOk exclusive amount line_tax taxable known here there =
      let m : Money D = record { amount = taxable; currency = amount.currency } in
      let (r, e) = round_total units round_half_up m (rw here known) in
      let (code_r, _, _) = round_ok units m e in
      rw
        (
          new_total units taxable amount.currency (rw here known),
          e,
          add_total r line_tax (there ∙ sym here ∙ sym code_r),
        )
        tt

module _ {D : Type 0} ⦃d : Decimal D⦄ (units : MinorUnits) where
  pub round_components-currency :
      (cs : List (TaxComponent D)) (start : Money D) {out : List (TaxComponent D) × Money D}
      → round_components units cs start ≡ ok out
      → out.1.currency ≡ start.currency
  unfolding round_components
  round_components-currency [] start h = ground arith
  round_components-currency (c ∷ cs) start {out} h =
      let s = round_components-LoopStep units c cs start {out = out.0} {total = out.1} h in
      let (_, code, _) = add_ok start s.rounded s.adds in
      round_components-currency cs s.sum s.continues ∙ code
