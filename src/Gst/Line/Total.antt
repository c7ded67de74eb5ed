-- ===== src/Gst/Line/Total.antt =====
-- When a line is calculated at all.
use billing_platform.Base.{
  ◌≡◌, refl, Bool, ◌++◌, String, err, Result, Uuid, Time, All-append, IsOk, IsOk-value, IsOk-bind,
  ◌>>=◌, rate_not_configured, Error,
}
use billing_platform.Decimal.{Decimal}
use billing_platform.Money.{Money, MinorUnits, IsRegistered}
use billing_platform.Money.Laws.{zero_money_ok, zero_money_total}
use billing_platform.Gst.Types.{TaxableLine, TaxRateMaster}
use billing_platform.Gst.Line.{
  taxable_unrounded, gst_components, cess_components, round_components, line_amounts,
  calculate_line,
}
use billing_platform.Gst.Line.Trace.{calculate_line-Trace}
use billing_platform.Gst.Line.Components.{
  InCurrency, gst_components-IsOk, gst_components-InCurrency, cess_components-IsOk,
  cess_components-InCurrency, round_components-IsOk, line_amounts-IsOk, round_components-currency,
}

module _ {D : Type 0} ⦃d : Decimal D⦄ (units : MinorUnits)
    (resolve : Uuid → String → String → Time → Result (TaxRateMaster D)) (org : Uuid) (date : Time)
    (line : TaxableLine D) where
  -- The rate of the line's code on the date, and the taxable value that it leaves.
  abbrev pub price : Result D
  price = do
    rate ← resolve org "IN" line.hsn_sac_code date
    taxable_unrounded line.pricing_mode (d.add rate.gst_rate rate.cess_rate) line.amount.amount

  abbrev pub IsCalculable : Type 0
  IsCalculable = IsOk price × IsRegistered units line.amount.currency

module _ {D : Type 0} ⦃d : Decimal D⦄ (units : MinorUnits)
    (resolve : Uuid → String → String → Time → Result (TaxRateMaster D)) (org : Uuid) (date : Time)
    (line : TaxableLine D) (intra_state place_is_ut : Bool) where
  pub calculate_line-no_rate :
      (e : Error)
      → resolve org "IN" line.hsn_sac_code date ≡ err e
      → calculate_line units resolve org date line intra_state place_is_ut ≡ err rate_not_configured
  unfolding calculate_line
  calculate_line-no_rate e h = rw h

  pub calculate_line-IsOk :
      IsCalculable units resolve org date line
      → IsOk (calculate_line units resolve org date line intra_state place_is_ut)
  unfolding calculate_line
  calculate_line-IsOk (has_rate, known) =
      let code = line.amount.currency in
      let (rate, e1, priced) =
        IsOk-bind (resolve org "IN" line.hsn_sac_code date)
          (λ r.
            taxable_unrounded line.pricing_mode (d.add r.gst_rate r.cess_rate) line.amount.amount)
          has_rate in
      let (taxable, e0) =
        IsOk-value
          (taxable_unrounded line.pricing_mode (d.add rate.gst_rate rate.cess_rate)
            line.amount.amount)
          priced in
      let (gst, e2) =
        IsOk-value (gst_components units rate.gst_rate taxable code intra_state place_is_ut)
          (gst_components-IsOk units code rate.gst_rate taxable intra_state place_is_ut known) in
      let (cess, e3) =
        IsOk-value (cess_components units rate.cess_rate taxable code)
          (cess_components-IsOk units code rate.cess_rate taxable known) in
      let zero_tax : Money D = record { amount = d.nought; currency = code } in
      let in_code =
        All-append (InCurrency units code) gst cess
          (gst_components-InCurrency units code rate.gst_rate taxable intra_state place_is_ut e2)
          (cess_components-InCurrency units code rate.cess_rate taxable e3) in
      let (sums, e5) =
        IsOk-value (round_components units (gst ++ cess) zero_tax)
          (round_components-IsOk units code (gst ++ cess) zero_tax known refl in_code) in
      let (amounts, e6) =
        IsOk-value (line_amounts units line.pricing_mode line.amount taxable sums.1) (
          line_amounts-IsOk units code line.pricing_mode line.amount sums.1 taxable known refl
            (round_components-currency units (gst ++ cess) zero_tax e5)) in
      rw (e1, e0, e2, e3, zero_money_total units code known, e5, e6) tt

  pub calculate_line-IsCalculable :
      IsOk (calculate_line units resolve org date line intra_state place_is_ut)
      → IsCalculable units resolve org date line
  calculate_line-IsCalculable h =
      let (r, e) =
        IsOk-value (calculate_line units resolve org date line intra_state place_is_ut) h in
      let t = calculate_line-Trace units resolve org date line intra_state place_is_ut e in
      let (_, _, known) = zero_money_ok units line.amount.currency t.started in
      (rw (t.resolved, t.backed_out) tt, known)
