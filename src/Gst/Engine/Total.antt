-- ===== src/Gst/Engine/Total.antt =====
-- When a document is calculated at all.
use billing_platform.Base.{
  ◌≡◌, refl, ◌↔◌, Bool, true, List, [], ◌∷◌, String, str_eq, Result, ok, Uuid, Time, IsOk,
  IsOk-value, All,
}
use billing_platform.Decimal.{Decimal}
use billing_platform.Money.{Money, MinorUnits, IsRegistered}
use billing_platform.Money.Laws.{new_ok, new_total, add_total}
use billing_platform.Gst.Types.{
  TaxableLine, TaxCalculationInput, TaxLineResult, TaxRateMaster, GstState,
}
use billing_platform.Gst.Line.{calculate_line}
use billing_platform.Gst.Line.Total.{IsCalculable, calculate_line-IsOk, calculate_line-IsCalculable}
use billing_platform.Gst.Engine.{has_lines, calculate_lines, calculate}
use billing_platform.Gst.Engine.Trace.{calculate_lines-LinesStep, calculate-Trace}

module _ {D : Type 0} ⦃d : Decimal D⦄ (units : MinorUnits)
    (resolve : Uuid → String → String → Time → Result (TaxRateMaster D)) where
  module _ (org : Uuid) (date : Time) (intra_state place_is_ut : Bool) where
    calculate_lines-IsOk :
        (lines : List (TaxableLine D)) (taxable tax : D)
        → All (IsCalculable units resolve org date) lines
        → IsOk (calculate_lines units resolve org date intra_state place_is_ut lines taxable tax)
    unfolding calculate_lines
    calculate_lines-IsOk [] taxable tax all = tt
    calculate_lines-IsOk (line ∷ lines) taxable tax all =
        let (f, e1) =
          IsOk-value (calculate_line units resolve org date line intra_state place_is_ut)
            (calculate_line-IsOk units resolve org date line intra_state place_is_ut all.0) in
        let taxable' = d.add taxable f.taxable_amount.amount in
        let tax' = d.add tax f.total_tax.amount in
        let (rest, e2) =
          IsOk-value
            (calculate_lines units resolve org date intra_state place_is_ut lines taxable' tax')
            (calculate_lines-IsOk lines taxable' tax' all.1) in
        rw (e1, e2) tt

    calculate_lines-IsCalculable :
        (lines : List (TaxableLine D)) (taxable tax : D) {out : List (TaxLineResult D) × D × D}
        → calculate_lines units resolve org date intra_state place_is_ut lines taxable tax ≡ ok out
        → All (IsCalculable units resolve org date) lines
    calculate_lines-IsCalculable [] taxable tax h = tt
    calculate_lines-IsCalculable (line ∷ lines) taxable tax h =
        let s =
          calculate_lines-LinesStep units resolve org date intra_state place_is_ut line lines
            taxable tax h in
        (
          calculate_line-IsCalculable units resolve org date line intra_state place_is_ut
              (rw s.calculates tt),
          calculate_lines-IsCalculable lines (d.add taxable s.first.taxable_amount.amount)
              (d.add tax s.first.total_tax.amount) s.continues,
        )

  -- What the calculation of a document needs.
  pub record IsReady (get_by_code : String → Result GstState) (input : TaxCalculationInput D)
      : Type 0 where
    pub not_empty : has_lines input.lines ≡ true
    pub placed : IsOk (get_by_code input.supply_place.state_code)
    pub calculable :
        All (IsCalculable units resolve input.organisation_id input.document_date) input.lines
    pub in_currency : IsRegistered units input.currency_code

  calculate-IsOk :
      (get_by_code : String → Result GstState) (input : TaxCalculationInput D)
      → IsReady get_by_code input
      → IsOk (calculate units resolve get_by_code input)
  unfolding calculate
  calculate-IsOk get_by_code input h =
      let code = input.currency_code in
      let intra_state = str_eq input.supplier_state_code input.supply_place.state_code in
      let (place, e1) = IsOk-value (get_by_code input.supply_place.state_code) h.placed in
      let (out, e2) =
        IsOk-value
          (calculate_lines units resolve input.organisation_id input.document_date intra_state
            place.is_union_territory input.lines d.nought d.nought)
          (calculate_lines-IsOk input.organisation_id input.document_date intra_state
            place.is_union_territory input.lines d.nought d.nought h.calculable) in
      let taxable : Money D = record { amount = out.1; currency = code } in
      let tax : Money D = record { amount = out.2; currency = code } in
      rw
        (
          h.not_empty,
          e1,
          e2,
          new_total units out.1 code h.in_currency,
          new_total units out.2 code h.in_currency,
          add_total taxable tax refl,
        )
        tt

  -- A document is calculated exactly when it has lines, its place of supply is known, its currency is
  -- registered, and every line has a rate on the document's date and a registered currency. So no
  -- line without a rate is ever taxed at nothing.
  pub calculate_iff :
      (get_by_code : String → Result GstState) (input : TaxCalculationInput D)
      → IsOk (calculate units resolve get_by_code input) ↔ IsReady get_by_code input
  calculate_iff get_by_code input = (ready, calculate-IsOk get_by_code input)
    where
      ready : IsOk (calculate units resolve get_by_code input) → IsReady get_by_code input
      ready h =
          let (r, e) = IsOk-value (calculate units resolve get_by_code input) h in
          let t = calculate-Trace units resolve get_by_code input e in
          let (_, _, known) = new_ok units t.taxable input.currency_code t.taxable_made in
          record {
            not_empty = t.not_empty;
            placed = rw t.placed tt;
            calculable =
                calculate_lines-IsCalculable input.organisation_id input.document_date _
                  t.place.is_union_territory input.lines d.nought d.nought t.calculated;
            in_currency = known;
          }
