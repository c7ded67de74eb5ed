-- ===== src/Gst/Engine.antt =====
-- `Engine.Calculate` of internal/modules/gstindia/engine.go: the tax on a document. The engine's
-- two repositories are the arguments `resolve` and `get_by_code`.
pub mod Trace
pub mod Sums
pub mod Total
use billing_platform.Base.{
  ◌≡◌, Bool, true, false, List, [], ◌∷◌, String, str_eq, Result, ok, err, no_lines, ◌>>=◌, ◌>>◌,
  guard, Uuid, Time,
}
use billing_platform.Decimal.{Decimal}
use billing_platform.Money
use billing_platform.Money.{Money, MinorUnits}
use billing_platform.Gst.Types.{
  TaxableLine, TaxCalculationInput, TaxLineResult, TaxCalculationResult, TaxRateMaster, GstState,
}
use billing_platform.Gst.Line.{calculate_line}

abbrev pub has_lines : {A : Type 0} → List A → Bool
has_lines [] = false
has_lines (x ∷ xs) = true

module _ {D : Type 0} ⦃d : Decimal D⦄ (units : MinorUnits)
    (resolve : Uuid → String → String → Time → Result (TaxRateMaster D)) where
  -- The loop over the lines, with the running totals of `Decimal()` amounts.
  unfoldable pub calculate_lines :
      Uuid
      → Time
      → Bool
      → Bool
      → List (TaxableLine D)
      → D
      → D
      → Result (List (TaxLineResult D) × D × D)
  calculate_lines org date intra_state place_is_ut [] total_taxable total_tax =
      ok ([], total_taxable, total_tax)
  calculate_lines org date intra_state place_is_ut (line ∷ lines) total_taxable total_tax = do
    lr ← calculate_line units resolve org date line intra_state place_is_ut
    (rest, taxable, tax) ←
        calculate_lines org date intra_state place_is_ut lines
          (d.add total_taxable lr.taxable_amount.amount) (d.add total_tax lr.total_tax.amount)
    ok (lr ∷ rest, taxable, tax)

  unfoldable pub calculate :
      (String → Result GstState) → TaxCalculationInput D → Result (TaxCalculationResult D)
  calculate get_by_code input = do
    guard (has_lines input.lines) no_lines
    place ← get_by_code input.supply_place.state_code
    let intra_state = str_eq input.supplier_state_code input.supply_place.state_code
    (lines, taxable, tax) ←
        calculate_lines input.organisation_id input.document_date intra_state
          place.is_union_territory input.lines d.nought d.nought
    total_taxable ← Money.new units taxable input.currency_code
    total_tax ← Money.new units tax input.currency_code
    grand ← Money.add total_taxable total_tax
    ok (record {
      lines = lines;
      total_taxable_amount = total_taxable;
      total_tax_amount = total_tax;
      grand_total = grand;
    })
