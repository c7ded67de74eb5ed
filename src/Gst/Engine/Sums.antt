-- ===== src/Gst/Engine/Sums.antt =====
-- The totals of a document against its lines.
use mathlib.Core.Path.{subst}
use billing_platform.Base.{
  ◌≡◌, sym, ap, ◌∙◌, Bool, List, [], ◌∷◌, String, ok, Result, Uuid, Time, Pairs,
}
use billing_platform.Decimal.{Decimal, IsGroup}
use billing_platform.Decimal.Group.{nought_add, add_add_comm}
use billing_platform.Money.{MinorUnits}
use billing_platform.Money.Laws.{new_ok, add_ok}
use billing_platform.Gst.Types.{
  TaxableLine, TaxCalculationInput, TaxLineResult, TaxCalculationResult, TaxRateMaster, GstState,
}
use billing_platform.Gst.Line.Sums.{IsReconciled, calculate_line-IsReconciled}
use billing_platform.Gst.Engine.{calculate_lines, calculate}
use billing_platform.Gst.Engine.Trace.{calculate_lines-LinesStep, calculate-Trace}

module _ {D : Type 0} ⦃d : Decimal D⦄ where
  abbrev pub taxable_sum : List (TaxLineResult D) → D
  taxable_sum [] = d.nought
  taxable_sum (r ∷ rs) = d.add r.taxable_amount.amount (taxable_sum rs)

  abbrev pub tax_sum : List (TaxLineResult D) → D
  tax_sum [] = d.nought
  tax_sum (r ∷ rs) = d.add r.total_tax.amount (tax_sum rs)

  abbrev pub gross_sum : List (TaxLineResult D) → D
  gross_sum [] = d.nought
  gross_sum (r ∷ rs) = d.add r.gross_amount.amount (gross_sum rs)

  -- The totals of a document are the sums of its lines' amounts, and are in its currency.
  pub record IsTotalled (code : String) (r : TaxCalculationResult D) : Type 0 where
    pub taxable_is : r.total_taxable_amount.amount ≡ taxable_sum r.lines
    pub tax_is : r.total_tax_amount.amount ≡ tax_sum r.lines
    pub grand_is : r.grand_total.amount ≡ gross_sum r.lines
    pub taxable_currency : r.total_taxable_amount.currency ≡ code
    pub tax_currency : r.total_tax_amount.currency ≡ code
    pub grand_currency : r.grand_total.currency ≡ code

  module _ (group : IsGroup D) (units : MinorUnits) where
    add_step :
        (acc x sum total : D) → total ≡ d.add (d.add acc x) sum → total ≡ d.add acc (d.add x sum)
    add_step acc x sum total h = h ∙ group.add_assoc acc x sum

    Pairs-gross_sum :
        (lines : List (TaxableLine D)) (rs : List (TaxLineResult D))
        → Pairs (IsReconciled units) lines rs
        → d.add (taxable_sum rs) (tax_sum rs) ≡ gross_sum rs
    Pairs-gross_sum [] [] h = group.add_nought d.nought
    Pairs-gross_sum (line ∷ lines) (r ∷ rs) h =
        add_add_comm group r.taxable_amount.amount (taxable_sum rs) r.total_tax.amount (tax_sum rs)
        ∙ ap (λ t. d.add t (d.add (taxable_sum rs) (tax_sum rs))) h.0.adds_up
        ∙ ap (d.add r.gross_amount.amount) (Pairs-gross_sum lines rs h.1)
    Pairs-gross_sum [] (r ∷ rs) h = absurd h
    Pairs-gross_sum (line ∷ lines) [] h = absurd h

    module _ (resolve : Uuid → String → String → Time → Result (TaxRateMaster D)) where
      calculate_lines-Pairs :
          (org : Uuid) (date : Time) (intra_state place_is_ut : Bool) (lines : List (TaxableLine D))
          (taxable tax : D) {out : List (TaxLineResult D) × D × D}
          → calculate_lines units resolve org date intra_state place_is_ut lines taxable tax
            ≡ ok out
          → Pairs (IsReconciled units) lines out.0
            × (out.1 ≡ d.add taxable (taxable_sum out.0))
            × (out.2 ≡ d.add tax (tax_sum out.0))
      unfolding calculate_lines
      calculate_lines-Pairs org date intra_state place_is_ut [] taxable tax {out} h =
          let e : out ≡ ([], taxable, tax) = cc in
          rw e (tt, sym (group.add_nought taxable), sym (group.add_nought tax))
      calculate_lines-Pairs org date intra_state place_is_ut (line ∷ lines) taxable tax {out} h =
          let s =
            calculate_lines-LinesStep units resolve org date intra_state place_is_ut line lines
              taxable tax h in
          let f = s.first in
          let law =
            calculate_line-IsReconciled group units resolve org date line intra_state place_is_ut
              s.calculates in
          let (rest, t, x) =
            calculate_lines-Pairs org date intra_state place_is_ut lines
              (d.add taxable f.taxable_amount.amount) (d.add tax f.total_tax.amount) s.continues in
          (
            subst (Pairs (IsReconciled units) (line ∷ lines)) (sym s.collects) (law, rest),
            add_step taxable f.taxable_amount.amount (taxable_sum s.rest) out.1 t
                ∙ ap (λ rs. d.add taxable (taxable_sum rs)) (sym s.collects),
            add_step tax f.total_tax.amount (tax_sum s.rest) out.2 x
                ∙ ap (λ rs. d.add tax (tax_sum rs)) (sym s.collects),
          )

      -- Of a document that is calculated every line reconciles, and the totals are the sums over the
      -- lines: the grand total is the sum of the lines' gross amounts. All totals carry the document's
      -- currency.
      pub calculate-IsTotalled :
          (get_by_code : String → Result GstState) (input : TaxCalculationInput D)
          {r : TaxCalculationResult D}
          → calculate units resolve get_by_code input ≡ ok r
          → Pairs (IsReconciled units) input.lines r.lines × IsTotalled input.currency_code r
      calculate-IsTotalled get_by_code input {r} run =
          let t = calculate-Trace units resolve get_by_code input run in
          let (pairs, taxable, tax) =
            calculate_lines-Pairs input.organisation_id input.document_date _
              t.place.is_union_territory input.lines d.nought d.nought t.calculated in
          let (a, ca, _) = new_ok units t.taxable input.currency_code t.taxable_made in
          let (b, cb, _) = new_ok units t.tax input.currency_code t.tax_made in
          let (g, cg, _) = add_ok r.total_taxable_amount r.total_tax_amount t.grand_made in
          let taxable_is = a ∙ taxable ∙ nought_add group (taxable_sum r.lines) in
          let tax_is = b ∙ tax ∙ nought_add group (tax_sum r.lines) in
          (
            pairs,
            record {
              taxable_is = taxable_is;
              tax_is = tax_is;
              grand_is =
                  g
                  ∙ ap (λ x. d.add x r.total_tax_amount.amount) taxable_is
                  ∙ ap (d.add (taxable_sum r.lines)) tax_is
                  ∙ Pairs-gross_sum input.lines r.lines pairs;
              taxable_currency = ca;
              tax_currency = cb;
              grand_currency = cg ∙ ca;
            },
          )
