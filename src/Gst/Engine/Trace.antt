-- ===== src/Gst/Engine/Trace.antt =====
-- The intermediate values of a run of `calculate` that succeeds.
use billing_platform.Base.{
  ◌≡◌, Bool, true, List, ◌∷◌, String, str_eq, Result, ok, Uuid, Time, arith, Result-cases,
  Bool-cases, inl, inr,
}
use billing_platform.Decimal.{Decimal}
use billing_platform.Money
use billing_platform.Money.{Money, MinorUnits}
use billing_platform.Gst.Types.{
  TaxableLine, TaxCalculationInput, TaxLineResult, TaxCalculationResult, TaxRateMaster, GstState,
}
use billing_platform.Gst.Line.{calculate_line}
use billing_platform.Gst.Engine.{has_lines, calculate_lines, calculate}

module _ {D : Type 0} ⦃d : Decimal D⦄ (units : MinorUnits)
    (resolve : Uuid → String → String → Time → Result (TaxRateMaster D)) where
  module _ (org : Uuid) (date : Time) (intra_state place_is_ut : Bool) where
    pub record LinesStep (line : TaxableLine D) (lines : List (TaxableLine D)) (taxable tax : D)
        (out : List (TaxLineResult D) × D × D) : Type 0 where
      pub first : TaxLineResult D
      pub rest : List (TaxLineResult D)
      pub calculates : calculate_line units resolve org date line intra_state place_is_ut ≡ ok first
      pub continues :
          calculate_lines units resolve org date intra_state place_is_ut lines
            (d.add taxable first.taxable_amount.amount)
            (d.add tax first.total_tax.amount)
          ≡ ok (rest, out.1, out.2)
      pub collects : out.0 ≡ first ∷ rest

    pub calculate_lines-LinesStep :
        (line : TaxableLine D) (lines : List (TaxableLine D)) (taxable tax : D)
        {out : List (TaxLineResult D) × D × D}
        → calculate_lines units resolve org date intra_state place_is_ut (line ∷ lines) taxable tax
          ≡ ok out
        → LinesStep line lines taxable tax out
    unfolding calculate_lines
    calculate_lines-LinesStep line lines taxable tax {out} h =
        elim (Result-cases (calculate_line units resolve org date line intra_state place_is_ut)) [
          | inr (x, e) ↦ absurd (cc (rw e at h))
          | inl (first, e1) ↦
              let h1 = rw e1 at h in
              elim (Result-cases (
                calculate_lines units resolve org date intra_state place_is_ut lines
                  (d.add taxable first.taxable_amount.amount) (d.add tax first.total_tax.amount))) [
                    | inr (x, e) ↦ absurd (cc (rw e at h1))
                    | inl ((rest, t, x), e2) ↦
                        let h2 = rw e2 at h1 in
                        record {
                          first = first;
                          rest = rest;
                          calculates = e1;
                          continues = ground arith;
                          collects = ground arith;
                        }
                  ]
        ]

  pub record Trace (get_by_code : String → Result GstState) (input : TaxCalculationInput D)
      (r : TaxCalculationResult D) : Type 0 where
    pub place : GstState
    pub taxable : D
    pub tax : D
    pub not_empty : has_lines input.lines ≡ true
    pub placed : get_by_code input.supply_place.state_code ≡ ok place
    pub calculated :
        calculate_lines units resolve input.organisation_id input.document_date
          (str_eq input.supplier_state_code input.supply_place.state_code)
          place.is_union_territory
          input.lines
          d.nought
          d.nought
        ≡ ok (r.lines, taxable, tax)
    pub taxable_made : Money.new units taxable input.currency_code ≡ ok r.total_taxable_amount
    pub tax_made : Money.new units tax input.currency_code ≡ ok r.total_tax_amount
    pub grand_made : Money.add r.total_taxable_amount r.total_tax_amount ≡ ok r.grand_total

  pub calculate-Trace :
      (get_by_code : String → Result GstState) (input : TaxCalculationInput D)
      {r : TaxCalculationResult D}
      → calculate units resolve get_by_code input ≡ ok r
      → Trace get_by_code input r
  unfolding calculate
  calculate-Trace get_by_code input {r} h = elim (Bool-cases (has_lines input.lines)) [
    | inr e ↦ absurd (cc (rw e at h))
    | inl e0 ↦
        let h0 = rw e0 at h in
        elim (Result-cases (get_by_code input.supply_place.state_code)) [
          | inr (x, e) ↦ absurd (cc (rw e at h0))
          | inl (place, e1) ↦
              let h1 = rw e1 at h0 in
              let intra_state = str_eq input.supplier_state_code input.supply_place.state_code in
              elim (Result-cases (
                calculate_lines units resolve input.organisation_id input.document_date intra_state
                  place.is_union_territory input.lines d.nought d.nought)) [
                    | inr (x, e) ↦ absurd (cc (rw e at h1))
                    | inl ((lines, taxable, tax), e2) ↦
                        let h2 = rw e2 at h1 in
                        elim (Result-cases (Money.new {D = D} units taxable input.currency_code)) [
                          | inr (x, e) ↦ absurd (cc (rw e at h2))
                          | inl (mt, e3) ↦
                              let h3 = rw e3 at h2 in
                              elim (Result-cases
                                (Money.new {D = D} units tax input.currency_code)) [
                                  | inr (x, e) ↦ absurd (cc (rw e at h3))
                                  | inl (mx, e4) ↦
                                      let h4 = rw e4 at h3 in
                                      elim (Result-cases (Money.add mt mx)) [
                                        | inr (x, e) ↦ absurd (cc (rw e at h4))
                                        | inl (grand, e5) ↦
                                            let h5 = rw e5 at h4 in
                                            record {
                                              place = place;
                                              taxable = taxable;
                                              tax = tax;
                                              not_empty = e0;
                                              placed = e1;
                                              calculated = cc;
                                              taxable_made = cc;
                                              tax_made = cc;
                                              grand_made = cc;
                                            }
                                      ]
                                ]
                        ]
                  ]
        ]
  ]
