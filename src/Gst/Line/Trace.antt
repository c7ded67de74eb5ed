-- ===== src/Gst/Line/Trace.antt =====
-- The intermediate values of a run of `calculate_line` that succeeds.
use billing_platform.Base.{
  ◌≡◌, Bool, List, ◌++◌, String, Result, ok, Uuid, Time, Result-cases, inl, inr,
}
use billing_platform.Decimal.{Decimal}
use billing_platform.Money
use billing_platform.Money.{Money, MinorUnits, round_half_up}
use billing_platform.Gst.Types.{TaxableLine, TaxComponent, TaxLineResult, TaxRateMaster}
use billing_platform.Gst.Line.{
  taxable_unrounded, gst_components, cess_components, round_components, line_amounts,
  calculate_line,
}

module _ {D : Type 0} ⦃d : Decimal D⦄ where
  pub record Trace (units : MinorUnits)
      (resolve : Uuid → String → String → Time → Result (TaxRateMaster D)) (org : Uuid)
      (date : Time) (line : TaxableLine D) (intra_state place_is_ut : Bool) (r : TaxLineResult D)
      : Type 0 where
    pub rate : TaxRateMaster D
    pub taxable : D
    pub gst : List (TaxComponent D)
    pub cess : List (TaxComponent D)
    pub zero_tax : Money D
    pub resolved : resolve org "IN" line.hsn_sac_code date ≡ ok rate
    pub backed_out :
        taxable_unrounded line.pricing_mode (d.add rate.gst_rate rate.cess_rate) line.amount.amount
        ≡ ok taxable
    pub gst_built :
        gst_components units rate.gst_rate taxable line.amount.currency intra_state place_is_ut
        ≡ ok gst
    pub cess_built : cess_components units rate.cess_rate taxable line.amount.currency ≡ ok cess
    pub started : Money.zero_money units line.amount.currency ≡ ok zero_tax
    pub rounded : round_components units (gst ++ cess) zero_tax ≡ ok (r.components, r.total_tax)
    pub amounts :
        line_amounts units line.pricing_mode line.amount taxable r.total_tax
        ≡ ok (r.taxable_amount, r.gross_amount)
    pub rate_id : r.rate_master_id ≡ rate.id

  pub calculate_line-Trace :
      (units : MinorUnits) (resolve : Uuid → String → String → Time → Result (TaxRateMaster D))
      (org : Uuid) (date : Time) (line : TaxableLine D) (intra_state place_is_ut : Bool)
      {r : TaxLineResult D}
      → calculate_line units resolve org date line intra_state place_is_ut ≡ ok r
      → Trace units resolve org date line intra_state place_is_ut r
  unfolding calculate_line
  calculate_line-Trace units resolve org date line intra_state place_is_ut {r} h =
      elim (Result-cases (resolve org "IN" line.hsn_sac_code date)) [
        | inr (x, e) ↦ absurd (cc (rw e at h))
        | inl (rate, e1) ↦
            let h0 = rw e1 at h in
            let code = line.amount.currency in
            elim (Result-cases (
              taxable_unrounded line.pricing_mode (d.add rate.gst_rate rate.cess_rate)
                line.amount.amount)) [
                  | inr (x, e) ↦ absurd (cc (rw e at h0))
                  | inl (taxable, e0) ↦
                      let h1 = rw e0 at h0 in
                      elim (Result-cases
                        (gst_components units rate.gst_rate taxable code intra_state place_is_ut)) [
                          | inr (x, e) ↦ absurd (cc (rw e at h1))
                          | inl (gst, e2) ↦
                              let h2 = rw e2 at h1 in
                              elim (Result-cases
                                (cess_components units rate.cess_rate taxable code)) [
                                  | inr (x, e) ↦ absurd (cc (rw e at h2))
                                  | inl (cess, e3) ↦
                                      let h3 = rw e3 at h2 in
                                      elim (Result-cases (Money.zero_money {D = D} units code)) [
                                        | inr (x, e) ↦ absurd (cc (rw e at h3))
                                        | inl (zero_tax, e4) ↦
                                            let h4 = rw e4 at h3 in
                                            elim (Result-cases
                                              (round_components units (gst ++ cess) zero_tax)) [
                                                | inr (x, e) ↦ absurd (cc (rw e at h4))
                                                | inl ((components, line_tax), e5) ↦
                                                    let h5 = rw e5 at h4 in
                                                    elim (Result-cases (
                                                      line_amounts units line.pricing_mode
                                                        line.amount taxable line_tax)) [
                                                          | inr (x, e) ↦ absurd (cc (rw e at h5))
                                                          | inl ((net, gross), e6) ↦
                                                            let h6 = rw e6 at h5 in
                                                            record {
                                                            rate = rate;
                                                            taxable = taxable;
                                                            gst = gst;
                                                            cess = cess;
                                                            zero_tax = zero_tax;
                                                            resolved = e1;
                                                            backed_out = e0;
                                                            gst_built = e2;
                                                            cess_built = e3;
                                                            started = e4;
                                                            rounded = cc;
                                                            amounts = cc;
                                                            rate_id = cc;
                                                            }
                                                        ]
                                              ]
                                      ]
                                ]
                        ]
                ]
      ]
