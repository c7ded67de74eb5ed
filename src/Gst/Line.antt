-- ===== src/Gst/Line.antt =====
-- `calculateLine` and `newComponent` of internal/modules/gstindia/engine.go: the tax on one line.
pub mod Trace
pub mod Steps
pub mod Sums
pub mod Settled
pub mod Components
pub mod Total
use billing_platform.Base.{
  Bool, true, false, List, [], ◌∷◌, ◌++◌, String, if◌then◌else◌, Result, ok, err, ◌>>=◌, ◌>>◌,
  or_error, rate_not_configured, Uuid, Time,
}
use billing_platform.Base.Int.{pos}
use billing_platform.Decimal.{Decimal, greater_than, divide}
use billing_platform.Money
use billing_platform.Money.{Money, MinorUnits, round_half_up}
use billing_platform.Gst.Types.{
  PricingMode, inclusive, exclusive, TaxableLine, TaxComponent, TaxLineResult, TaxRateMaster,
}

module _ {D : Type 0} ⦃d : Decimal D⦄ where
  hundred : D
  hundred = d.from_int (pos 100)

  -- An unrounded component: taxable * rate / 100.
  unfoldable pub new_component : MinorUnits → String → D → D → String → Result (TaxComponent D)
  unfolding hundred
  new_component units kind rate taxable currency = do
    m ← Money.new units (d.div (d.mul taxable rate) hundred) currency
    ok (record { kind = kind; rate = rate; amount = m })

  -- The taxable value before rounding: backed out of an inclusive price.
  unfoldable pub taxable_unrounded : PricingMode → D → D → Result D
  unfolding hundred divide
  taxable_unrounded inclusive combined_rate gross =
      divide gross (d.add (d.from_int (pos 1)) (d.div combined_rate hundred))
  taxable_unrounded exclusive combined_rate gross = ok gross

  unfoldable pub gst_components :
      MinorUnits → D → D → String → Bool → Bool → Result (List (TaxComponent D))
  unfolding new_component
  gst_components units gst_rate taxable currency intra_state place_is_ut =
      if greater_than gst_rate d.nought
      then (if intra_state
          then (do
            let half = d.div gst_rate (d.from_int (pos 2))
            cgst ← new_component units "CGST" half taxable currency
            second ←
                new_component units (if place_is_ut then "UTGST" else "SGST") half taxable currency
            ok (cgst ∷ second ∷ []))
          else (do igst ← new_component units "IGST" gst_rate taxable currency; ok (igst ∷ [])))
      else ok []

  unfoldable pub cess_components : MinorUnits → D → D → String → Result (List (TaxComponent D))
  unfolding new_component
  cess_components units cess_rate taxable currency =
      if greater_than cess_rate d.nought
      then (do cess ← new_component units "CESS" cess_rate taxable currency; ok (cess ∷ []))
      else ok []

  -- The one rounding point: every component by itself, and the line's tax is their sum so far.
  unfoldable pub round_components :
      MinorUnits → List (TaxComponent D) → Money D → Result (List (TaxComponent D) × Money D)
  round_components units [] line_tax = ok ([], line_tax)
  round_components units (c ∷ cs) line_tax = do
    rounded ← Money.round units round_half_up c.amount
    sum ← Money.add line_tax rounded
    (rest, total) ← round_components units cs sum
    ok (record c { amount = rounded } ∷ rest, total)

  -- The taxable and the gross amount of the line.
  unfoldable pub line_amounts :
      MinorUnits → PricingMode → Money D → D → Money D → Result (Money D × Money D)
  line_amounts units inclusive amount taxable line_tax = do
    gross ← Money.round units round_half_up amount
    net ← Money.sub gross line_tax
    ok (net, gross)
  line_amounts units exclusive amount taxable line_tax = do
    m ← Money.new units taxable amount.currency
    net ← Money.round units round_half_up m
    gross ← Money.add net line_tax
    ok (net, gross)

  unfoldable pub calculate_line :
      MinorUnits
      → (Uuid → String → String → Time → Result (TaxRateMaster D))
      → Uuid
      → Time
      → TaxableLine D
      → Bool
      → Bool
      → Result (TaxLineResult D)
  unfolding taxable_unrounded gst_components cess_components round_components line_amounts
  calculate_line units resolve org document_date line intra_state place_is_ut = do
    rate ← or_error (resolve org "IN" line.hsn_sac_code document_date) rate_not_configured
    let currency = line.amount.currency
    let combined_rate = d.add rate.gst_rate rate.cess_rate
    taxable ← taxable_unrounded line.pricing_mode combined_rate line.amount.amount
    gst ← gst_components units rate.gst_rate taxable currency intra_state place_is_ut
    cess ← cess_components units rate.cess_rate taxable currency
    zero_tax ← Money.zero_money units currency
    (components, line_tax) ← round_components units (gst ++ cess) zero_tax
    (net, gross) ← line_amounts units line.pricing_mode line.amount taxable line_tax
    ok (record {
      line_ref = line.line_ref;
      hsn_sac_code = line.hsn_sac_code;
      pricing_mode = line.pricing_mode;
      gross_amount = gross;
      taxable_amount = net;
      total_tax = line_tax;
      classification = rate.classification;
      components = components;
      rate_master_id = rate.id;
    })
