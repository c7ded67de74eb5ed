-- ===== src/Gst/Line/Sums.antt =====
-- The amounts of one line: the tax is the sum of the rounded components, and the taxable amount
-- and the tax make up the gross amount.
use billing_platform.Base.{
  ◌≡◌, refl, sym, ap, ◌∙◌, Bool, List, [], ◌∷◌, String, ok, Result, Uuid, Time,
}
use billing_platform.Decimal.{Decimal, IsGroup}
use billing_platform.Decimal.Group.{nought_add, sub_add}
use billing_platform.Money.{Money, MinorUnits, digits_of}
use billing_platform.Money.Laws.{zero_money_ok, add_ok, sub_ok, round_ok}
use billing_platform.Gst.Types.{
  PricingMode, inclusive, exclusive, TaxableLine, TaxComponent, TaxLineResult, TaxRateMaster,
}
use billing_platform.Gst.Line.{taxable_unrounded, line_amounts, round_components, calculate_line}
use billing_platform.Gst.Line.Steps.{
  round_components-LoopStep, line_amounts-inclusive, line_amounts-exclusive,
}
use billing_platform.Gst.Line.Trace.{calculate_line-Trace}

module _ {D : Type 0} ⦃d : Decimal D⦄ where
  abbrev pub component_total : List (TaxComponent D) → D
  component_total [] = d.nought
  component_total (c ∷ cs) = d.add c.amount.amount (component_total cs)

  -- An amount in the currency, with no more places than the currency's minor unit.
  pub record IsSettled (units : MinorUnits) (code : String) (m : Money D) : Type 0 where
    pub in_currency : m.currency ≡ code
    pub settled : d.round m.amount (digits_of units code) ≡ m.amount

  abbrev pub IsSettledComponent : MinorUnits → String → TaxComponent D → Type 0
  IsSettledComponent units code c = IsSettled units code c.amount

  module _ (units : MinorUnits) where
    pub round_components-total :
        (group : IsGroup D) (cs : List (TaxComponent D)) (start : Money D)
        {out : List (TaxComponent D)} {total : Money D}
        → round_components units cs start ≡ ok (out, total)
        → (total.amount ≡ d.add start.amount (component_total out))
          × (total.currency ≡ start.currency)
    unfolding round_components
    round_components-total group [] start {out} {total} h =
        let e : out ≡ [] = cc in
        let f : total ≡ start = cc in rw (e, f) (sym (group.add_nought start.amount), refl)
    round_components-total group (c ∷ cs) start {out} {total} h =
        let s = round_components-LoopStep units c cs start h in
        let (sum_is, code, _) = add_ok start s.rounded s.adds in
        let (rest_is, code') = round_components-total group cs s.sum s.continues in
        (
          rest_is
              ∙ ap (λ t. d.add t (component_total s.rest)) sum_is
              ∙ group.add_assoc start.amount s.rounded.amount (component_total s.rest)
              ∙ ap (λ cs'. d.add start.amount (component_total cs')) (sym s.collects),
          code' ∙ code,
        )

    -- What the two ways to the amounts have in common, and what each starts from.
    record AmountsLaw (mode : PricingMode) (amount line_tax net gross : Money D) (taxable : D)
        : Type 0 where
      adds_up : d.add net.amount line_tax.amount ≡ gross.amount
      net_currency : net.currency ≡ amount.currency
      gross_currency : gross.currency ≡ amount.currency
      from_gross :
          mode ≡ inclusive → gross.amount ≡ d.round amount.amount (digits_of units amount.currency)
      from_net : mode ≡ exclusive → net.amount ≡ d.round taxable (digits_of units amount.currency)

    line_amounts-AmountsLaw :
        (group : IsGroup D) (mode : PricingMode) (amount line_tax : Money D) (taxable : D)
        {net gross : Money D}
        → line_amounts units mode amount taxable line_tax ≡ ok (net, gross)
        → AmountsLaw mode amount line_tax net gross taxable
    line_amounts-AmountsLaw group inclusive amount line_tax taxable {net} {gross} h =
        let (rounds, subs) = line_amounts-inclusive units amount line_tax taxable h in
        let (code, _, value) = round_ok units amount rounds in
        let (net_is, net_code, _) = sub_ok gross line_tax subs in
        record {
          adds_up =
              ap (λ t. d.add t line_tax.amount) net_is ∙ sub_add group gross.amount line_tax.amount;
          net_currency = net_code ∙ code;
          gross_currency = code;
          from_gross = λ _. value;
          from_net = λ e. absurd (cc);
        }
    line_amounts-AmountsLaw group exclusive amount line_tax taxable {net} {gross} h =
        let (rounds, adds) = line_amounts-exclusive units amount line_tax taxable h in
        let (code, _, value) =
          round_ok units (record { amount = taxable; currency = amount.currency }) rounds in
        let (gross_is, gross_code, _) = add_ok net line_tax adds in
        record {
          adds_up = sym gross_is;
          net_currency = code;
          gross_currency = gross_code ∙ code;
          from_gross = λ e. absurd (cc);
          from_net = λ _. value;
        }

  taxable_unrounded-exclusive :
      (mode : PricingMode) (rate gross : D)
      → mode ≡ exclusive
      → {taxable : D} → taxable_unrounded mode rate gross ≡ ok taxable
      → taxable ≡ gross
  unfolding taxable_unrounded
  taxable_unrounded-exclusive inclusive rate gross e h = absurd (cc)
  taxable_unrounded-exclusive exclusive rate gross e h = cc

  -- What the amounts of a line's result promise.
  pub record IsReconciled (units : MinorUnits) (line : TaxableLine D) (r : TaxLineResult D)
      : Type 0 where
    pub tax_is_total : r.total_tax.amount ≡ component_total r.components
    pub adds_up : d.add r.taxable_amount.amount r.total_tax.amount ≡ r.gross_amount.amount
    pub tax_currency : r.total_tax.currency ≡ line.amount.currency
    pub taxable_currency : r.taxable_amount.currency ≡ line.amount.currency
    pub gross_currency : r.gross_amount.currency ≡ line.amount.currency
    pub from_gross :
        line.pricing_mode ≡ inclusive
        → r.gross_amount.amount ≡ d.round line.amount.amount (digits_of units line.amount.currency)
    pub from_net :
        line.pricing_mode ≡ exclusive
        → r.taxable_amount.amount
          ≡ d.round line.amount.amount (digits_of units line.amount.currency)

  module _ (group : IsGroup D) (units : MinorUnits)
      (resolve : Uuid → String → String → Time → Result (TaxRateMaster D)) (org : Uuid)
      (date : Time) (line : TaxableLine D) (intra_state place_is_ut : Bool) {r : TaxLineResult D}
      (run : calculate_line units resolve org date line intra_state place_is_ut ≡ ok r) where
    tax-component_total :
        (r.total_tax.amount ≡ component_total r.components)
        × (r.total_tax.currency ≡ line.amount.currency)
    tax-component_total =
        let t = calculate_line-Trace units resolve org date line intra_state place_is_ut run in
        let (zero_is, code, _) = zero_money_ok units line.amount.currency t.started in
        let (total, code') = round_components-total units group _ t.zero_tax t.rounded in
        (
          total
              ∙ ap (λ z. d.add z (component_total r.components)) zero_is
              ∙ nought_add group (component_total r.components),
          code' ∙ code,
        )

    -- Whatever the line, the tax of a result is the sum of its components, its taxable amount and its
    -- tax make up its gross amount, and all three are in the line's currency. The gross amount of an
    -- inclusive line, and the taxable amount of an exclusive one, is the entered amount, rounded.
    pub calculate_line-IsReconciled : IsReconciled units line r
    calculate_line-IsReconciled =
        let t = calculate_line-Trace units resolve org date line intra_state place_is_ut run in
        let law =
          line_amounts-AmountsLaw units group line.pricing_mode line.amount r.total_tax t.taxable
            t.amounts in
        record {
          tax_is_total = tax-component_total.0;
          adds_up = law.adds_up;
          tax_currency = tax-component_total.1;
          taxable_currency = law.net_currency;
          gross_currency = law.gross_currency;
          from_gross = law.from_gross;
          from_net = λ e.
              law.from_net e
              ∙ ap (λ x. d.round x (digits_of units line.amount.currency))
                  (taxable_unrounded-exclusive line.pricing_mode _ line.amount.amount e
                    t.backed_out);
        }
