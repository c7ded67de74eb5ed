-- ===== src/Gst/Line/Settled.antt =====
-- The amounts of one line are whole numbers of the currency's minor unit.
use billing_platform.Base.{◌≡◌, ap, ◌∙◌, Bool, List, [], ◌∷◌, String, ok, Result, Uuid, Time, All}
use billing_platform.Base.Int.{ℤ}
use billing_platform.Decimal.{Decimal, IsGroup, IsRounding}
use billing_platform.Money
use billing_platform.Money.{Money, MinorUnits, round_half_up, digits_of}
use billing_platform.Money.Laws.{add_ok, sub_ok, round_ok, zero_money_ok}
use billing_platform.Gst.Types.{
  PricingMode, inclusive, exclusive, TaxableLine, TaxComponent, TaxLineResult, TaxRateMaster,
}
use billing_platform.Gst.Line.{round_components, line_amounts, calculate_line}
use billing_platform.Gst.Line.Trace.{calculate_line-Trace}
use billing_platform.Gst.Line.Steps.{
  round_components-LoopStep, line_amounts-inclusive, line_amounts-exclusive,
}

module _ {D : Type 0} ⦃d : Decimal D⦄ where
  -- The amount has no more places than the minor unit of its own currency.
  abbrev pub IsSettled : MinorUnits → Money D → Type 0
  IsSettled units m = d.round m.amount (digits_of units m.currency) ≡ m.amount

  abbrev pub IsSettledComponent : MinorUnits → TaxComponent D → Type 0
  IsSettledComponent units c = IsSettled units c.amount

  module _ (group : IsGroup D) (rounding : IsRounding D) (units : MinorUnits) where
    round-sub :
        (a b : D) (p : ℤ) → d.round a p ≡ a → d.round b p ≡ b → d.round (d.sub a b) p ≡ d.sub a b
    round-sub a b p ha hb =
        rw group.sub_add_neg
          (rounding.round-add a (d.neg b) p ha (rounding.round-neg b p ∙ ap d.neg hb))

    -- Settledness of a result from the amounts and the currencies that made it.
    IsSettled-at :
        (m : Money D) {a : D} {code : String}
        → m.amount ≡ a
        → m.currency ≡ code
        → d.round a (digits_of units code) ≡ a
        → IsSettled units m
    IsSettled-at m amount_is code h = rw (amount_is, code) h

    pub round-IsSettled :
        (m : Money D) {r : Money D} → Money.round units round_half_up m ≡ ok r → IsSettled units r
    round-IsSettled m {r} h =
        let (code, _, value) = round_ok units m h in
        IsSettled-at r value code (rounding.round_idem m.amount (digits_of units m.currency))

    pub add-IsSettled :
        (m n : Money D) {r : Money D}
        → Money.add m n ≡ ok r
        → IsSettled units m
        → IsSettled units n
        → IsSettled units r
    add-IsSettled m n {r} h hm hn =
        let (value, code, same) = add_ok m n h in
        IsSettled-at r value code (rounding.round-add m.amount n.amount _ hm (rw same at hn))

    sub-IsSettled :
        (m n : Money D) {r : Money D}
        → Money.sub m n ≡ ok r
        → IsSettled units m
        → IsSettled units n
        → IsSettled units r
    sub-IsSettled m n {r} h hm hn =
        let (value, code, same) = sub_ok m n h in
        IsSettled-at r value code (round-sub m.amount n.amount _ hm (rw same at hn))

    round_components-IsSettled :
        (cs : List (TaxComponent D)) (start : Money D) {out : List (TaxComponent D)}
        {total : Money D}
        → round_components units cs start ≡ ok (out, total)
        → IsSettled units start
        → All (IsSettledComponent units) out × IsSettled units total
    unfolding round_components
    round_components-IsSettled [] start {out} {total} h hs =
        let e : out ≡ [] = cc in let f : total ≡ start = cc in rw (e, f) (tt, hs)
    round_components-IsSettled (c ∷ cs) start {out} {total} h hs =
        let s = round_components-LoopStep units c cs start h in
        let first = round-IsSettled c.amount s.rounds in
        let (rest, done) =
          round_components-IsSettled cs s.sum s.continues
            (add-IsSettled start s.rounded s.adds hs first) in
        (rw s.collects (first, rest), done)

    line_amounts-IsSettled :
        (mode : PricingMode) (amount line_tax : Money D) (taxable : D) {net gross : Money D}
        → line_amounts units mode amount taxable line_tax ≡ ok (net, gross)
        → IsSettled units line_tax
        → IsSettled units net × IsSettled units gross
    line_amounts-IsSettled inclusive amount line_tax taxable {net} {gross} h ht =
        let (rounds, subs) = line_amounts-inclusive units amount line_tax taxable h in
        let first = round-IsSettled amount rounds in
        (sub-IsSettled gross line_tax subs first ht, first)
    line_amounts-IsSettled exclusive amount line_tax taxable {net} {gross} h ht =
        let (rounds, adds) = line_amounts-exclusive units amount line_tax taxable h in
        let first =
          round-IsSettled (record { amount = taxable; currency = amount.currency }) rounds in
        (first, add-IsSettled net line_tax adds first ht)

    -- Every amount of a line's result, each component's included, has no more places than the minor
    -- unit of its currency, whatever the rates and the entered amount.
    pub calculate_line-IsSettled :
        (resolve : Uuid → String → String → Time → Result (TaxRateMaster D)) (org : Uuid)
        (date : Time) (line : TaxableLine D) (intra_state place_is_ut : Bool) {r : TaxLineResult D}
        → calculate_line units resolve org date line intra_state place_is_ut ≡ ok r
        → All (IsSettledComponent units) r.components
          × IsSettled units r.total_tax
          × IsSettled units r.taxable_amount
          × IsSettled units r.gross_amount
    calculate_line-IsSettled resolve org date line intra_state place_is_ut {r} run =
        let t = calculate_line-Trace units resolve org date line intra_state place_is_ut run in
        let (zero_is, code, _) = zero_money_ok units line.amount.currency t.started in
        let (parts, tax) =
          round_components-IsSettled _ t.zero_tax t.rounded
            (IsSettled-at t.zero_tax zero_is code (rounding.round_nought _)) in
        let (net, gross) =
          line_amounts-IsSettled line.pricing_mode line.amount r.total_tax t.taxable t.amounts
            tax in
        (parts, tax, net, gross)
