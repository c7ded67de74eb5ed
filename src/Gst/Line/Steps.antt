-- ===== src/Gst/Line/Steps.antt =====
-- The rounding loop of `calculateLine`, a round at a time, and the two ways to its amounts.
use billing_platform.Base.{◌≡◌, List, ◌∷◌, ok, arith, Result-cases, inl, inr}
use billing_platform.Decimal.{Decimal}
use billing_platform.Money
use billing_platform.Money.{Money, MinorUnits, round_half_up, digits_of}
use billing_platform.Gst.Types.{inclusive, exclusive, TaxComponent}
use billing_platform.Gst.Line.{line_amounts, round_components}

module _ {D : Type 0} ⦃d : Decimal D⦄ where
  module _ (units : MinorUnits) where
    -- One round of the loop over the components.
    pub record LoopStep (c : TaxComponent D) (cs : List (TaxComponent D)) (start : Money D)
        (out : List (TaxComponent D)) (total : Money D) : Type 0 where
      pub rounded : Money D
      pub sum : Money D
      pub rest : List (TaxComponent D)
      pub rounds : Money.round units round_half_up c.amount ≡ ok rounded
      pub adds : Money.add start rounded ≡ ok sum
      pub continues : round_components units cs sum ≡ ok (rest, total)
      pub collects : out ≡ record c { amount = rounded } ∷ rest

    pub round_components-LoopStep :
        (c : TaxComponent D) (cs : List (TaxComponent D)) (start : Money D)
        {out : List (TaxComponent D)} {total : Money D}
        → round_components units (c ∷ cs) start ≡ ok (out, total)
        → LoopStep c cs start out total
    unfolding round_components
    round_components-LoopStep c cs start h =
        elim (Result-cases (Money.round units round_half_up c.amount)) [
          | inr (x, e) ↦ absurd (cc (rw e at h))
          | inl (rounded, e1) ↦
              let h1 = rw e1 at h in
              elim (Result-cases (Money.add start rounded)) [
                | inr (x, e) ↦ absurd (cc (rw e at h1))
                | inl (sum, e2) ↦
                    let h2 = rw e2 at h1 in
                    elim (Result-cases (round_components units cs sum)) [
                      | inr (x, e) ↦ absurd (cc (rw e at h2))
                      | inl ((rest, total), e3) ↦
                          let h3 = rw e3 at h2 in
                          record {
                            rounded = rounded;
                            sum = sum;
                            rest = rest;
                            rounds = e1;
                            adds = e2;
                            continues = cc;
                            collects = cc;
                          }
                    ]
              ]
        ]

    pub line_amounts-inclusive :
        (amount line_tax : Money D) (taxable : D) {net gross : Money D}
        → line_amounts units inclusive amount taxable line_tax ≡ ok (net, gross)
        → (Money.round units round_half_up amount ≡ ok gross) × (Money.sub gross line_tax ≡ ok net)
    unfolding line_amounts
    line_amounts-inclusive amount line_tax taxable h = ground arith

    pub line_amounts-exclusive :
        (amount line_tax : Money D) (taxable : D) {net gross : Money D}
        → line_amounts units exclusive amount taxable line_tax ≡ ok (net, gross)
        → (Money.round units round_half_up (record { amount = taxable; currency = amount.currency })
            ≡ ok net)
          × (Money.add net line_tax ≡ ok gross)
    unfolding line_amounts Money.new
    line_amounts-exclusive amount line_tax taxable h = ground arith
