-- ===== src/Accounting/Ageing/Bands.antt =====
-- The bands of an ageing bucket and its total, over the loop of `GetAgeing` that fills it.
use mathlib.Core.Path.{subst}
use billing_platform.Base.{
  ℕ, ◌≡◌, refl, sym, ap, ◌∙◌, List, [], ◌∷◌, ok, Time, leb, Bool-cases, Result-cases, inl, inr,
}
use billing_platform.Decimal.{Decimal, IsGroup, IsOrder, is_zero}
use billing_platform.Decimal.Group.{nought_add, add_right_comm}
use billing_platform.Money
use billing_platform.Money.{Money, MinorUnits}
use billing_platform.Money.Laws.{new_ok}
use billing_platform.Accounting.Types.{AgeingBucket}
use billing_platform.Accounting.Ageing.{
  OpenDebit, days_between, add_or_zero, add_to_bucket, fill_bucket,
}
use billing_platform.Accounting.Ageing.Open.{open_sum}

module _ {D : Type 0} ⦃d : Decimal D⦄ where
  abbrev IsRupees : Money D → Type 0
  IsRupees m = m.currency ≡ "INR"

  abbrev pub bands_sum : AgeingBucket D → D
  bands_sum bucket =
      d.add
        (d.add
          (d.add (d.add bucket.current.amount bucket.days1_to30.amount) bucket.days31_to60.amount)
          bucket.days61_to90.amount)
        bucket.days90_plus.amount

  -- Every band is in rupees, and their sum is the total.
  abbrev pub IsSummed : AgeingBucket D → Type 0
  IsSummed bucket =
      IsRupees bucket.current
      × IsRupees bucket.days1_to30
      × IsRupees bucket.days31_to60
      × IsRupees bucket.days61_to90
      × IsRupees bucket.days90_plus
      × IsRupees bucket.total
      × (bucket.total.amount ≡ bands_sum bucket)

  add_or_zero-rupees :
      (m o : Money D)
      → IsRupees m
      → IsRupees o
      → add_or_zero m o ≡ record { amount = d.add m.amount o.amount; currency = "INR" }
  unfolding Money.add Money.same_currency
  add_or_zero-rupees m o h k = rw (h, k) refl

  module _ (group : IsGroup D) where
    abbrev Adds : AgeingBucket D → Money D → AgeingBucket D → Type 0
    Adds bucket amount after =
        IsSummed after × (after.total.amount ≡ d.add bucket.total.amount amount.amount)

    abbrev over : (u v x : D) → u ≡ d.add v x → (w : D) → d.add u w ≡ d.add (d.add v w) x
    over u v x h w = ap (λ t. d.add t w) h ∙ add_right_comm group v x w

    add_to_bucket-Adds :
        (bucket : AgeingBucket D) (days : ℕ) (amount : Money D)
        → IsSummed bucket
        → IsRupees amount
        → Adds bucket amount (add_to_bucket bucket days amount)
    unfolding add_to_bucket
    add_to_bucket-Adds bucket days amount (c, c1, c2, c3, c4, t, summed) k =
        let x = amount.amount in
        let a = bucket.current.amount in
        let a1 = bucket.days1_to30.amount in
        let a2 = bucket.days31_to60.amount in
        let a3 = bucket.days61_to90.amount in
        let a4 = bucket.days90_plus.amount in
        let total = add_or_zero-rupees bucket.total amount t k in
        let sum = ap (λ s. d.add s x) summed in
        elim (Bool-cases (leb days 0)) [
          | inl e ↦
              rw (add_to_bucket, e, total, add_or_zero-rupees bucket.current amount c k)
                (
                  (
                    refl,
                    c1,
                    c2,
                    c3,
                    c4,
                    refl,
                    sum ∙ sym (over _ _ x (over _ _ x (over _ _ x (over _ _ x refl a1) a2) a3) a4),
                  ),
                  refl,
                )
          | inr e ↦ elim (Bool-cases (leb days 30)) [
            | inl e1 ↦
                rw (add_to_bucket, e, e1, total, add_or_zero-rupees bucket.days1_to30 amount c1 k)
                  (
                    (
                      c,
                      refl,
                      c2,
                      c3,
                      c4,
                      refl,
                      sum
                          ∙ sym (
                              over _ _ x
                                (over _ _ x (over _ _ x (sym (group.add_assoc a a1 x)) a2) a3) a4),
                    ),
                    refl,
                  )
            | inr e1 ↦ elim (Bool-cases (leb days 60)) [
              | inl e2 ↦
                  rw
                    (
                      add_to_bucket,
                      e,
                      e1,
                      e2,
                      total,
                      add_or_zero-rupees bucket.days31_to60 amount c2 k,
                    )
                    (
                      (
                        c,
                        c1,
                        refl,
                        c3,
                        c4,
                        refl,
                        sum ∙ sym (over _ _ x (over _ _ x (sym (group.add_assoc _ a2 x)) a3) a4),
                      ),
                      refl,
                    )
              | inr e2 ↦ elim (Bool-cases (leb days 90)) [
                | inl e3 ↦
                    rw
                      (
                        add_to_bucket,
                        e,
                        e1,
                        e2,
                        e3,
                        total,
                        add_or_zero-rupees bucket.days61_to90 amount c3 k,
                      )
                      (
                        (
                          c,
                          c1,
                          c2,
                          refl,
                          c4,
                          refl,
                          sum ∙ sym (over _ _ x (sym (group.add_assoc _ a3 x)) a4),
                        ),
                        refl,
                      )
                | inr e3 ↦
                    rw
                      (
                        add_to_bucket,
                        e,
                        e1,
                        e2,
                        e3,
                        total,
                        add_or_zero-rupees bucket.days90_plus amount c4 k,
                      )
                      ((c, c1, c2, c3, refl, refl, sum ∙ group.add_assoc _ a4 x), refl)
              ]
            ]
          ]
        ]

    -- The loop keeps the sum, and adds up the amounts.
    pub fill_bucket-IsSummed :
        (order : IsOrder D) (units : MinorUnits) (as_of : Time) (bucket : AgeingBucket D)
        (open_debits : List (OpenDebit D)) {after : AgeingBucket D}
        → IsSummed bucket
        → fill_bucket units as_of bucket open_debits ≡ ok after
        → IsSummed after × (after.total.amount ≡ d.add bucket.total.amount (open_sum open_debits))
    unfolding fill_bucket
    fill_bucket-IsSummed order units as_of bucket [] v h =
        subst (λ r. IsSummed r × (r.total.amount ≡ d.add bucket.total.amount d.nought)) (cc h)
          (v, sym (group.add_nought bucket.total.amount))
    fill_bucket-IsSummed order units as_of bucket ((date, amount) ∷ open_debits) v h =
        elim (Bool-cases (is_zero amount)) [
          | inl e ↦
              let (w, sum) =
                fill_bucket-IsSummed order units as_of bucket open_debits v
                  (rw (fill_bucket, e) at h) in
              (
                w,
                sum
                    ∙ ap (d.add bucket.total.amount) (
                        sym (nought_add group (open_sum open_debits))
                        ∙ ap (λ t. d.add t (open_sum open_debits))
                            (sym ((order.equal_iff amount d.nought).0 e))),
              )
          | inr e ↦ elim (Result-cases (Money.new units amount "INR")) [
            | inr (x, e1) ↦ absurd (cc (rw (fill_bucket, e, e1) at h))
            | inl (shown, e1) ↦
                let (amount_is, code_is, known) = new_ok units amount "INR" e1 in
                let next = add_to_bucket bucket (days_between as_of date) shown in
                let (w, added) =
                  add_to_bucket-Adds bucket (days_between as_of date) shown v code_is in
                let (u, sum) =
                  fill_bucket-IsSummed order units as_of next open_debits w
                    (rw (fill_bucket, e, e1) at h) in
                (
                  u,
                  sum
                      ∙ ap (λ t. d.add t (open_sum open_debits))
                          (added ∙ ap (d.add bucket.total.amount) amount_is)
                      ∙ group.add_assoc bucket.total.amount amount (open_sum open_debits),
                )
          ]
        ]
