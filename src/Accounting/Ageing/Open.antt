-- ===== src/Accounting/Ageing/Open.antt =====
-- The open debits of `GetAgeing`: what credits leave of them.
use mathlib.Core.Path.{ap₂}
use billing_platform.Base.{
  ◌≡◌, refl, sym, ap, ◌∙◌, ◌&&◌, not, ◌||◌, true, false, List, [], ◌∷◌, ◌++◌, All, Bool-cases, inl,
  inr, arith, leb,
}
use billing_platform.Decimal.{Decimal, IsGroup, IsOrder, is_positive, is_negative, is_zero}
use billing_platform.Decimal.Group.{
  nought_add, sub_self, sub_nought, sub_add, sub_add_comm, sub_sub, add_sub, add_left_comm,
}
use billing_platform.Accounting.Types.{LedgerRow}
use billing_platform.Accounting.Ledger.Closing.{rows_sum, after_row}
use billing_platform.Accounting.Ageing.{OpenDebit, consume, open_after, insert_open, order_open}

module _ {D : Type 0} ⦃d : Decimal D⦄ where
  abbrev AtMost : D → D → Type 0
  AtMost a b = d.less_than b a ≡ false

  abbrev pub open_sum : List (OpenDebit D) → D
  open_sum [] = d.nought
  open_sum ((date, amount) ∷ open_debits) = d.add amount (open_sum open_debits)

  -- A row of a line that passed the table's checks.
  abbrev pub IsChecked : LedgerRow D → Type 0
  IsChecked r =
      (not (is_negative r.debit.amount)
        && not (is_negative r.credit.amount)
        && not (is_positive r.debit.amount && is_positive r.credit.amount)
        && (is_positive r.debit.amount || is_positive r.credit.amount))
      ≡ true

  -- No balance that the rows lead to is negative.
  abbrev pub StaysUp : D → List (LedgerRow D) → Type 0
  StaysUp running [] = Unit {0}
  StaysUp running (r ∷ rows) =
      let balance = d.sub (d.add running r.debit.amount) r.credit.amount in
      (is_negative balance ≡ false) × StaysUp balance rows

  module _ (group : IsGroup D) (order : IsOrder D) where
    AtMost-antisym : (a b : D) → AtMost a b → AtMost b a → a ≡ b
    AtMost-antisym a b h k = order.lt_total a b k h

    below-AtMost : (a b : D) → d.less_than a b ≡ true → AtMost a b
    below-AtMost a b h = elim (Bool-cases (d.less_than b a)) [
      | inr e ↦ e
      | inl e ↦ absurd (cc (sym (order.lt_irrefl a) ∙ order.lt_trans a b a h e))
    ]

    nought-AtMost-sub : (a b : D) → AtMost a b → AtMost d.nought (d.sub b a)
    nought-AtMost-sub a b h = elim (Bool-cases (d.less_than (d.sub b a) d.nought)) [
      | inr e ↦ e
      | inl e ↦ absurd (
          cc (
            sym h
            ∙ sym (ap₂ d.less_than (sub_add group b a) (nought_add group a))
            ∙ order.add_lt_add (d.sub b a) d.nought a e))
    ]

    sub-AtMost : (a b c : D) → AtMost c (d.add a b) → AtMost (d.sub c a) b
    sub-AtMost a b c h = elim (Bool-cases (d.less_than b (d.sub c a))) [
      | inr e ↦ e
      | inl e ↦ absurd (
          cc (
            sym h
            ∙ sym (ap₂ d.less_than (group.add_comm b a) (sub_add group c a))
            ∙ order.add_lt_add b (d.sub c a) a e))
    ]

    AtMost-sub : (a b : D) → AtMost d.nought (d.sub b a) → AtMost a b
    AtMost-sub a b h = elim (Bool-cases (d.less_than b a)) [
      | inr e ↦ e
      | inl e ↦ absurd (
          cc (
            sym h
            ∙ ap₂ d.less_than (group.sub_add_neg b a) (sym (group.add_neg a))
            ∙ order.add_lt_add b a (d.neg a) e))
    ]

    add_sub_assoc : (a b c : D) → d.add a (d.sub b c) ≡ d.sub (d.add a b) c
    add_sub_assoc a b c =
        ap (d.add a) (group.sub_add_neg b c)
        ∙ sym (group.add_assoc a b (d.neg c))
        ∙ sym (group.sub_add_neg (d.add a b) c)

    consume-nought : (open_debits : List (OpenDebit D)) → consume d.nought open_debits ≡ open_debits
    unfolding consume
    consume-nought [] = refl
    consume-nought ((date, amount) ∷ open_debits) =
        rw (consume, (order.equal_iff d.nought d.nought).1 refl) refl

    -- A credit that the open debits cover lowers their sum by itself.
    consume-sum :
        (credit : D) (open_debits : List (OpenDebit D))
        → AtMost d.nought credit
        → AtMost credit (open_sum open_debits)
        → open_sum (consume credit open_debits) ≡ d.sub (open_sum open_debits) credit
    unfolding consume
    consume-sum credit [] low high =
        sym (sub_nought group d.nought)
        ∙ ap (d.sub d.nought) (AtMost-antisym d.nought credit low high)
    consume-sum credit ((date, amount) ∷ open_debits) low high =
        let rest = open_sum open_debits in
        elim (Bool-cases (is_zero credit)) [
          | inl e ↦
              rw (consume, e)
                (sym (sub_nought group _) ∙ ap (d.sub _) (sym ((order.equal_iff _ _).0 e)))
          | inr e ↦ elim (Bool-cases (is_zero amount)) [
            | inl e1 ↦
                let covered : AtMost credit rest =
                  ap (λ t. d.less_than t credit)
                    (sym (nought_add group rest)
                      ∙ ap (λ t. d.add t rest) (sym ((order.equal_iff _ _).0 e1)))
                  ∙ high in
                rw (consume, e, e1)
                  (ap (d.add amount) (consume-sum credit open_debits low covered)
                    ∙ add_sub_assoc amount rest credit)
            | inr e1 ↦ elim (Bool-cases (d.less_than credit amount)) [
              | inl e2 ↦
                  rw (consume, e, e1, e2)
                    (ap (λ t. d.add (d.sub amount credit) (open_sum t))
                        (ap (λ c. consume c open_debits) (sub_self group credit)
                          ∙ consume-nought open_debits)
                      ∙ sym (sub_add_comm group amount credit rest))
              | inr e2 ↦
                  let left : D = d.sub credit amount in
                  rw (consume, e, e1, e2)
                    (ap₂ d.add (sub_self group amount) (
                        consume-sum left open_debits (nought-AtMost-sub amount credit e2)
                          (sub-AtMost amount rest credit high))
                      ∙ nought_add group (d.sub rest left)
                      ∙ ap (λ t. d.sub t left)
                          (sym (add_sub group rest amount)
                            ∙ ap (λ t. d.sub t amount) (group.add_comm rest amount))
                      ∙ sym (sub_sub group (d.add amount rest) amount left)
                      ∙ ap (d.sub (d.add amount rest))
                          (group.add_comm amount left ∙ sub_add group credit amount))
            ]
          ]
        ]

    open_sum-append :
        (open_debits : List (OpenDebit D)) (o : OpenDebit D)
        → open_sum (open_debits ++ (o ∷ [])) ≡ d.add (open_sum open_debits) o.1
    open_sum-append [] o = group.add_comm o.1 d.nought
    open_sum-append (x ∷ open_debits) o =
        ap (d.add x.1) (open_sum-append open_debits o)
        ∙ sym (group.add_assoc x.1 (open_sum open_debits) o.1)

    IsChecked-credit :
        (r : LedgerRow D)
        → IsChecked r
        → is_positive r.debit.amount ≡ true
        → r.credit.amount ≡ d.nought
    IsChecked-credit r h e = order.lt_total r.credit.amount d.nought (ground arith) (ground arith)

    IsChecked-debit :
        (r : LedgerRow D)
        → IsChecked r
        → is_positive r.debit.amount ≡ false
        → (r.debit.amount ≡ d.nought) × AtMost d.nought r.credit.amount
    IsChecked-debit r h e = (order.lt_total r.debit.amount d.nought (ground arith) e, ground arith)

    -- While no balance is negative, the open debits have the balance as their sum.
    pub open_after-sum :
        (running : D) (open_debits : List (OpenDebit D)) (rows : List (LedgerRow D))
        → running ≡ open_sum open_debits
        → All IsChecked rows
        → StaysUp running rows
        → open_sum (open_after open_debits rows) ≡ d.add running (rows_sum rows)
    unfolding open_after
    open_after-sum running open_debits [] e checked up = sym e ∙ sym (group.add_nought running)
    open_after-sum running open_debits (r ∷ rows) e checked up =
        let debit = r.debit.amount in
        let credit = r.credit.amount in
        elim (Bool-cases (is_positive debit)) [
          | inl p ↦
              let longer : List (OpenDebit D) = open_debits ++ ((r.journal_date, debit) ∷ []) in
              let sum_is : d.sub (d.add running debit) credit ≡ open_sum longer =
                ap (d.sub (d.add running debit)) (IsChecked-credit r checked.0 p)
                ∙ sub_nought group (d.add running debit)
                ∙ ap (λ t. d.add t debit) e
                ∙ sym (open_sum-append open_debits (r.journal_date, debit)) in
              rw (open_after, p)
                (open_after-sum (d.sub (d.add running debit) credit) longer rows sum_is checked.1
                    up.1
                  ∙ after_row group running r rows)
          | inr p ↦
              let (no_debit, low) = IsChecked-debit r checked.0 p in
              let balance_is : d.sub (d.add running debit) credit
                  ≡ d.sub (open_sum open_debits) credit =
                ap (λ t. d.sub t credit)
                  (ap (d.add running) no_debit ∙ group.add_nought running ∙ e) in
              let covered : AtMost credit (open_sum open_debits) =
                AtMost-sub credit (open_sum open_debits) (ap is_negative (sym balance_is) ∙ up.0) in
              rw (open_after, p)
                (open_after-sum (d.sub (d.add running debit) credit) (consume credit open_debits)
                    rows (balance_is ∙ sym (consume-sum credit open_debits low covered)) checked.1
                    up.1
                  ∙ after_row group running r rows)
        ]

    insert_open-sum :
        (o : OpenDebit D) (open_debits : List (OpenDebit D))
        → open_sum (insert_open o open_debits) ≡ d.add o.1 (open_sum open_debits)
    unfolding insert_open
    insert_open-sum o [] = refl
    insert_open-sum o (x ∷ open_debits) = elim (Bool-cases (leb o.0 x.0)) [
      | inl e ↦ rw (insert_open, e) refl
      | inr e ↦
          rw (insert_open, e)
            (ap (d.add x.1) (insert_open-sum o open_debits)
              ∙ add_left_comm group x.1 o.1 (open_sum open_debits))
    ]

    pub order_open-sum :
        (open_debits : List (OpenDebit D))
        → open_sum (order_open open_debits) ≡ open_sum open_debits
    unfolding order_open
    order_open-sum [] = refl
    order_open-sum (o ∷ open_debits) =
        insert_open-sum o (order_open open_debits) ∙ ap (d.add o.1) (order_open-sum open_debits)
