-- ===== src/Accounting/Parties.antt =====
-- What receipts and payments do to the balances of the parties.
use mathlib.Core.Path.{ap₂}
use billing_platform.Base.{
  ◌≡◌, refl, sym, ap, ◌∙◌, List, [], ◌∷◌, ◌++◌, String, if◌then◌else◌, ok, Uuid, Bool-cases, inl,
  inr, ◌==◌, Pairs,
}
use billing_platform.Decimal.{Decimal, IsGroup, IsOrder}
use billing_platform.Decimal.Group.{nought_add, sub_nought}
use billing_platform.Money.{MinorUnits}
use billing_platform.Transaction.{Env, Principal}
use billing_platform.Accounting.CashTypes.{
  Receipt, Payment, RecordReceiptParams, RecordPaymentParams,
}
use billing_platform.Accounting.Types.{
  Account, Journal, JournalLine, JournalLineRequest, JournalRequest,
}
use billing_platform.Accounting.Books.{Books}
use billing_platform.Accounting.Posting.{post_tx}
use billing_platform.Accounting.Posting.Lines.{IsStored}
use billing_platform.Accounting.Posting.Effect.{IsPosted, do_post-IsPosted}
use billing_platform.Accounting.Cash.{
  receipt_lines, payment_lines, receipt_request, payment_request, record_receipt, record_payment,
}
use billing_platform.Accounting.Ledger.{is_party}
use billing_platform.Accounting.Once.{PostsOnce, record_receipt-PostsOnce, record_payment-PostsOnce}

module _ {D : Type 0} ⦃d : Decimal D⦄ where
  -- What a line adds to what the party owes: the debit less the credit.
  abbrev pub party_amount : Uuid → JournalLine D → D
  party_amount party l =
      if is_party l.party_id party then d.sub l.debit.amount l.credit.amount else d.nought

  abbrev pub party_balance : Uuid → List (JournalLine D) → D
  party_balance party [] = d.nought
  party_balance party (l ∷ lines) = d.add (party_amount party l) (party_balance party lines)

  -- What requested lines add to it.
  abbrev pub requested_amount : Uuid → JournalLineRequest D → D
  requested_amount party l = if is_party l.party_id party then d.sub l.debit l.credit else d.nought

  abbrev pub requested_balance : Uuid → List (JournalLineRequest D) → D
  requested_balance party [] = d.nought
  requested_balance party (l ∷ ls) = d.add (requested_amount party l) (requested_balance party ls)

  Pairs-party_balance :
      (party org journal_id : Uuid) (accounts : List Account) (ls : List (JournalLineRequest D))
      (lines : List (JournalLine D))
      → Pairs (IsStored org journal_id accounts) ls lines
      → party_balance party lines ≡ requested_balance party ls
  Pairs-party_balance party org journal_id accounts [] [] h = refl
  Pairs-party_balance party org journal_id accounts (l ∷ ls) (x ∷ lines) h =
      ap₂ d.add
        (ap (λ of. if is_party of party then d.sub x.debit.amount x.credit.amount else d.nought)
            h.0.of_party
          ∙ ap₂ (λ (v w : D). if is_party l.party_id party then d.sub v w else d.nought)
              h.0.debit_is h.0.credit_is)
        (Pairs-party_balance party org journal_id accounts ls lines h.1)
  Pairs-party_balance party org journal_id accounts [] (x ∷ lines) h = absurd h
  Pairs-party_balance party org journal_id accounts (l ∷ ls) [] h = absurd h

  module _ (group : IsGroup D) where
    party_balance-append :
        (party : Uuid) (xs ys : List (JournalLine D))
        → party_balance party (xs ++ ys) ≡ d.add (party_balance party xs) (party_balance party ys)
    party_balance-append party [] ys = sym (nought_add group (party_balance party ys))
    party_balance-append party (x ∷ xs) ys =
        ap (d.add (party_amount party x)) (party_balance-append party xs ys)
        ∙ sym (group.add_assoc _ _ _)

    -- A posted journal adds to a party's balance what its requested lines say.
    pub IsPosted-party_balance :
        (units : MinorUnits) (env : Env) (principal : Principal) (req : JournalRequest D)
        (b b' : Books D) (j : Journal) (party : Uuid)
        → IsPosted units env principal req b b' j
        → party_balance party b'.lines
          ≡ d.add (party_balance party b.lines) (requested_balance party req.lines)
    IsPosted-party_balance units env principal req b b' j party p =
        ap (party_balance party) p.appended
        ∙ party_balance-append party b.lines p.added
        ∙ ap (d.add (party_balance party b.lines)) (
            Pairs-party_balance party req.organisation_id j.id b.accounts req.lines p.added
              p.stored)

    -- The party of a receipt, and of a payment, and no other, is credited or debited.
    requested-receipt :
        (party : Uuid) (code : String) (p : RecordReceiptParams D)
        → requested_balance party (receipt_lines code p)
          ≡ (if p.party_id == party then d.neg p.amount else d.nought)
    unfolding is_party
    requested-receipt party code p = elim (Bool-cases (p.party_id == party)) [
      | inl e ↦
          rw
            (
              requested_amount,
              is_party,
              e,
              nought_add group,
              group.add_nought,
              group.sub_add_neg,
              nought_add group,
            )
            refl
      | inr e ↦ rw (requested_amount, is_party, e, nought_add group, group.add_nought) refl
    ]

    requested-payment :
        (party : Uuid) (code : String) (p : RecordPaymentParams D)
        → requested_balance party (payment_lines code p)
          ≡ (if p.party_id == party then p.amount else d.nought)
    unfolding is_party
    requested-payment party code p = elim (Bool-cases (p.party_id == party)) [
      | inl e ↦
          rw (requested_amount, is_party, e, sub_nought group, group.add_nought, group.add_nought)
            refl
      | inr e ↦ rw (requested_amount, is_party, e, group.add_nought, group.add_nought) refl
    ]

    module _ (order : IsOrder D) (units : MinorUnits) (env : Env) where
      PostsOnce-party_balance :
          (principal : Principal) (req : JournalRequest D) (b b' : Books D) (party : Uuid)
          → PostsOnce units env principal req b b'
          → party_balance party b'.lines
            ≡ d.add (party_balance party b.lines) (requested_balance party req.lines)
      unfolding post_tx
      PostsOnce-party_balance principal req b b' party p =
          ap (party_balance party) p.lines_after
          ∙ IsPosted-party_balance units env principal req p.before p.after p.journal party
              (do_post-IsPosted units env group order principal req p.before p.posted)
          ∙ ap (λ lines. d.add (party_balance party lines) (requested_balance party req.lines))
              p.lines_before

      -- A recorded receipt lowers the balance of its party over the journal lines by its amount
      -- and leaves the balance of every other party as it was.
      pub record_receipt-party_balance :
          (principal : Principal) (p : RecordReceiptParams D) (b b' : Books D) (r : Receipt D)
          (party : Uuid)
          → record_receipt units env principal p b ≡ ok (r, b')
          → party_balance party b'.lines
            ≡ d.add
                (party_balance party b.lines)
                (if p.party_id == party then d.neg p.amount else d.nought)
      record_receipt-party_balance principal p b b' r party h =
          let (code, once) = record_receipt-PostsOnce units env principal p b b' r h in
          PostsOnce-party_balance principal (receipt_request units env principal code p) b b' party
            once
          ∙ ap (d.add (party_balance party b.lines)) (requested-receipt party code p)

      -- A recorded payment raises the balance of its party over the journal lines by its amount
      -- and leaves the balance of every other party as it was.
      pub record_payment-party_balance :
          (principal : Principal) (p : RecordPaymentParams D) (b b' : Books D) (r : Payment D)
          (party : Uuid)
          → record_payment units env principal p b ≡ ok (r, b')
          → party_balance party b'.lines
            ≡ d.add
                (party_balance party b.lines)
                (if p.party_id == party then p.amount else d.nought)
      record_payment-party_balance principal p b b' r party h =
          let (code, once) = record_payment-PostsOnce units env principal p b b' r h in
          PostsOnce-party_balance principal (payment_request units env principal code p) b b' party
            once
          ∙ ap (d.add (party_balance party b.lines)) (requested-payment party code p)
