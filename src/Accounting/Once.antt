-- ===== src/Accounting/Once.antt =====
-- Receipts and payments post one journal: the steps before and after it leave the lines.
use billing_platform.Base.{◌≡◌, ap, ◌∙◌, ok, String}
use billing_platform.Decimal.{Decimal}
use billing_platform.Money.{MinorUnits}
use billing_platform.Transaction.{Env, Principal, bind_ok, lift_ok, require_ok, Keeps-pure}
use billing_platform.Accounting.CashTypes.{
  Receipt, Payment, RecordReceiptParams, RecordPaymentParams,
}
use billing_platform.Accounting.Types.{Journal, JournalRequest}
use billing_platform.Accounting.Books.{Books}
use billing_platform.Accounting.Posting.{post_tx}
use billing_platform.Accounting.Cash.{
  receipt_request, payment_request, record_receipt, record_payment,
}
use billing_platform.Accounting.Kept.{
  lines_of, draw_id-Keeps, create_receipt-Keeps, create_payment-Keeps,
}

module _ {D : Type 0} ⦃d : Decimal D⦄ (units : MinorUnits) (env : Env) where
  -- The lines of the books change as by one posting of the request.
  pub record PostsOnce (principal : Principal) (req : JournalRequest D) (b b' : Books D)
      : Type 0 where
    pub before : Books D
    pub after : Books D
    pub journal : Journal
    pub posted : post_tx units env principal req before ≡ ok (journal, after)
    pub lines_before : before.lines ≡ b.lines
    pub lines_after : b'.lines ≡ after.lines

  pub record_receipt-PostsOnce :
      (principal : Principal) (p : RecordReceiptParams D) (b b' : Books D) (r : Receipt D)
      → record_receipt units env principal p b ≡ ok (r, b')
      → (code : String) × PostsOnce principal (receipt_request units env principal code p) b b'
  unfolding record_receipt
  record_receipt-PostsOnce principal p b b' r h =
      let (u1, b1, e1, h1) = bind_ok _ _ b h in
      let (u2, b2, e2, h2) = bind_ok _ _ b1 h1 in
      let (code, b3, e3, h3) = bind_ok _ _ b2 h2 in
      let (j, b4, e4, h4) = bind_ok _ _ b3 h3 in
      let (id, b5, e5, h5) = bind_ok _ _ b4 h4 in
      let (amount, b6, e6, h6) = bind_ok _ _ b5 h5 in
      let (u7, b7, e7, h7) = bind_ok _ _ b6 h6 in
      (
        code,
        record {
          before = b3;
          after = b4;
          journal = j;
          posted = e4;
          lines_before =
              ap lines_of ((lift_ok _ b2 e3).1 ∙ (require_ok _ _ b1 e2).1 ∙ (lift_ok _ b e1).1);
          lines_after =
              Keeps-pure lines_of _ b7 b' r h7
              ∙ create_receipt-Keeps _ b6 b7 u7 e7
              ∙ ap lines_of (lift_ok _ b5 e6).1
              ∙ draw_id-Keeps env b4 b5 id e5;
        },
      )

  pub record_payment-PostsOnce :
      (principal : Principal) (p : RecordPaymentParams D) (b b' : Books D) (r : Payment D)
      → record_payment units env principal p b ≡ ok (r, b')
      → (code : String) × PostsOnce principal (payment_request units env principal code p) b b'
  unfolding record_payment
  record_payment-PostsOnce principal p b b' r h =
      let (u1, b1, e1, h1) = bind_ok _ _ b h in
      let (u2, b2, e2, h2) = bind_ok _ _ b1 h1 in
      let (code, b3, e3, h3) = bind_ok _ _ b2 h2 in
      let (j, b4, e4, h4) = bind_ok _ _ b3 h3 in
      let (id, b5, e5, h5) = bind_ok _ _ b4 h4 in
      let (amount, b6, e6, h6) = bind_ok _ _ b5 h5 in
      let (u7, b7, e7, h7) = bind_ok _ _ b6 h6 in
      (
        code,
        record {
          before = b3;
          after = b4;
          journal = j;
          posted = e4;
          lines_before =
              ap lines_of ((lift_ok _ b2 e3).1 ∙ (require_ok _ _ b1 e2).1 ∙ (lift_ok _ b e1).1);
          lines_after =
              Keeps-pure lines_of _ b7 b' r h7
              ∙ create_payment-Keeps _ b6 b7 u7 e7
              ∙ ap lines_of (lift_ok _ b5 e6).1
              ∙ draw_id-Keeps env b4 b5 id e5;
        },
      )
