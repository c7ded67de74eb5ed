-- ===== src/Accounting/Operations.antt =====
-- The books after any sequence of the operations of internal/modules/accounting/app/service.go.
use billing_platform.Base.{◌≡◌, ap, ok, Bool, Uuid}
use billing_platform.Decimal.{Decimal, IsGroup, IsOrder}
use billing_platform.Money.{MinorUnits}
use billing_platform.Transaction.{Env, Principal, bind_ok, lift_ok}
use billing_platform.Accounting.CashTypes.{
  BankAccount, Receipt, Payment, Reconciliation, CreateBankAccountParams, RecordReceiptParams,
  RecordPaymentParams, RecordReconciliationParams, CreateFiscalPeriodParams,
}
use billing_platform.Accounting.Types.{FiscalPeriod, Journal, JournalRequest}
use billing_platform.Accounting.Books.{Books}
use billing_platform.Accounting.Posting.{post, post_tx}
use billing_platform.Accounting.Posting.Effect.{do_post-IsPosted}
use billing_platform.Accounting.Posting.Invariant.{IsBalanced, IsPosted-IsBalanced}
use billing_platform.Accounting.Cash.{
  record_receipt, record_payment, record_reconciliation, create_bank_account,
}
use billing_platform.Accounting.Periods.{
  ensure_default_chart_of_accounts, create_fiscal_period, set_period_lock,
}
use billing_platform.Accounting.Once.{PostsOnce, record_receipt-PostsOnce, record_payment-PostsOnce}
use billing_platform.Accounting.Kept.{
  lines_of, ensure_default_chart_of_accounts-Keeps, create_fiscal_period-Keeps,
  set_period_lock-Keeps, create_bank_account-Keeps, record_reconciliation-Keeps,
}

module _ {D : Type 0} ⦃d : Decimal D⦄ where
  -- A call of the service that succeeds.
  pub data Step (units : MinorUnits) (env : Env) (b b' : Books D) : Type 0 where
    posts :
        {j : Journal} (principal : Principal) (req : JournalRequest D)
        → post units env principal req b ≡ ok (j, b')
        → Step units env b b'
    posts_within :
        {j : Journal} (principal : Principal) (req : JournalRequest D)
        → post_tx units env principal req b ≡ ok (j, b')
        → Step units env b b'
    receives :
        {r : Receipt D} (principal : Principal) (p : RecordReceiptParams D)
        → record_receipt units env principal p b ≡ ok (r, b')
        → Step units env b b'
    pays :
        {r : Payment D} (principal : Principal) (p : RecordPaymentParams D)
        → record_payment units env principal p b ≡ ok (r, b')
        → Step units env b b'
    reconciles :
        {r : Reconciliation D} (principal : Principal) (p : RecordReconciliationParams D)
        → record_reconciliation units env principal p b ≡ ok (r, b')
        → Step units env b b'
    opens_account :
        {r : BankAccount} (principal : Principal) (p : CreateBankAccountParams)
        → create_bank_account env principal p b ≡ ok (r, b')
        → Step units env b b'
    opens_period :
        {r : FiscalPeriod} (principal : Principal) (p : CreateFiscalPeriodParams)
        → create_fiscal_period env principal p b ≡ ok (r, b')
        → Step units env b b'
    locks_period :
        {r : Unit {0}} (principal : Principal) (id : Uuid) (locked : Bool)
        → set_period_lock env principal id locked b ≡ ok (r, b')
        → Step units env b b'
    seeds_chart :
        {r : Unit {0}} (principal : Principal) (org : Uuid)
        → ensure_default_chart_of_accounts env principal org b ≡ ok (r, b')
        → Step units env b b'

  pub data Steps (units : MinorUnits) (env : Env) (b : Books D) : Books D → Type 0 where
    none_yet : Steps units env b b
    then_one : {c c' : Books D} → Steps units env b c → Step units env c c' → Steps units env b c'

  same_lines-IsBalanced : (b b' : Books D) → lines_of b' ≡ lines_of b → IsBalanced b → IsBalanced b'
  same_lines-IsBalanced b b' e v = record {
    sums_equal = rw e v.sums_equal;
    all_checked = rw e v.all_checked;
  }

  module _ (group : IsGroup D) (order : IsOrder D) (units : MinorUnits) (env : Env) where
    do_post-IsBalanced :
        (principal : Principal) (req : JournalRequest D) (b b' : Books D) {j : Journal}
        → post_tx units env principal req b ≡ ok (j, b')
        → IsBalanced b
        → IsBalanced b'
    unfolding post_tx
    do_post-IsBalanced principal req b b' {j} h =
        IsPosted-IsBalanced group units env principal req b b' j
          (do_post-IsPosted units env group order principal req b h)

    PostsOnce-IsBalanced :
        (principal : Principal) (req : JournalRequest D) (b b' : Books D)
        → PostsOnce units env principal req b b'
        → IsBalanced b
        → IsBalanced b'
    PostsOnce-IsBalanced principal req b b' p v = same_lines-IsBalanced p.after b' p.lines_after (
        do_post-IsBalanced principal req p.before p.after p.posted
          (same_lines-IsBalanced b p.before p.lines_before v))

    post-IsBalanced :
        (principal : Principal) (req : JournalRequest D) (b b' : Books D) {j : Journal}
        → post units env principal req b ≡ ok (j, b')
        → IsBalanced b
        → IsBalanced b'
    unfolding post post_tx
    post-IsBalanced principal req b b' h v =
        let (u, c, e, k) = bind_ok _ _ b h in
        do_post-IsBalanced principal req c b' k
          (same_lines-IsBalanced b c (ap lines_of (lift_ok _ b e).1) v)

    Step-IsBalanced : (b b' : Books D) → Step units env b b' → IsBalanced b → IsBalanced b'
    Step-IsBalanced b b' (posts principal req h) v = post-IsBalanced principal req b b' h v
    Step-IsBalanced b b' (posts_within principal req h) v =
        do_post-IsBalanced principal req b b' h v
    Step-IsBalanced b b' (receives {r} principal p h) v =
        PostsOnce-IsBalanced principal _ b b'
          (record_receipt-PostsOnce units env principal p b b' r h).1 v
    Step-IsBalanced b b' (pays {r} principal p h) v =
        PostsOnce-IsBalanced principal _ b b'
          (record_payment-PostsOnce units env principal p b b' r h).1 v
    Step-IsBalanced b b' (reconciles {r} principal p h) v =
        same_lines-IsBalanced b b' (record_reconciliation-Keeps units env principal p b b' r h) v
    Step-IsBalanced b b' (opens_account {r} principal p h) v =
        same_lines-IsBalanced b b' (create_bank_account-Keeps env principal p b b' r h) v
    Step-IsBalanced b b' (opens_period {r} principal p h) v =
        same_lines-IsBalanced b b' (create_fiscal_period-Keeps env principal p b b' r h) v
    Step-IsBalanced b b' (locks_period {r} principal id locked h) v =
        same_lines-IsBalanced b b' (set_period_lock-Keeps env principal id locked b b' r h) v
    Step-IsBalanced b b' (seeds_chart {r} principal org h) v =
        same_lines-IsBalanced b b'
          (ensure_default_chart_of_accounts-Keeps env principal org b b' r h) v

    -- From balanced books no sequence of successful calls of the service (posting on its own or in
    -- another transaction, receipts, payments, reconciliations, bank accounts, periods, locks, the
    -- default chart), by whatever principals, reaches books whose debits and credits differ in sum
    -- or that hold a line which the table's checks refuse.
    pub Steps-IsBalanced : {b c : Books D} → Steps units env b c → IsBalanced b → IsBalanced c
    Steps-IsBalanced none_yet v = v
    Steps-IsBalanced (then_one {c} {c'} r e) v = Step-IsBalanced c c' e (Steps-IsBalanced r v)
