-- ===== src/Accounting/Cash.antt =====
-- Receipts, payments, bank accounts and reconciliations of
-- internal/modules/accounting/app/service.go.
use billing_platform.Base.{
  true, Option, none, some, List, [], ◌∷◌, String, str_eq, if◌then◌else◌, Result, ok, err,
  amount_not_positive, not_found, Uuid, Time, ◌==◌, ◌<>◌,
}
use billing_platform.Decimal.{Decimal, is_positive}
use billing_platform.Money
use billing_platform.Money.{Money, MinorUnits}
use billing_platform.Transaction.{Action, Env, Principal, ◌>>=◌, ◌>>◌, pure, lift, require_that}
use billing_platform.Accounting.CashTypes.{
  BankAccount, bank_account, cash_account, Receipt, Payment, Reconciliation, RecordReceiptParams,
  RecordPaymentParams, CreateBankAccountParams, RecordReconciliationParams,
}
use billing_platform.Accounting.Types.{JournalLineRequest, JournalRequest}
use billing_platform.Accounting.Books.{Books, draw_id, get_by_code}
use billing_platform.Accounting.Posting.{post_tx}
use billing_platform.Accounting.Rows.{
  find_account_by_id, find_bank_account, create_receipt, create_payment, create_bank_account_row,
  create_reconciliation,
}

abbrev pub code_cash : String
code_cash = "1000"

abbrev pub code_bank : String
code_bank = "1010"

abbrev pub code_accounts_receivable : String
code_accounts_receivable = "1100"

abbrev pub code_accounts_payable : String
code_accounts_payable = "2000"

abbrev pub now_if_zero : Env → Time → Time
now_if_zero env t = if t == 0 then env.now else t

-- The code of a new bank account's ledger account.
unfoldable pub gl_code : CreateBankAccountParams → String
gl_code p =
    if str_eq p.gl_account_code ""
    then elim p.kind [ cash_account ↦ code_cash | bank_account ↦ code_bank ]
    else p.gl_account_code

-- The code of a bank account's ledger account, or that of cash if none is named.
unfoldable pub cash_code : {D : Type 0} → Uuid → Option Uuid → Books D → Result String
cash_code org none b = ok code_cash
cash_code org (some id) b = elim (find_bank_account org id b.bank_accounts) [
  | none ↦ err not_found
  | some ba ↦ elim (find_account_by_id org ba.gl_account_id b.accounts) [
    | none ↦ err not_found
    | some acct ↦ ok acct.code
  ]
]

module _ {D : Type 0} (env : Env) where
  unfoldable pub create_bank_account :
      Principal → CreateBankAccountParams → Action (Books D) BankAccount
  unfolding gl_code
  create_bank_account principal p = do
    lift (env.require principal "accounting.post")
    id ← draw_id env
    acct ← get_by_code principal.organisation_id (gl_code p)
    let b : BankAccount = record {
      id = id;
      organisation_id = principal.organisation_id;
      legal_entity_id = p.legal_entity_id;
      name = p.name;
      kind = p.kind;
      account_number = p.account_number;
      bank_name = p.bank_name;
      ifsc_code = p.ifsc_code;
      currency_code = p.currency_code;
      gl_account_id = acct.id;
      is_active = true;
      created_at = env.now;
    }
    create_bank_account_row b
    pure b

module _ {D : Type 0} ⦃d : Decimal D⦄ where
  -- The journal lines of a receipt, and of a payment.
  abbrev pub receipt_lines : String → RecordReceiptParams D → List (JournalLineRequest D)
  receipt_lines code p =
      record {
        account_code = code;
        party_id = none;
        debit = p.amount;
        credit = d.nought;
        description = "Receipt";
      }
      ∷ record {
        account_code = code_accounts_receivable;
        party_id = some p.party_id;
        debit = d.nought;
        credit = p.amount;
        description = "Receipt applied to AR";
      }
      ∷ []

  abbrev pub payment_lines : String → RecordPaymentParams D → List (JournalLineRequest D)
  payment_lines code p =
      record {
        account_code = code_accounts_payable;
        party_id = some p.party_id;
        debit = p.amount;
        credit = d.nought;
        description = "Payment applied to AP";
      }
      ∷ record {
        account_code = code;
        party_id = none;
        debit = d.nought;
        credit = p.amount;
        description = "Payment";
      }
      ∷ []

module _ {D : Type 0} ⦃d : Decimal D⦄ (units : MinorUnits) (env : Env) where
  abbrev pub receipt_request : Principal → String → RecordReceiptParams D → JournalRequest D
  receipt_request principal code p = record {
    organisation_id = principal.organisation_id;
    source_type = "receipt";
    source_id = none;
    journal_date = now_if_zero env p.received_at;
    description = "Receipt from party " <> env.uuid_text p.party_id;
    created_by = principal.user_id;
    lines = receipt_lines code p;
  }

  unfoldable pub record_receipt : Principal → RecordReceiptParams D → Action (Books D) (Receipt D)
  record_receipt principal p = do
    lift (env.require principal "accounting.post")
    require_that (is_positive p.amount) amount_not_positive
    code ← λ b. lift (cash_code principal.organisation_id p.bank_account_id b) b
    j ← post_tx units env principal (receipt_request principal code p)
    id ← draw_id env
    amount ← lift (Money.new units p.amount "INR")
    let rec : Receipt D = record {
      id = id;
      organisation_id = principal.organisation_id;
      party_id = p.party_id;
      sales_document_id = p.sales_document_id;
      amount = amount;
      bank_account_id = p.bank_account_id;
      method = p.method;
      reference_number = p.reference_number;
      received_at = now_if_zero env p.received_at;
      journal_id = j.id;
      created_by = principal.user_id;
      created_at = env.now;
    }
    create_receipt rec
    pure rec

  abbrev pub payment_request : Principal → String → RecordPaymentParams D → JournalRequest D
  payment_request principal code p = record {
    organisation_id = principal.organisation_id;
    source_type = "payment";
    source_id = none;
    journal_date = now_if_zero env p.paid_at;
    description = "Payment to party " <> env.uuid_text p.party_id;
    created_by = principal.user_id;
    lines = payment_lines code p;
  }

  unfoldable pub record_payment : Principal → RecordPaymentParams D → Action (Books D) (Payment D)
  record_payment principal p = do
    lift (env.require principal "accounting.post")
    require_that (is_positive p.amount) amount_not_positive
    code ← λ b. lift (cash_code principal.organisation_id p.bank_account_id b) b
    j ← post_tx units env principal (payment_request principal code p)
    id ← draw_id env
    amount ← lift (Money.new units p.amount "INR")
    let pay : Payment D = record {
      id = id;
      organisation_id = principal.organisation_id;
      party_id = p.party_id;
      purchase_document_id = p.purchase_document_id;
      amount = amount;
      bank_account_id = p.bank_account_id;
      method = p.method;
      reference_number = p.reference_number;
      paid_at = now_if_zero env p.paid_at;
      journal_id = j.id;
      created_by = principal.user_id;
      created_at = env.now;
    }
    create_payment pay
    pure pay

  unfoldable pub record_reconciliation :
      Principal → RecordReconciliationParams D → Action (Books D) (Reconciliation D)
  record_reconciliation principal p = do
    lift (env.require principal "accounting.reconcile")
    id ← draw_id env
    opening ← lift (Money.new units p.opening_balance "INR")
    closing ← lift (Money.new units p.closing_balance "INR")
    let rec : Reconciliation D = record {
      id = id;
      organisation_id = principal.organisation_id;
      bank_account_id = p.bank_account_id;
      statement_date = p.statement_date;
      opening_balance = opening;
      closing_balance = closing;
      is_reconciled = true;
      reconciled_at = none;
      reconciled_by = none;
      created_at = env.now;
    }
    create_reconciliation rec
    pure rec
