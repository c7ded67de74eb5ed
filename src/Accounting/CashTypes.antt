-- ===== src/Accounting/CashTypes.antt =====
-- Bank accounts, receipts, payments and reconciliations of
-- internal/modules/accounting/domain/domain.go, and the requests of app/service.go about them.
use billing_platform.Base.{Bool, Option, String, Uuid, Time}
use billing_platform.Money.{Money}

pub data BankAccountKind : Type 0 where
  bank_account cash_account : BankAccountKind

pub record BankAccount : Type 0 where
  pub id : Uuid
  pub organisation_id : Uuid
  pub legal_entity_id : Uuid
  pub name : String
  pub kind : BankAccountKind
  pub account_number : String
  pub bank_name : String
  pub ifsc_code : String
  pub currency_code : String
  pub gl_account_id : Uuid
  pub is_active : Bool
  pub created_at : Time

pub data PaymentMethod : Type 0 where
  method_cash method_upi method_card method_bank_transfer method_cheque method_other : PaymentMethod

pub record Receipt (D : Type 0) : Type 0 where
  pub id : Uuid
  pub organisation_id : Uuid
  pub party_id : Uuid
  pub sales_document_id : Option Uuid
  pub amount : Money D
  pub bank_account_id : Option Uuid
  pub method : PaymentMethod
  pub reference_number : String
  pub received_at : Time
  pub journal_id : Uuid
  pub created_by : Uuid
  pub created_at : Time

pub record Payment (D : Type 0) : Type 0 where
  pub id : Uuid
  pub organisation_id : Uuid
  pub party_id : Uuid
  pub purchase_document_id : Option Uuid
  pub amount : Money D
  pub bank_account_id : Option Uuid
  pub method : PaymentMethod
  pub reference_number : String
  pub paid_at : Time
  pub journal_id : Uuid
  pub created_by : Uuid
  pub created_at : Time

pub record Reconciliation (D : Type 0) : Type 0 where
  pub id : Uuid
  pub organisation_id : Uuid
  pub bank_account_id : Uuid
  pub statement_date : Time
  pub opening_balance : Money D
  pub closing_balance : Money D
  pub is_reconciled : Bool
  pub reconciled_at : Option Time
  pub reconciled_by : Option Uuid
  pub created_at : Time

pub record RecordReceiptParams (D : Type 0) : Type 0 where
  pub party_id : Uuid
  pub sales_document_id : Option Uuid
  pub amount : D
  pub bank_account_id : Option Uuid
  pub method : PaymentMethod
  pub reference_number : String
  pub received_at : Time

pub record RecordPaymentParams (D : Type 0) : Type 0 where
  pub party_id : Uuid
  pub purchase_document_id : Option Uuid
  pub amount : D
  pub bank_account_id : Option Uuid
  pub method : PaymentMethod
  pub reference_number : String
  pub paid_at : Time

pub record CreateBankAccountParams : Type 0 where
  pub legal_entity_id : Uuid
  pub name : String
  pub kind : BankAccountKind
  pub account_number : String
  pub bank_name : String
  pub ifsc_code : String
  pub currency_code : String
  pub gl_account_code : String

pub record RecordReconciliationParams (D : Type 0) : Type 0 where
  pub bank_account_id : Uuid
  pub statement_date : Time
  pub opening_balance : D
  pub closing_balance : D

pub record CreateFiscalPeriodParams : Type 0 where
  pub start_date : Time
  pub end_date : Time
  pub label : String
