-- ===== src/Accounting/Types.antt =====
-- The rows of internal/modules/accounting/domain/domain.go and the requests of app/service.go.
use billing_platform.Base.{Bool, Option, List, String, Uuid, Time}
use billing_platform.Money.{Money}

pub data AccountType : Type 0 where
  asset liability equity income expense : AccountType

pub data NormalBalance : Type 0 where
  debit_balance credit_balance : NormalBalance

pub record Account : Type 0 where
  pub id : Uuid
  pub organisation_id : Uuid
  pub code : String
  pub name : String
  pub account_type : AccountType
  pub normal_balance : NormalBalance
  pub parent_account_id : Option Uuid
  pub is_system : Bool
  pub is_active : Bool
  pub created_at : Time

pub record Journal : Type 0 where
  pub id : Uuid
  pub organisation_id : Uuid
  pub source_type : String
  pub source_id : Option Uuid
  pub journal_date : Time
  pub description : String
  pub created_by : Uuid
  pub created_at : Time

pub record JournalLine (D : Type 0) : Type 0 where
  pub id : Uuid
  pub organisation_id : Uuid
  pub journal_id : Uuid
  pub account_id : Uuid
  pub party_id : Option Uuid
  pub debit : Money D
  pub credit : Money D
  pub description : String
  pub created_at : Time

pub record FiscalPeriod : Type 0 where
  pub id : Uuid
  pub organisation_id : Uuid
  pub start_date : Time
  pub end_date : Time
  pub label : String
  pub is_locked : Bool
  pub locked_at : Option Time
  pub locked_by : Option Uuid
  pub created_at : Time

pub record JournalLineRequest (D : Type 0) : Type 0 where
  pub account_code : String
  pub party_id : Option Uuid
  pub debit : D
  pub credit : D
  pub description : String

pub record JournalRequest (D : Type 0) : Type 0 where
  pub organisation_id : Uuid
  pub source_type : String
  pub source_id : Option Uuid
  pub journal_date : Time
  pub description : String
  pub created_by : Uuid
  pub lines : List (JournalLineRequest D)

pub record LedgerRow (D : Type 0) : Type 0 where
  pub journal_id : Uuid
  pub journal_date : Time
  pub source_type : String
  pub source_id : Option Uuid
  pub description : String
  pub debit : Money D
  pub credit : Money D

pub record LedgerEntry (D : Type 0) : Type 0 where
  pub journal_id : Uuid
  pub journal_date : Time
  pub source_type : String
  pub source_id : Option Uuid
  pub description : String
  pub debit : Money D
  pub credit : Money D
  pub running_balance : Money D

pub record AgeingBucket (D : Type 0) : Type 0 where
  pub current : Money D
  pub days1_to30 : Money D
  pub days31_to60 : Money D
  pub days61_to90 : Money D
  pub days90_plus : Money D
  pub total : Money D
