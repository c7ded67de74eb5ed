-- ===== src/Accounting/Rows.antt =====
-- The queries of internal/modules/accounting/pg/pg.go beside those of posting.
use billing_platform.Base.{
  ℕ, ◌+◌, ◌&&◌, Bool, true, false, Option, none, some, List, [], ◌∷◌, ◌++◌, str_eq, if◌then◌else◌,
  ok, err, external, Uuid, Time, ◌==◌, ltb,
}
use billing_platform.Transaction.{Action}
use billing_platform.Decimal.{Decimal, is_positive}
use billing_platform.Accounting.CashTypes.{BankAccount, Receipt, Payment, Reconciliation}
use billing_platform.Accounting.Types.{Account, FiscalPeriod}
use billing_platform.Accounting.Books.{Books, date_of}

unfoldable pub find_account_by_id : Uuid → Uuid → List Account → Option Account
find_account_by_id org id [] = none
find_account_by_id org id (a ∷ accounts) =
    if (a.organisation_id == org) && (a.id == id)
    then some a
    else find_account_by_id org id accounts

unfoldable pub find_bank_account : Uuid → Uuid → List BankAccount → Option BankAccount
find_bank_account org id [] = none
find_bank_account org id (b ∷ accounts) =
    if (b.organisation_id == org) && (b.id == id) then some b else find_bank_account org id accounts

unfoldable pub find_period : Uuid → Uuid → List FiscalPeriod → Option FiscalPeriod
find_period org id [] = none
find_period org id (p ∷ periods) =
    if (p.organisation_id == org) && (p.id == id) then some p else find_period org id periods

-- `UPDATE fiscal_periods SET is_locked = $3, ...`: every row with the key. Where a row stands
-- in the list means nothing: `find_containing` may return any of those it finds.
unfoldable pub set_locked :
    Uuid → Uuid → Bool → Option Uuid → Option Time → List FiscalPeriod → List FiscalPeriod
set_locked org id locked by at [] = []
set_locked org id locked by at (p ∷ periods) =
    (if (p.organisation_id == org) && (p.id == id)
      then record p { is_locked = locked; locked_by = by; locked_at = at }
      else p)
    ∷ set_locked org id locked by at periods

unfoldable pub count_by_organisation : Uuid → List Account → ℕ
count_by_organisation org [] = 0
count_by_organisation org (a ∷ accounts) =
    (if a.organisation_id == org then 1 else 0) + count_by_organisation org accounts

-- An account with the code of another one of its organisation breaks UNIQUE (organisation_id, code).
unfoldable pub has_code : Account → List Account → Bool
has_code a [] = false
has_code a (b ∷ accounts) =
    let rest = has_code a accounts in
    if (b.organisation_id == a.organisation_id) && str_eq b.code a.code then true else rest

module _ {D : Type 0} where
  unfoldable pub create_account : Account → Action (Books D) (Unit {0})
  create_account a b =
      if has_code a b.accounts
      then err (external "unique violation")
      else ok (tt, record b { accounts = b.accounts ++ (a ∷ []) })

  -- The dates as the columns hold them, and the CHECK constraint of fiscal_periods on them.
  unfoldable pub create_period : FiscalPeriod → Action (Books D) (Unit {0})
  create_period p b =
      let row : FiscalPeriod = record p {
        start_date = date_of p.start_date;
        end_date = date_of p.end_date;
      } in
      if ltb row.start_date row.end_date
      then ok (tt, record b { periods = b.periods ++ (row ∷ []) })
      else err (external "check constraint")

  unfoldable pub create_bank_account_row : BankAccount → Action (Books D) (Unit {0})
  create_bank_account_row a b = ok (tt, record b { bank_accounts = b.bank_accounts ++ (a ∷ []) })

  unfoldable pub create_reconciliation : Reconciliation D → Action (Books D) (Unit {0})
  create_reconciliation r b = ok (tt, record b { reconciliations = b.reconciliations ++ (r ∷ []) })

module _ {D : Type 0} ⦃d : Decimal D⦄ where
  -- The CHECK constraints of receipts and payments: a positive amount.
  unfoldable pub create_receipt : Receipt D → Action (Books D) (Unit {0})
  create_receipt r b =
      if is_positive r.amount.amount
      then ok (tt, record b { receipts = b.receipts ++ (r ∷ []) })
      else err (external "check constraint")

  unfoldable pub create_payment : Payment D → Action (Books D) (Unit {0})
  create_payment p b =
      if is_positive p.amount.amount
      then ok (tt, record b { payments = b.payments ++ (p ∷ []) })
      else err (external "check constraint")
