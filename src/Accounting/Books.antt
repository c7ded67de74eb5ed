-- ===== src/Accounting/Books.antt =====
-- The tables of the accounting module, and what one database transaction does to them.
use billing_platform.Base.{
  ℕ, suc, ◌&&◌, ◌||◌, not, Bool, Option, none, some, List, [], ◌∷◌, ◌++◌, String, str_eq,
  if◌then◌else◌, ok, err, external, not_found, Uuid, Time, ◌==◌, leb, ◌/◌, ◌*◌, zero, length,
}
use billing_platform.Transaction.{AuditEntry, Env, Action}
use billing_platform.Decimal.{Decimal, is_positive, is_negative}
use billing_platform.Accounting.CashTypes.{BankAccount, Receipt, Payment, Reconciliation}
use billing_platform.Accounting.Types.{Account, Journal, JournalLine, FiscalPeriod}

-- Nanoseconds.
abbrev pub day : ℕ
day = 24 * 60 * 60 * 1000000000

pub record Books (D : Type 0) : Type 0 where
  pub accounts : List Account
  pub journals : List Journal
  pub lines : List (JournalLine D)
  pub periods : List FiscalPeriod
  pub bank_accounts : List BankAccount
  pub receipts : List (Receipt D)
  pub payments : List (Payment D)
  pub reconciliations : List (Reconciliation D)
  pub audit : List AuditEntry
  -- how many identifiers have been drawn
  pub drawn : ℕ

-- A time as it stands in a column of type date: its day, at midnight. Times are of one zone.
abbrev pub date_of : Time → Time
date_of t = t / day * day

-- The row of a journal: its journal_date is a date.
abbrev pub dated_row : Journal → Journal
dated_row j = record j { journal_date = date_of j.journal_date }

unfoldable pub find_account : Uuid → String → List Account → Option Account
find_account org code [] = none
find_account org code (a ∷ accounts) =
    if (a.organisation_id == org) && str_eq a.code code
    then some a
    else find_account org code accounts

module _ {D : Type 0} where
  unfoldable pub draw_id : Env → Action (Books D) Uuid
  draw_id env b = elim (env.new_id b.drawn) [
    | ok id ↦ ok (id, record b { drawn = suc b.drawn })
    | err e ↦ err e
  ]

  unfoldable pub create_journal : Journal → Action (Books D) (Unit {0})
  create_journal j b = ok (tt, record b { journals = b.journals ++ (dated_row j ∷ []) })

  unfoldable pub record_audit : AuditEntry → Action (Books D) (Unit {0})
  record_audit entry b = ok (tt, record b { audit = b.audit ++ (entry ∷ []) })

  unfoldable pub get_by_code : Uuid → String → Action (Books D) Account
  get_by_code org code b = elim (find_account org code b.accounts) [
    | none ↦ err not_found
    | some a ↦ ok (a, b)
  ]

-- The WHERE clause of `FindContaining`. The argument is sent as a date.
unfoldable pub contains : Uuid → Time → FiscalPeriod → Bool
contains org date p =
    (p.organisation_id == org) && leb p.start_date (date_of date) && leb (date_of date) p.end_date

unfoldable pub containing : Uuid → Time → List FiscalPeriod → List FiscalPeriod
unfolding contains
containing org date [] = []
containing org date (p ∷ periods) =
    let rest = containing org date periods in if contains org date p then p ∷ rest else rest

-- The row at a place, or the last one.
unfoldable pub choose : ℕ → List FiscalPeriod → Option FiscalPeriod
choose n [] = none
choose zero (p ∷ periods) = some p
choose (suc n) (p ∷ periods) = elim (choose n periods) [ none ↦ some p | some q ↦ some q ]

-- `FindContaining`: of the periods that the date falls into, the row that comes first. No order is
-- asked for, so it may be any of them.
unfoldable pub find_containing : Env → Uuid → Time → List FiscalPeriod → Option FiscalPeriod
unfolding containing choose
find_containing env org date periods =
    let rows = containing org date periods in choose (env.pick (length rows)) rows

module _ {D : Type 0} ⦃d : Decimal D⦄ where
  -- The CHECK constraints of journal_lines.
  unfoldable pub line_check : JournalLine D → Bool
  line_check l =
      not (is_negative l.debit.amount)
      && not (is_negative l.credit.amount)
      && not (is_positive l.debit.amount && is_positive l.credit.amount)
      && (is_positive l.debit.amount || is_positive l.credit.amount)

  unfoldable pub create_line : JournalLine D → Action (Books D) (Unit {0})
  create_line l b =
      if line_check l
      then ok (tt, record b { lines = b.lines ++ (l ∷ []) })
      else err (external "check constraint")
