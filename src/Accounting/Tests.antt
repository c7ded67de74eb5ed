-- ===== src/Accounting/Tests.antt =====
-- The operations beside posting on the fixed decimals, and the theorems at them.
mod Reports
use billing_platform.Base.{
  ℕ, ◌+◌, ◌≡◌, refl, true, false, Bool, none, some, List, [], ◌∷◌, ok, err, forbidden, not_found,
  if◌then◌else◌, String, Result, period_locked, Option, Uuid, ◌==◌, ◌<>◌, IsOk,
}
use billing_platform.Base.Int.{ℤ, pos, negsuc, ◌+ℤ◌}
use billing_platform.Decimal.{Decimal}
use billing_platform.Decimal.Fixed.{fixed, fixed-IsGroup, fixed-IsOrder}
use billing_platform.Money
use billing_platform.Money.{Money, minor_units}
use billing_platform.Transaction.{◌>>=◌, Principal, Env, state_of}
use billing_platform.Accounting.CashTypes.{
  RecordReceiptParams, RecordPaymentParams, Receipt, Payment, method_upi, method_cheque,
}
use billing_platform.Accounting.Types.{
  Account, asset, debit_balance, Journal, JournalLineRequest, JournalRequest, FiscalPeriod,
  LedgerEntry, AgeingBucket,
}
use billing_platform.Accounting.Books.{
  Books, day, find_account, get_by_code, draw_id, create_journal, record_audit, find_containing,
  containing, contains, choose, line_check, create_line,
}
use billing_platform.Accounting.Posting.{
  validate_balanced, check_period, post_line, post_lines, insert_journal, do_post, post_tx,
}
use billing_platform.Accounting.Posting.Invariant.{IsBalanced}
use billing_platform.Accounting.Rows.{
  create_receipt, create_payment, create_account, has_code, count_by_organisation, find_period,
  set_locked,
}
use billing_platform.Accounting.Cash.{cash_code, record_receipt, record_payment}
use billing_platform.Accounting.Periods.{
  seed_accounts, seed_chart, seed_if_none, ensure_default_chart_of_accounts, write_lock,
  change_lock, set_period_lock,
}
use billing_platform.Accounting.Parties.{
  party_balance, record_receipt-party_balance, record_payment-party_balance,
}
use billing_platform.Accounting.Operations.{
  none_yet, then_one, seeds_chart, posts_within, receives, pays, Steps-IsBalanced,
}
use billing_platform.Accounting.Chart.{ensure_default_chart_of_accounts-again}
use billing_platform.Accounting.Locks.{set_period_lock-blocks}

abbrev open_period : FiscalPeriod
open_period = record {
  id = 20;
  organisation_id = 7;
  start_date = 0;
  end_date = day;
  label = "first";
  is_locked = false;
  locked_at = none;
  locked_by = none;
  created_at = 1;
}

abbrev no_books : Books ℤ
no_books = record {
  accounts = [];
  journals = [];
  lines = [];
  periods = open_period ∷ [];
  bank_accounts = [];
  receipts = [];
  payments = [];
  reconciliations = [];
  audit = [];
  drawn = 0;
}

abbrev env : Env
env = record {
  now = 50;
  new_id = λ n. ok (1000 + n);
  require = λ principal code. ok tt;
  uuid_text = λ id. "party";
  pick = λ n. 0;
}

abbrev clerk : Principal
clerk = record { user_id = 3; organisation_id = 7 }

abbrev books_of : {A : Type 0} → Result (A × Books ℤ) → Books ℤ
books_of r = state_of no_books r

abbrev seeded : Books ℤ
seeded = books_of (ensure_default_chart_of_accounts env clerk 7 no_books)

abbrev sale_lines : List (JournalLineRequest ℤ)
sale_lines =
    record {
      account_code = "1100";
      party_id = some 5;
      debit = pos 100;
      credit = pos 0;
      description = "";
    }
    ∷ record {
      account_code = "4000";
      party_id = none;
      debit = pos 0;
      credit = pos 100;
      description = "";
    }
    ∷ []

abbrev sale : JournalRequest ℤ
sale = record {
  organisation_id = 7;
  source_type = "sales_invoice";
  source_id = none;
  journal_date = 40;
  description = "";
  created_by = 3;
  lines = sale_lines;
}

abbrev sale_journal : Journal
sale_journal = record {
  id = 1016;
  organisation_id = 7;
  source_type = "sales_invoice";
  source_id = none;
  journal_date = 40;
  description = "";
  created_by = 3;
  created_at = 50;
}

abbrev sold : Books ℤ
sold = books_of (post_tx minor_units env clerk sale seeded)

abbrev rupees : ℕ → Money ℤ
rupees n = record { amount = pos n; currency = "INR" }

abbrev receipt_params : RecordReceiptParams ℤ
receipt_params = record {
  party_id = 5;
  sales_document_id = none;
  amount = pos 60;
  bank_account_id = none;
  method = method_upi;
  reference_number = "";
  received_at = 0;
}

abbrev receipt : Receipt ℤ
receipt = record {
  id = 1022;
  organisation_id = 7;
  party_id = 5;
  sales_document_id = none;
  amount = rupees 60;
  bank_account_id = none;
  method = method_upi;
  reference_number = "";
  received_at = 50;
  journal_id = 1019;
  created_by = 3;
  created_at = 50;
}

abbrev received : Books ℤ
received = books_of (record_receipt minor_units env clerk receipt_params sold)

abbrev payment_params : RecordPaymentParams ℤ
payment_params = record {
  party_id = 6;
  purchase_document_id = none;
  amount = pos 30;
  bank_account_id = none;
  method = method_cheque;
  reference_number = "";
  paid_at = 45;
}

abbrev payment : Payment ℤ
payment = record {
  id = 1026;
  organisation_id = 7;
  party_id = 6;
  purchase_document_id = none;
  amount = rupees 30;
  bank_account_id = none;
  method = method_cheque;
  reference_number = "";
  paid_at = 45;
  journal_id = 1023;
  created_by = 3;
  created_at = 50;
}

abbrev paid : Books ℤ
paid = books_of (record_payment minor_units env clerk payment_params received)

seeds : ensure_default_chart_of_accounts env clerk 7 no_books ≡ ok (tt, seeded)
unfolding record_receipt record_payment ensure_default_chart_of_accounts seed_if_none seed_chart
    seed_accounts create_account has_code count_by_organisation cash_code create_receipt
    create_payment do_post post_tx validate_balanced check_period insert_journal post_lines
    post_line get_by_code find_account draw_id create_journal record_audit find_containing
    containing contains choose create_line line_check write_lock change_lock set_period_lock
    find_period set_locked Money.new Money.minor_digits ◌+ℤ◌ ◌>>=◌
seeds = refl

sells : post_tx minor_units env clerk sale seeded ≡ ok (sale_journal, sold)
unfolding record_receipt record_payment ensure_default_chart_of_accounts seed_if_none seed_chart
    seed_accounts create_account has_code count_by_organisation cash_code create_receipt
    create_payment do_post post_tx validate_balanced check_period insert_journal post_lines
    post_line get_by_code find_account draw_id create_journal record_audit find_containing
    containing contains choose create_line line_check write_lock change_lock set_period_lock
    find_period set_locked Money.new Money.minor_digits ◌+ℤ◌ ◌>>=◌
sells = refl

receives_it : record_receipt minor_units env clerk receipt_params sold ≡ ok (receipt, received)
unfolding record_receipt record_payment ensure_default_chart_of_accounts seed_if_none seed_chart
    seed_accounts create_account has_code count_by_organisation cash_code create_receipt
    create_payment do_post post_tx validate_balanced check_period insert_journal post_lines
    post_line get_by_code find_account draw_id create_journal record_audit find_containing
    containing contains choose create_line line_check write_lock change_lock set_period_lock
    find_period set_locked Money.new Money.minor_digits ◌+ℤ◌ ◌>>=◌
receives_it = refl

pays_it : record_payment minor_units env clerk payment_params received ≡ ok (payment, paid)
unfolding record_receipt record_payment ensure_default_chart_of_accounts seed_if_none seed_chart
    seed_accounts create_account has_code count_by_organisation cash_code create_receipt
    create_payment do_post post_tx validate_balanced check_period insert_journal post_lines
    post_line get_by_code find_account draw_id create_journal record_audit find_containing
    containing contains choose create_line line_check write_lock change_lock set_period_lock
    find_period set_locked Money.new Money.minor_digits ◌+ℤ◌ ◌>>=◌
pays_it = refl

ensure_default_chart_of_accounts-again_example :
    (count_by_organisation 7 no_books.accounts ≡ 0 → count_by_organisation 7 seeded.accounts ≡ 16)
    × (ensure_default_chart_of_accounts env clerk 7 seeded ≡ ok (tt, seeded))
ensure_default_chart_of_accounts-again_example =
    ensure_default_chart_of_accounts-again env clerk 7 no_books seeded tt seeds

record_receipt-party_balance_example :
    party_balance 5 received.lines
    ≡ Decimal.add fixed
        (party_balance 5 sold.lines)
        (if 5 == 5 then Decimal.neg fixed (pos 60) else pos 0)
record_receipt-party_balance_example =
    record_receipt-party_balance fixed-IsGroup fixed-IsOrder minor_units env clerk receipt_params
      sold received receipt 5 receives_it

record_payment-party_balance_example :
    party_balance 5 paid.lines
    ≡ Decimal.add fixed (party_balance 5 received.lines) (if 6 == 5 then pos 30 else pos 0)
record_payment-party_balance_example =
    record_payment-party_balance fixed-IsGroup fixed-IsOrder minor_units env clerk payment_params
      received paid payment 5 pays_it

no_books-IsBalanced : IsBalanced no_books
no_books-IsBalanced = record { sums_equal = refl; all_checked = tt }

Steps-IsBalanced_example : IsBalanced paid
Steps-IsBalanced_example =
    Steps-IsBalanced fixed-IsGroup fixed-IsOrder minor_units env
      (then_one
        (then_one
          (then_one (then_one none_yet (seeds_chart clerk 7 seeds)) (posts_within clerk sale sells))
          (receives clerk receipt_params receives_it))
        (pays clerk payment_params pays_it))
      no_books-IsBalanced
