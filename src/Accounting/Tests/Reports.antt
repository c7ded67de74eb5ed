-- ===== src/Accounting/Tests/Reports.antt =====
-- Ledgers, ageing reports and locks on the books of the tests.
use billing_platform.Base.{ℕ, ◌≡◌, refl, true, none, List, [], ◌∷◌, ok, All, IsAmong, inl, IsOk}
use billing_platform.Base.Int.{ℤ, pos, ◌+ℤ◌, ◌-ℤ◌}
use billing_platform.Decimal.Fixed.{fixed, fixed-IsGroup, fixed-IsOrder}
use billing_platform.Money
use billing_platform.Money.{Money, minor_units}
use billing_platform.Transaction.{◌>>=◌, state_of}
use billing_platform.Accounting.Types.{LedgerRow, LedgerEntry, AgeingBucket}
use billing_platform.Accounting.Books.{
  Books, find_account, get_by_code, draw_id, create_journal, record_audit, find_containing,
  containing, contains, choose, line_check, create_line,
}
use billing_platform.Accounting.Posting.{
  validate_balanced, check_period, post_line, post_lines, insert_journal, do_post, post_tx,
}
use billing_platform.Accounting.Cash.{cash_code, record_receipt}
use billing_platform.Accounting.Rows.{
  create_receipt, create_account, has_code, count_by_organisation, find_period, set_locked,
}
use billing_platform.Accounting.Periods.{
  seed_accounts, seed_chart, seed_if_none, ensure_default_chart_of_accounts, write_lock,
  change_lock, set_period_lock,
}
use billing_platform.Accounting.Ledger.{
  find_journal, is_party, row_of, precedes, insert_row, order_rows, select_rows,
  list_by_party_up_to, ledger_entries, get_party_ledger,
}
use billing_platform.Accounting.Ledger.Closing.{closing, balance_on, get_party_ledger-closing}
use billing_platform.Accounting.Ageing.Bands.{bands_sum}
use billing_platform.Accounting.Ageing.Total.{get_ageing-closing}
use billing_platform.Accounting.Ageing.{
  consume, open_after, insert_open, order_open, days_between, add_to_bucket, fill_bucket, ageing_of,
  get_ageing,
}
use billing_platform.Accounting.Locks.{set_period_lock-blocks}
use billing_platform.Accounting.Tests.{
  env, clerk, rupees, received, open_period, seeded, sale, sale_journal,
}

abbrev row : ℕ → ℕ → ℕ → LedgerRow ℤ
row date debit credit = record {
  journal_id = 1;
  journal_date = date;
  source_type = "";
  source_id = none;
  description = "";
  debit = rupees debit;
  credit = rupees credit;
}

abbrev all_current : ℕ → AgeingBucket ℤ
all_current n = record {
  current = rupees n;
  days1_to30 = rupees 0;
  days31_to60 = rupees 0;
  days61_to90 = rupees 0;
  days90_plus = rupees 0;
  total = rupees n;
}

abbrev entries : List (LedgerEntry ℤ)
entries =
    record {
      journal_id = 1016;
      journal_date = 0;
      source_type = "sales_invoice";
      source_id = none;
      description = "";
      debit = rupees 100;
      credit = rupees 0;
      running_balance = rupees 100;
    }
    ∷ record {
      journal_id = 1019;
      journal_date = 0;
      source_type = "receipt";
      source_id = none;
      description = "Receipt from party party";
      debit = rupees 0;
      credit = rupees 60;
      running_balance = rupees 40;
    }
    ∷ []

lists : get_party_ledger minor_units env clerk 5 60 received ≡ ok entries
unfolding get_party_ledger list_by_party_up_to ledger_entries find_journal select_rows order_rows
    insert_row row_of precedes is_party record_receipt ensure_default_chart_of_accounts seed_if_none
    seed_chart seed_accounts create_account has_code count_by_organisation cash_code create_receipt
    do_post post_tx validate_balanced check_period insert_journal post_lines post_line get_by_code
    find_account draw_id create_journal record_audit find_containing containing contains choose
    create_line line_check Money.new Money.minor_digits ◌+ℤ◌ ◌-ℤ◌ ◌>>=◌
lists = refl

ages : get_ageing minor_units env clerk 5 60 received ≡ ok (all_current 40)
unfolding get_ageing ageing_of fill_bucket add_to_bucket days_between order_open insert_open
    open_after consume Money.zero_money Money.add Money.same_currency list_by_party_up_to
    find_journal select_rows order_rows insert_row row_of precedes is_party record_receipt
    ensure_default_chart_of_accounts seed_if_none seed_chart seed_accounts create_account has_code
    count_by_organisation cash_code create_receipt do_post post_tx validate_balanced check_period
    insert_journal post_lines post_line get_by_code find_account draw_id create_journal record_audit
    find_containing containing contains choose create_line line_check Money.new Money.minor_digits
    ◌+ℤ◌ ◌-ℤ◌ ◌>>=◌
ages = refl

get_party_ledger-closing_example :
    closing (pos 0) entries ≡ balance_on 7 5 60 received.journals received.lines
get_party_ledger-closing_example =
    get_party_ledger-closing fixed-IsGroup minor_units env clerk 5 60 received lists

received-checked : All (λ l. line_check l ≡ true) received.lines
unfolding record_receipt ensure_default_chart_of_accounts seed_if_none seed_chart seed_accounts
    create_account has_code count_by_organisation cash_code create_receipt do_post post_tx
    validate_balanced check_period insert_journal post_lines post_line get_by_code find_account
    draw_id create_journal record_audit find_containing containing contains choose create_line
    line_check Money.new Money.minor_digits ◌+ℤ◌ ◌-ℤ◌ ◌>>=◌
received-checked = (refl, (refl, (refl, (refl, tt))))

get_ageing-closing_example :
    (pos 40 ≡ bands_sum (all_current 40)) × (pos 40 ≡ closing (pos 0) entries)
get_ageing-closing_example =
    get_ageing-closing fixed-IsGroup fixed-IsOrder minor_units env clerk 5 60 received
      received-checked ages lists (refl, (refl, tt))

-- An advance of 60 before an invoice of 100: the report shows all of the invoice.
advance_is_dropped :
    ageing_of minor_units 60 (row 10 0 60 ∷ row 20 100 0 ∷ []) ≡ ok (all_current 100)
unfolding get_ageing ageing_of fill_bucket add_to_bucket days_between order_open insert_open
    open_after consume Money.zero_money Money.add Money.same_currency Money.new Money.minor_digits
    ◌+ℤ◌ ◌-ℤ◌ ◌>>=◌
advance_is_dropped = refl

abbrev locked_books : Books ℤ
locked_books = state_of seeded (set_period_lock env clerk 20 true seeded)

abbrev sold_late : Books ℤ
sold_late = state_of seeded (post_tx minor_units env clerk sale locked_books)

locks : set_period_lock env clerk 20 true seeded ≡ ok (tt, locked_books)
unfolding write_lock change_lock set_period_lock find_period set_locked record_receipt
    ensure_default_chart_of_accounts seed_if_none seed_chart seed_accounts create_account has_code
    count_by_organisation cash_code create_receipt do_post post_tx validate_balanced check_period
    insert_journal post_lines post_line get_by_code find_account draw_id create_journal record_audit
    find_containing containing contains choose create_line line_check Money.new Money.minor_digits
    ◌+ℤ◌ ◌-ℤ◌ ◌>>=◌
locks = refl

sells_late : post_tx minor_units env clerk sale locked_books ≡ ok (sale_journal, sold_late)
unfolding write_lock change_lock set_period_lock find_period set_locked record_receipt
    ensure_default_chart_of_accounts seed_if_none seed_chart seed_accounts create_account has_code
    count_by_organisation cash_code create_receipt do_post post_tx validate_balanced check_period
    insert_journal post_lines post_line get_by_code find_account draw_id create_journal record_audit
    find_containing containing contains choose create_line line_check Money.new Money.minor_digits
    ◌+ℤ◌ ◌-ℤ◌ ◌>>=◌
sells_late = refl

finds : contains 7 40 open_period ≡ true
unfolding contains
finds = refl

found : IsAmong open_period seeded.periods
unfolding write_lock change_lock set_period_lock find_period set_locked record_receipt
    ensure_default_chart_of_accounts seed_if_none seed_chart seed_accounts create_account has_code
    count_by_organisation cash_code create_receipt do_post post_tx validate_balanced check_period
    insert_journal post_lines post_line get_by_code find_account draw_id create_journal record_audit
    find_containing containing contains choose create_line line_check Money.new Money.minor_digits
    ◌+ℤ◌ ◌-ℤ◌ ◌>>=◌
found = inl refl

only : All (λ q. contains 7 40 q ≡ true → q.id ≡ 20) seeded.periods
unfolding write_lock change_lock set_period_lock find_period set_locked record_receipt
    ensure_default_chart_of_accounts seed_if_none seed_chart seed_accounts create_account has_code
    count_by_organisation cash_code create_receipt do_post post_tx validate_balanced check_period
    insert_journal post_lines post_line get_by_code find_account draw_id create_journal record_audit
    find_containing containing contains choose create_line line_check Money.new Money.minor_digits
    ◌+ℤ◌ ◌-ℤ◌ ◌>>=◌
only = (λ inside. refl, tt)

set_period_lock-blocks_example : IsOk (env.require clerk "accounting.override_locked_period")
set_period_lock-blocks_example =
    set_period_lock-blocks fixed-IsGroup fixed-IsOrder minor_units env clerk clerk sale seeded
      locked_books sold_late open_period tt sale_journal refl found finds only locks sells_late
