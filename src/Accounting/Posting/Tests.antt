-- ===== src/Accounting/Posting/Tests.antt =====
-- A journal posted on the fixed decimals, and the theorems at it.
use billing_platform.Base.{
  ℕ, ◌+◌, ◌≡◌, ◌↔◌, refl, true, false, none, some, List, [], ◌∷◌, ok, err, forbidden, period_locked,
  All, IsOk,
}
use billing_platform.Base.Int.{ℤ, pos, ◌+ℤ◌}
use billing_platform.Decimal.Fixed.{fixed, fixed-IsGroup, fixed-IsOrder}
use billing_platform.Money
use billing_platform.Money.{Money, minor_units}
use billing_platform.Accounting.Types.{
  Account, asset, debit_balance, Journal, JournalLineRequest, JournalRequest, FiscalPeriod,
}
use billing_platform.Transaction.{◌>>=◌, Principal, Env}
use billing_platform.Accounting.Books.{
  Books, day, find_account, get_by_code, draw_id, create_journal, record_audit, find_containing,
  containing, contains, choose, line_check, create_line,
}
use billing_platform.Accounting.Posting.{
  validate_balanced, check_period, post_line, post_lines, insert_journal, do_post,
}
use billing_platform.Accounting.Posting.Balance.{
  IsOneSided, debit_total, credit_total, validate_balanced_iff,
}
use billing_platform.Accounting.Posting.Effect.{IsPosted, do_post-IsPosted}

abbrev cash : Account
cash = record {
  id = 10;
  organisation_id = 7;
  code = "1000";
  name = "Cash";
  account_type = asset;
  normal_balance = debit_balance;
  parent_account_id = none;
  is_system = true;
  is_active = true;
  created_at = 1;
}

abbrev receivable : Account
receivable = record cash { id = 11; code = "1100"; name = "Accounts Receivable" }

abbrev closed : FiscalPeriod
closed = record {
  id = 20;
  organisation_id = 7;
  start_date = 0;
  end_date = day;
  label = "closed";
  is_locked = true;
  locked_at = none;
  locked_by = none;
  created_at = 1;
}

abbrev books : Books ℤ
books = record {
  accounts = cash ∷ receivable ∷ [];
  journals = [];
  lines = [];
  periods = closed ∷ [];
  bank_accounts = [];
  receipts = [];
  payments = [];
  reconciliations = [];
  audit = [];
  drawn = 0;
}

abbrev env : Env
env = record {
  now = 259200000000000;
  new_id = λ n. ok (1000 + n);
  require = λ principal code. err forbidden;
  uuid_text = λ id. "";
  pick = λ n. 0;
}

abbrev clerk : Principal
clerk = record { user_id = 3; organisation_id = 7 }

abbrev receipt_lines : List (JournalLineRequest ℤ)
receipt_lines =
    record {
      account_code = "1000";
      party_id = none;
      debit = pos 40000000;
      credit = pos 0;
      description = "Receipt";
    }
    ∷ record {
      account_code = "1100";
      party_id = some 5;
      debit = pos 0;
      credit = pos 40000000;
      description = "Receipt applied to AR";
    }
    ∷ []

abbrev request : JournalRequest ℤ
request = record {
  organisation_id = 7;
  source_type = "receipt";
  source_id = none;
  journal_date = 0;
  description = "Receipt";
  created_by = 3;
  lines = receipt_lines;
}

abbrev journal : Journal
journal = record {
  id = 1000;
  organisation_id = 7;
  source_type = "receipt";
  source_id = none;
  journal_date = 259200000000000;
  description = "Receipt";
  created_by = 3;
  created_at = 259200000000000;
}

abbrev rupees : ℕ → Money ℤ
rupees n = record { amount = pos n; currency = "INR" }

abbrev posted_books : Books ℤ
posted_books = record books {
  journals = journal ∷ [];
  lines =
      record {
        id = 1001;
        organisation_id = 7;
        journal_id = 1000;
        account_id = 10;
        party_id = none;
        debit = rupees 40000000;
        credit = rupees 0;
        description = "Receipt";
        created_at = 259200000000000;
      }
      ∷ record {
        id = 1002;
        organisation_id = 7;
        journal_id = 1000;
        account_id = 11;
        party_id = some 5;
        debit = rupees 0;
        credit = rupees 40000000;
        description = "Receipt applied to AR";
        created_at = 259200000000000;
      }
      ∷ [];
  audit =
      record {
        action = "accounting.journal_posted";
        entity_id = 1000;
        actor = 3;
        at = 259200000000000;
      }
      ∷ [];
  drawn = 3;
}

posts : do_post minor_units env clerk request books ≡ ok (journal, posted_books)
unfolding do_post validate_balanced check_period insert_journal post_lines post_line get_by_code
    find_account draw_id create_journal record_audit find_containing containing contains choose
    create_line line_check Money.new Money.minor_digits ◌+ℤ◌ ◌>>=◌
posts = refl

-- The same journal on a date in the locked period is refused.
refused :
    do_post minor_units env clerk (record request { journal_date = 50 }) books ≡ err period_locked
unfolding do_post validate_balanced check_period find_containing containing contains choose ◌+ℤ◌
    ◌>>=◌
refused = refl

validate_balanced_iff_example :
    IsOk (validate_balanced receipt_lines)
    ↔ (All IsOneSided receipt_lines × (debit_total receipt_lines ≡ credit_total receipt_lines))
validate_balanced_iff_example = validate_balanced_iff fixed-IsGroup fixed-IsOrder receipt_lines

do_post-IsPosted_example : IsPosted minor_units env clerk request books posted_books journal
do_post-IsPosted_example =
    do_post-IsPosted minor_units env fixed-IsGroup fixed-IsOrder clerk request books posts

-- Where an open period holds the date too and its row comes first, the journal is posted by a clerk
-- who may not override the lock.
abbrev overlapping : Books ℤ
overlapping = record books { periods = closed ∷ record closed { id = 21; is_locked = false } ∷ [] }

slips_through : IsOk (
    do_post minor_units
      (record env { pick = λ n. 1 })
      clerk
      (record request { journal_date = 50 })
      overlapping)
unfolding do_post validate_balanced check_period insert_journal post_lines post_line get_by_code
    find_account draw_id create_journal record_audit find_containing containing contains choose
    create_line line_check Money.new Money.minor_digits ◌+ℤ◌ ◌>>=◌
slips_through = tt
