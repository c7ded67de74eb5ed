-- ===== src/Accounting/Posting.antt =====
-- `Post`, `PostTx`, `doPost` and `validateBalanced` of internal/modules/accounting/app/service.go.
pub mod Balance
pub mod Lines
pub mod Effect
pub mod Invariant
mod Tests
use billing_platform.Base.{
  ℕ, ◌+◌, Bool, true, false, not, Option, none, some, List, [], ◌∷◌, String, if◌then◌else◌, Result,
  ok, err, Error, empty_journal, unbalanced_journal, one_sided_line, period_locked, Uuid, Time,
  ◌==◌, leb, length, or_error, guard,
}
use billing_platform.Decimal.{Decimal, is_positive}
use billing_platform.Money
use billing_platform.Money.{Money, MinorUnits}
use billing_platform.Accounting.Types.{
  Journal, JournalLine, JournalLineRequest, JournalRequest, FiscalPeriod, Account,
}
use billing_platform.Transaction.{
  Principal, Env, Action, ◌>>=◌, ◌>>◌, pure, lift, require_that, AuditEntry,
}
use billing_platform.Accounting.Books.{
  Books, draw_id, create_journal, record_audit, get_by_code, find_containing, create_line,
}

abbrev pub same : Bool → Bool → Bool
same true b = b
same false b = not b

module _ {D : Type 0} ⦃d : Decimal D⦄ where
  -- The loop of `validateBalanced`.
  unfoldable pub validate_lines : List (JournalLineRequest D) → D → D → Result (D × D)
  validate_lines [] total_debit total_credit = ok (total_debit, total_credit)
  validate_lines (l ∷ lines) total_debit total_credit =
      let rest = validate_lines lines (d.add total_debit l.debit) (d.add total_credit l.credit) in
      if same (is_positive l.debit) (is_positive l.credit) then err one_sided_line else rest

  unfoldable pub validate_balanced : List (JournalLineRequest D) → Result (D × D)
  unfolding validate_lines
  validate_balanced lines = elim (validate_lines lines d.nought d.nought) [
    | err e ↦ err e
    | ok (total_debit, total_credit) ↦
        if d.equal total_debit total_credit
        then ok (total_debit, total_credit)
        else err unbalanced_journal
  ]

  module _ (units : MinorUnits) (env : Env) where
    -- `err == nil && period.IsLocked`, then the permission to override.
    unfoldable pub check_period : Principal → Uuid → Time → Action (Books D) (Unit {0})
    check_period principal org date b = elim (find_containing env org date b.periods) [
      | none ↦ ok (tt, b)
      | some period ↦
          if period.is_locked
          then elim (env.require principal "accounting.override_locked_period") [
            | ok _ ↦ ok (tt, b)
            | err _ ↦ err period_locked
          ]
          else ok (tt, b)
    ]

    -- One round of the loop that inserts the lines.
    unfoldable pub post_line :
        Uuid → Uuid → Time → JournalLineRequest D → Action (Books D) (Unit {0})
    post_line org journal_id now l = do
      acct ← get_by_code org l.account_code
      line_id ← draw_id env
      debit ← lift (Money.new units l.debit "INR")
      credit ← lift (Money.new units l.credit "INR")
      create_line (record {
        id = line_id;
        organisation_id = org;
        journal_id = journal_id;
        account_id = acct.id;
        party_id = l.party_id;
        debit = debit;
        credit = credit;
        description = l.description;
        created_at = now;
      })

    unfoldable pub post_lines :
        Uuid → Uuid → Time → List (JournalLineRequest D) → Action (Books D) (Unit {0})
    post_lines org journal_id now [] = pure tt
    post_lines org journal_id now (l ∷ lines) = do
      post_line org journal_id now l
      post_lines org journal_id now lines

    -- The second half of `doPost`: the journal, its lines and the audit entry.
    unfoldable pub insert_journal : Principal → JournalRequest D → Time → Action (Books D) Journal
    insert_journal principal req journal_date = do
      id ← draw_id env
      let j : Journal = record {
        id = id;
        organisation_id = req.organisation_id;
        source_type = req.source_type;
        source_id = req.source_id;
        journal_date = journal_date;
        description = req.description;
        created_by = req.created_by;
        created_at = env.now;
      }
      create_journal j
      post_lines req.organisation_id id env.now req.lines
      record_audit (record {
        action = "accounting.journal_posted";
        entity_id = id;
        actor = principal.user_id;
        at = env.now;
      })
      pure j

    unfoldable pub do_post : Principal → JournalRequest D → Action (Books D) Journal
    do_post principal req = do
      require_that (leb 2 (length req.lines)) empty_journal
      totals ← lift (validate_balanced req.lines)
      let journal_date = if req.journal_date == 0 then env.now else req.journal_date
      check_period principal req.organisation_id journal_date
      insert_journal principal req journal_date

    unfoldable pub post : Principal → JournalRequest D → Action (Books D) Journal
    unfolding do_post
    post principal req = do lift (env.require principal "accounting.post"); do_post principal req

    unfoldable pub post_tx : Principal → JournalRequest D → Action (Books D) Journal
    unfolding do_post
    post_tx = do_post
