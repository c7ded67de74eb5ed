-- ===== src/Accounting/Posting/Effect.antt =====
-- What `doPost` does to the tables.
use mathlib.Core.Path.{subst, ap₂}
use billing_platform.Base.{
  suc, ◌≤◌, leb, ◌==◌, if◌then◌else◌, ◌≡◌, refl, sym, ap, ◌∙◌, true, List, [], ◌∷◌, ◌++◌, ok, arith,
  All, IsAmong, Pairs, IsOk, Result-cases, Bool-cases, inl, inr, Uuid, Time, length,
}
use billing_platform.Decimal.{Decimal, IsGroup, IsOrder}
use billing_platform.Money.{MinorUnits}
use billing_platform.Accounting.Types.{
  Account, Journal, JournalLine, JournalLineRequest, JournalRequest, FiscalPeriod,
}
use billing_platform.Transaction.{◌>>=◌, ◌>>◌, lift, require_that, Principal, Env}
use billing_platform.Accounting.Books.{
  contains, dated_row, Books, draw_id, create_journal, record_audit,
}
use billing_platform.Accounting.Containing.{AllLocked, find_containing-locked}
use billing_platform.Accounting.Posting.{
  validate_balanced, check_period, post_lines, insert_journal, do_post,
}
use billing_platform.Accounting.Posting.Lines.{
  debit_sum, credit_sum, IsStored, post_lines-LinesEffect,
}
use billing_platform.Accounting.Posting.Balance.{
  debit_total, credit_total, IsOneSided, validate_balanced_ok,
}

module _ {D : Type 0} ⦃d : Decimal D⦄ where
  -- The stored lines have the sums of the requested ones.
  Pairs-debit_sum :
      (org journal_id : Uuid) (accounts : List Account) (ls : List (JournalLineRequest D))
      (lines : List (JournalLine D))
      → Pairs (IsStored org journal_id accounts) ls lines
      → (debit_sum lines ≡ debit_total ls)
        × (credit_sum lines ≡ credit_total ls)
        × (length lines ≡ length ls)
  Pairs-debit_sum org journal_id accounts [] [] h = (refl, refl, refl)
  Pairs-debit_sum org journal_id accounts (l ∷ ls) (x ∷ lines) h =
      let (debits, credits, count) = Pairs-debit_sum org journal_id accounts ls lines h.1 in
      (ap₂ d.add h.0.debit_is debits, ap₂ d.add h.0.credit_is credits, ap suc count)
  Pairs-debit_sum org journal_id accounts [] (x ∷ lines) h = absurd h
  Pairs-debit_sum org journal_id accounts (l ∷ ls) [] h = absurd h

  check_period-locked :
      (units : MinorUnits) (env : Env) (principal : Principal) (org : Uuid) (date : Time)
      (b : Books D) (period : FiscalPeriod) {r : Unit {0} × Books D}
      → IsAmong period b.periods
      → contains org date period ≡ true
      → AllLocked org date b.periods
      → check_period units env principal org date b ≡ ok r
      → IsOk (env.require principal "accounting.override_locked_period")
  unfolding check_period
  check_period-locked units env principal org date b period among inside all h =
      let (q, found, locked) =
        find_containing-locked env org date period b.periods among inside all in
      ground arith

  -- The date that a request posts on: now, if it names none.
  abbrev pub posting_date : Env → JournalRequest D → Time
  posting_date env req = if req.journal_date == 0 then env.now else req.journal_date

  module _ (units : MinorUnits) (env : Env) where
    check_period-same :
        (principal : Principal) (org : Uuid) (date : Time) (b : Books D) {r : Unit {0} × Books D}
        → check_period units env principal org date b ≡ ok r
        → r.1 ≡ b
    unfolding check_period
    check_period-same principal org date b h = ground arith

    -- What a posted journal leaves in the books.
    pub record IsPosted (principal : Principal) (req : JournalRequest D) (b b' : Books D)
        (j : Journal) : Type 0 where
      pub added : List (JournalLine D)
      pub stored : Pairs (IsStored req.organisation_id j.id b.accounts) req.lines added
      pub appended : b'.lines ≡ b.lines ++ added
      pub listed : b'.journals ≡ b.journals ++ (dated_row j ∷ [])
      pub one_sided : All IsOneSided req.lines
      pub balanced : debit_sum added ≡ credit_sum added
      pub at_least_two : 2 ≤ length added
      pub same_accounts : b'.accounts ≡ b.accounts
      pub same_periods : b'.periods ≡ b.periods
      pub dated : j.journal_date ≡ posting_date env req
      pub allowed :
          (period : FiscalPeriod)
          → IsAmong period b.periods
          → contains req.organisation_id (posting_date env req) period ≡ true
          → AllLocked req.organisation_id (posting_date env req) b.periods
          → IsOk (env.require principal "accounting.override_locked_period")

    -- What `insert_journal` adds to the books.
    record InsertEffect (req : JournalRequest D) (date : Time) (b b' : Books D) (j : Journal)
        : Type 0 where
      added : List (JournalLine D)
      stored : Pairs (IsStored req.organisation_id j.id b.accounts) req.lines added
      appended : b'.lines ≡ b.lines ++ added
      listed : b'.journals ≡ b.journals ++ (dated_row j ∷ [])
      same_accounts : b'.accounts ≡ b.accounts
      same_periods : b'.periods ≡ b.periods
      dated : j.journal_date ≡ date

    insert_journal-InsertEffect :
        (principal : Principal) (req : JournalRequest D) (date : Time) (b : Books D) {j : Journal}
        {b' : Books D}
        → insert_journal units env principal req date b ≡ ok (j, b')
        → InsertEffect req date b b' j
    unfolding insert_journal draw_id create_journal record_audit ◌>>=◌
    insert_journal-InsertEffect principal req date b {j} {b'} h =
        elim (Result-cases (env.new_id b.drawn)) [
          | inr (x, e) ↦ absurd (cc (rw (e, ◌>>=◌, draw_id) at h))
          | inl (id, e1) ↦
              let h1 = rw (e1, ◌>>=◌, draw_id) at h in
              let made : Journal = record {
                id = id;
                organisation_id = req.organisation_id;
                source_type = req.source_type;
                source_id = req.source_id;
                journal_date = date;
                description = req.description;
                created_by = req.created_by;
                created_at = env.now;
              } in
              let mid : Books D = record b {
                drawn = suc b.drawn;
                journals = b.journals ++ (dated_row made ∷ []);
              } in
              elim (Result-cases
                (post_lines units env req.organisation_id id env.now req.lines mid)) [
                  | inr (x, e) ↦ absurd (cc (rw (e, ◌>>◌, ◌>>=◌, create_journal) at h1))
                  | inl ((u, c), e2) ↦
                      let h2 = rw (e2, ◌>>◌, ◌>>=◌, create_journal) at h1 in
                      let e =
                        post_lines-LinesEffect units env req.organisation_id id env.now req.lines
                          mid e2 in
                      let returned : made ≡ j = ground arith in
                      let lines_kept : b'.lines ≡ c.lines = ground arith in
                      let journals_kept : b'.journals ≡ c.journals = ground arith in
                      let accounts_kept : b'.accounts ≡ c.accounts = ground arith in
                      let periods_kept : b'.periods ≡ c.periods = ground arith in
                      subst (InsertEffect req date b b') returned (record {
                        added = e.added;
                        stored = e.stored;
                        appended = lines_kept ∙ e.appended;
                        listed = journals_kept ∙ e.same_journals;
                        same_accounts = accounts_kept ∙ e.same_accounts;
                        same_periods = periods_kept ∙ e.same_periods;
                        dated = refl;
                      })
                ]
        ]

    module _ (group : IsGroup D) (order : IsOrder D) where
      -- A journal that `doPost` returns is listed, with its date at midnight, and with at least two
      -- lines, one for each requested line
      -- and with its amounts, account and party; their debits and credits have one sum, and the lines,
      -- accounts and periods that stood in the books before are kept. If its day lies in a period, and
      -- every period it lies in is locked, the principal may override the lock.
      pub do_post-IsPosted :
          (principal : Principal) (req : JournalRequest D) (b : Books D) {j : Journal}
          {b' : Books D}
          → do_post units env principal req b ≡ ok (j, b')
          → IsPosted principal req b b' j
      unfolding do_post ◌>>=◌
      do_post-IsPosted principal req b {j} {b'} h = elim (Bool-cases (leb 2 (length req.lines))) [
        | inr e ↦ absurd (cc (rw (e, ◌>>=◌, require_that) at h))
        | inl e0 ↦
            let h0 = rw (e0, ◌>>=◌, require_that) at h in
            elim (Result-cases (validate_balanced req.lines)) [
              | inr (x, e) ↦ absurd (cc (rw (e, ◌>>=◌, lift) at h0))
              | inl (totals, e1) ↦
                  let h1 = rw (e1, ◌>>=◌, lift) at h0 in
                  let date : Time = posting_date env req in
                  elim (Result-cases
                    (check_period units env principal req.organisation_id date b)) [
                      | inr (x, e) ↦ absurd (cc (rw (e, ◌>>=◌) at h1))
                      | inl ((u, c), e2) ↦
                          let inserted : insert_journal units env principal req date b
                              ≡ ok (j, b') =
                            rw (sym (check_period-same principal req.organisation_id date b e2))
                              (rw (e2, ◌>>=◌) at h1) in
                          let i = insert_journal-InsertEffect principal req date b inserted in
                          let (one_sided, totals_equal) =
                            validate_balanced_ok group order req.lines e1 in
                          let (debits, credits, count) =
                            Pairs-debit_sum req.organisation_id j.id b.accounts req.lines i.added
                              i.stored in
                          record {
                            added = i.added;
                            stored = i.stored;
                            appended = i.appended;
                            listed = i.listed;
                            one_sided = one_sided;
                            balanced = debits ∙ totals_equal ∙ sym credits;
                            at_least_two = rw count (ground arith);
                            same_accounts = i.same_accounts;
                            same_periods = i.same_periods;
                            dated = i.dated;
                            allowed = λ period among inside all.
                                check_period-locked units env principal req.organisation_id date b
                                  period among inside all e2;
                          }
                    ]
            ]
      ]
