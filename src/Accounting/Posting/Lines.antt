-- ===== src/Accounting/Posting/Lines.antt =====
-- What the insertion of a journal's lines does to the tables.
use mathlib.Core.Path.{subst}
use mathlib.Core.List.{append-nil, append_assoc}
use billing_platform.Base.{
  ◌≡◌, refl, sym, ap, ◌∙◌, true, some, List, [], ◌∷◌, ◌++◌, ok, arith, Pairs, Result-cases,
  Option-cases, Bool-cases, inl, inr, Uuid, Time,
}
use billing_platform.Decimal.{Decimal}
use billing_platform.Money
use billing_platform.Money.{Money, MinorUnits}
use billing_platform.Money.Laws.{new_ok}
use billing_platform.Accounting.Types.{Account, JournalLine, JournalLineRequest}
use billing_platform.Transaction.{◌>>=◌, lift, Env}
use billing_platform.Accounting.Books.{
  Books, draw_id, get_by_code, find_account, create_line, line_check,
}
use billing_platform.Accounting.Posting.{post_line, post_lines}

module _ {D : Type 0} ⦃d : Decimal D⦄ where
  abbrev pub debit_sum : List (JournalLine D) → D
  debit_sum [] = d.nought
  debit_sum (l ∷ lines) = d.add l.debit.amount (debit_sum lines)

  abbrev pub credit_sum : List (JournalLine D) → D
  credit_sum [] = d.nought
  credit_sum (l ∷ lines) = d.add l.credit.amount (credit_sum lines)

  -- The stored line is what was asked for, on the account with the code.
  pub record IsStored (org journal_id : Uuid) (accounts : List Account) (l : JournalLineRequest D)
      (line : JournalLine D) : Type 0 where
    pub of_journal : line.journal_id ≡ journal_id
    pub of_organisation : line.organisation_id ≡ org
    pub account : Account
    pub found : find_account org l.account_code accounts ≡ some account
    pub on_account : line.account_id ≡ account.id
    pub of_party : line.party_id ≡ l.party_id
    pub debit_is : line.debit.amount ≡ l.debit
    pub credit_is : line.credit.amount ≡ l.credit
    pub checked : line_check line ≡ true

  module _ (units : MinorUnits) (env : Env) (org journal_id : Uuid) (now : Time) where
    record LineEffect (l : JournalLineRequest D) (b b' : Books D) : Type 0 where
      line : JournalLine D
      stored : IsStored org journal_id b.accounts l line
      appended : b'.lines ≡ b.lines ++ (line ∷ [])
      same_accounts : b'.accounts ≡ b.accounts
      same_journals : b'.journals ≡ b.journals
      same_periods : b'.periods ≡ b.periods

    post_line-LineEffect :
        (l : JournalLineRequest D) (b : Books D) {b' : Books D}
        → post_line units env org journal_id now l b ≡ ok (tt, b')
        → LineEffect l b b'
    unfolding post_line get_by_code draw_id create_line ◌>>=◌
    post_line-LineEffect l b {b'} h =
        elim (Option-cases (find_account org l.account_code b.accounts)) [
          | inl e ↦ absurd (cc (rw (e, ◌>>=◌, get_by_code) at h))
          | inr (acct, e1) ↦
              let h1 = rw (e1, ◌>>=◌, get_by_code) at h in
              elim (Result-cases (env.new_id b.drawn)) [
                | inr (x, e) ↦ absurd (cc (rw (e, ◌>>=◌, draw_id) at h1))
                | inl (line_id, e2) ↦
                    let h2 = rw (e2, ◌>>=◌, draw_id) at h1 in
                    elim (Result-cases (Money.new {D = D} units l.debit "INR")) [
                      | inr (x, e) ↦ absurd (cc (rw (e, ◌>>=◌, lift) at h2))
                      | inl (debit, e3) ↦
                          let h3 = rw (e3, ◌>>=◌, lift) at h2 in
                          elim (Result-cases (Money.new {D = D} units l.credit "INR")) [
                            | inr (x, e) ↦ absurd (cc (rw (e, ◌>>=◌, lift) at h3))
                            | inl (credit, e4) ↦
                                let h4 = rw (e4, ◌>>=◌, lift) at h3 in
                                let line : JournalLine D = record {
                                  id = line_id;
                                  organisation_id = org;
                                  journal_id = journal_id;
                                  account_id = acct.id;
                                  party_id = l.party_id;
                                  debit = debit;
                                  credit = credit;
                                  description = l.description;
                                  created_at = now;
                                } in
                                elim (Bool-cases (line_check line)) [
                                  | inr e ↦ absurd (cc (rw (e, create_line) at h4))
                                  | inl e5 ↦
                                      let h5 = rw (e5, create_line) at h4 in
                                      record {
                                        line = line;
                                        stored = record {
                                          of_journal = refl;
                                          of_organisation = refl;
                                          account = acct;
                                          found = e1;
                                          on_account = refl;
                                          of_party = refl;
                                          debit_is = (new_ok units l.debit "INR" e3).0;
                                          credit_is = (new_ok units l.credit "INR" e4).0;
                                          checked = e5;
                                        };
                                        appended = ground arith;
                                        same_accounts = ground arith;
                                        same_journals = ground arith;
                                        same_periods = ground arith;
                                      }
                                ]
                          ]
                    ]
              ]
        ]

    -- The lines that a journal adds, one for each requested one.
    pub record LinesEffect (ls : List (JournalLineRequest D)) (b b' : Books D) : Type 0 where
      pub added : List (JournalLine D)
      pub stored : Pairs (IsStored org journal_id b.accounts) ls added
      pub appended : b'.lines ≡ b.lines ++ added
      pub same_accounts : b'.accounts ≡ b.accounts
      pub same_journals : b'.journals ≡ b.journals
      pub same_periods : b'.periods ≡ b.periods

    pub post_lines-LinesEffect :
        (ls : List (JournalLineRequest D)) (b : Books D) {b' : Books D}
        → post_lines units env org journal_id now ls b ≡ ok (tt, b')
        → LinesEffect ls b b'
    unfolding post_lines ◌>>=◌
    post_lines-LinesEffect [] b {b'} h =
        let e : b' ≡ b = cc in
        record {
          added = [];
          stored = tt;
          appended = ap (λ (x : Books D). x.lines) e ∙ sym (append-nil b.lines);
          same_accounts = ap (λ (x : Books D). x.accounts) e;
          same_journals = ap (λ (x : Books D). x.journals) e;
          same_periods = ap (λ (x : Books D). x.periods) e;
        }
    post_lines-LinesEffect (l ∷ ls) b {b'} h =
        elim (Result-cases (post_line units env org journal_id now l b)) [
          | inr (x, e) ↦ absurd (cc (rw (e, ◌>>=◌) at h))
          | inl ((u, c), e) ↦
              let one = post_line-LineEffect l b e in
              let rest = post_lines-LinesEffect ls c {b' = b'} (rw (e, ◌>>=◌) at h) in
              record {
                added = one.line ∷ rest.added;
                stored = (
                  one.stored,
                  subst (λ accounts. Pairs (IsStored org journal_id accounts) ls rest.added)
                      one.same_accounts rest.stored,
                );
                appended =
                    rest.appended
                    ∙ ap (λ lines. lines ++ rest.added) one.appended
                    ∙ append_assoc b.lines (one.line ∷ []) rest.added;
                same_accounts = rest.same_accounts ∙ one.same_accounts;
                same_journals = rest.same_journals ∙ one.same_journals;
                same_periods = rest.same_periods ∙ one.same_periods;
              }
        ]
