-- ===== src/Accounting/Ledger/Closing.antt =====
-- The ledger of `GetPartyLedger` against sums over the journal lines.
use billing_platform.Base.{
  ◌≡◌, refl, sym, ap, ◌∙◌, ◌&&◌, none, some, List, [], ◌∷◌, map, if◌then◌else◌, Result, ok, err,
  Uuid, Time, ◌==◌, leb, Bool-cases, Option-cases, Result-cases, inl, inr,
}
use billing_platform.Decimal.{Decimal, IsGroup}
use billing_platform.Decimal.Group.{nought_add, add_left_comm}
use billing_platform.Money
use billing_platform.Money.{Money, MinorUnits}
use billing_platform.Money.Laws.{new_ok}
use billing_platform.Transaction.{Env, Principal}
use billing_platform.Accounting.Types.{Journal, JournalLine, LedgerRow, LedgerEntry}
use billing_platform.Accounting.Books.{Books}
use billing_platform.Accounting.Ledger.{
  find_journal, is_party, DatedRow, row_of, precedes, insert_row, order_rows, select_rows,
  list_by_party_up_to, ledger_entries, get_party_ledger,
}

module _ {D : Type 0} ⦃d : Decimal D⦄ where
  -- The balance that the last entry shows, or another one if there is no entry.
  abbrev pub closing : D → List (LedgerEntry D) → D
  closing balance [] = balance
  closing balance (e ∷ entries) = closing e.running_balance.amount entries

  abbrev closing_of : D → Result (List (LedgerEntry D)) → D
  closing_of balance (ok entries) = closing balance entries
  closing_of balance (err x) = balance

  -- What a journal line adds to the balance of a party on a date, read off the books.
  abbrev pub counted : Uuid → Uuid → Time → List Journal → JournalLine D → D
  counted org party as_of journals l =
      if (l.organisation_id == org) && is_party l.party_id party
      then elim (find_journal l.journal_id journals) [
        | none ↦ d.nought
        | some j ↦
            if leb j.journal_date as_of then d.sub l.debit.amount l.credit.amount else d.nought
      ]
      else d.nought

  abbrev pub balance_on : Uuid → Uuid → Time → List Journal → List (JournalLine D) → D
  balance_on org party as_of journals [] = d.nought
  balance_on org party as_of journals (l ∷ lines) =
      d.add (counted org party as_of journals l) (balance_on org party as_of journals lines)

  abbrev row_amount : LedgerRow D → D
  row_amount r = d.sub r.debit.amount r.credit.amount

  abbrev pub rows_sum : List (LedgerRow D) → D
  rows_sum [] = d.nought
  rows_sum (r ∷ rows) = d.add (row_amount r) (rows_sum rows)

  abbrev bare : List (DatedRow D) → List (LedgerRow D)
  bare = map (λ (r : DatedRow D). r.1)

  module _ (group : IsGroup D) where
    insert_row-sum :
        (r : DatedRow D) (rows : List (DatedRow D))
        → rows_sum (bare (insert_row r rows)) ≡ d.add (row_amount r.1) (rows_sum (bare rows))
    unfolding insert_row
    insert_row-sum r [] = refl
    insert_row-sum r (s ∷ rows) = elim (Bool-cases (precedes r s)) [
      | inl e ↦ rw (insert_row, e) refl
      | inr e ↦
          rw (insert_row, e)
            (ap (d.add (row_amount s.1)) (insert_row-sum r rows)
              ∙ add_left_comm group (row_amount s.1) (row_amount r.1) (rows_sum (bare rows)))
    ]

    order_rows-sum :
        (rows : List (DatedRow D)) → rows_sum (bare (order_rows rows)) ≡ rows_sum (bare rows)
    unfolding order_rows
    order_rows-sum [] = refl
    order_rows-sum (r ∷ rows) =
        insert_row-sum r (order_rows rows) ∙ ap (d.add (row_amount r.1)) (order_rows-sum rows)

    select_rows-sum :
        (org party : Uuid) (as_of : Time) (journals : List Journal) (lines : List (JournalLine D))
        → rows_sum (bare (select_rows org party as_of journals lines))
          ≡ balance_on org party as_of journals lines
    unfolding select_rows row_of
    select_rows-sum org party as_of journals [] = refl
    select_rows-sum org party as_of journals (l ∷ lines) =
        let rest = select_rows-sum org party as_of journals lines in
        elim (Bool-cases ((l.organisation_id == org) && is_party l.party_id party)) [
          | inr e ↦ rw (select_rows, balance_on, counted, e) (rest ∙ sym (nought_add group _))
          | inl e ↦ elim (Option-cases (find_journal l.journal_id journals)) [
            | inl e1 ↦
                rw (select_rows, balance_on, counted, e, e1) (rest ∙ sym (nought_add group _))
            | inr (j, e1) ↦ elim (Bool-cases (leb j.journal_date as_of)) [
              | inr e2 ↦
                  rw (select_rows, balance_on, counted, e, e1, e2) (rest ∙ sym (nought_add group _))
              | inl e2 ↦
                  rw (select_rows, balance_on, counted, e, e1, e2)
                    (ap (d.add (d.sub l.debit.amount l.credit.amount)) rest)
            ]
          ]
        ]

    -- The balance after a row, and what the rows after it add.
    pub after_row :
        (running : D) (r : LedgerRow D) (rows : List (LedgerRow D))
        → d.add (d.sub (d.add running r.debit.amount) r.credit.amount) (rows_sum rows)
          ≡ d.add running (rows_sum (r ∷ rows))
    after_row running r rows =
        ap (λ t. d.add t (rows_sum rows))
          (group.sub_add_neg _ _
            ∙ group.add_assoc running r.debit.amount _
            ∙ ap (d.add running) (sym (group.sub_add_neg _ _)))
        ∙ group.add_assoc running (row_amount r) (rows_sum rows)

    pub ledger_entries-closing :
        (units : MinorUnits) (running : D) (rows : List (LedgerRow D))
        {entries : List (LedgerEntry D)}
        → ledger_entries units running rows ≡ ok entries
        → closing running entries ≡ d.add running (rows_sum rows)
    unfolding ledger_entries
    ledger_entries-closing units running [] h =
        sym (ap (closing_of running) h) ∙ sym (group.add_nought running)
    ledger_entries-closing units running (r ∷ rows) {entries} h =
        let balance = d.sub (d.add running r.debit.amount) r.credit.amount in
        elim (Result-cases (Money.new units balance "INR")) [
          | inr (x, e) ↦ absurd (cc (rw (ledger_entries, e) at h))
          | inl (shown, e) ↦ elim (Result-cases (ledger_entries units balance rows)) [
            | inr (x, e1) ↦ absurd (cc (rw (ledger_entries, e, e1) at h))
            | inl (rest, e1) ↦
                sym (ap (closing_of running) (rw (ledger_entries, e, e1) at h))
                ∙ ap (λ t. closing t rest) (new_ok units balance "INR" e).0
                ∙ ledger_entries-closing units balance rows e1
                ∙ after_row running r rows
          ]
        ]

    -- The last running balance of a party's ledger (zero if it has no entries) is the sum, over
    -- the journal lines of the organisation and the party whose journal is dated up to the day
    -- asked for, of the debit less the credit.
    pub get_party_ledger-closing :
        (units : MinorUnits) (env : Env) (principal : Principal) (party : Uuid) (as_of : Time)
        (b : Books D) {entries : List (LedgerEntry D)}
        → get_party_ledger units env principal party as_of b ≡ ok entries
        → closing d.nought entries
          ≡ balance_on principal.organisation_id party as_of b.journals b.lines
    unfolding get_party_ledger list_by_party_up_to
    get_party_ledger-closing units env principal party as_of b {entries} h =
        elim (Result-cases (env.require principal "accounting.view")) [
          | inr (x, e) ↦ absurd (cc (rw (get_party_ledger, e) at h))
          | inl (u, e) ↦
              let rows = list_by_party_up_to principal.organisation_id party as_of b in
              ledger_entries-closing units d.nought rows (rw (get_party_ledger, e) at h)
              ∙ nought_add group _
              ∙ order_rows-sum _
              ∙ select_rows-sum principal.organisation_id party as_of b.journals b.lines
        ]
