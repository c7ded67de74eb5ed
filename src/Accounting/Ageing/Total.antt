-- ===== src/Accounting/Ageing/Total.antt =====
-- The total of an ageing report against the ledger of the same party.
use mathlib.Core.Path.{subst}
use billing_platform.Base.{
  ◌≡◌, refl, sym, ap, ◌∙◌, ◌&&◌, true, false, List, [], ◌∷◌, map, ok, err, Uuid, Time, ◌==◌, leb,
  All, Bool-cases, Option-cases, Result-cases, inl, inr, Result,
}
use billing_platform.Decimal.{Decimal, IsGroup, IsOrder, is_negative}
use billing_platform.Decimal.Group.{nought_add}
use billing_platform.Money
use billing_platform.Money.{Money, MinorUnits}
use billing_platform.Money.Laws.{new_ok}
use billing_platform.Transaction.{Env, Principal}
use billing_platform.Accounting.Types.{Journal, JournalLine, LedgerRow, LedgerEntry, AgeingBucket}
use billing_platform.Accounting.Books.{Books, line_check}
use billing_platform.Accounting.Ledger.{
  find_journal, is_party, DatedRow, row_of, precedes, insert_row, order_rows, select_rows,
  list_by_party_up_to, ledger_entries, get_party_ledger,
}
use billing_platform.Accounting.Ledger.Closing.{closing, ledger_entries-closing}
use billing_platform.Accounting.Ageing.{open_after, order_open, ageing_of, get_ageing}
use billing_platform.Accounting.Ageing.Open.{
  open_sum, IsChecked, StaysUp, open_after-sum, order_open-sum,
}
use billing_platform.Accounting.Ageing.Bands.{bands_sum, IsSummed, fill_bucket-IsSummed}

module _ {D : Type 0} ⦃d : Decimal D⦄ where
  abbrev IsCheckedRow : DatedRow D → Type 0
  IsCheckedRow r = IsChecked r.1

  insert_row-IsChecked :
      (r : DatedRow D) (rows : List (DatedRow D))
      → IsCheckedRow r
      → All IsCheckedRow rows
      → All IsCheckedRow (insert_row r rows)
  unfolding insert_row
  insert_row-IsChecked r [] h k = (h, tt)
  insert_row-IsChecked r (s ∷ rows) h k = elim (Bool-cases (precedes r s)) [
    | inl e ↦ rw (insert_row, e) (h, k)
    | inr e ↦ rw (insert_row, e) (k.0, insert_row-IsChecked r rows h k.1)
  ]

  order_rows-IsChecked :
      (rows : List (DatedRow D)) → All IsCheckedRow rows → All IsCheckedRow (order_rows rows)
  unfolding order_rows
  order_rows-IsChecked [] k = tt
  order_rows-IsChecked (r ∷ rows) k =
      insert_row-IsChecked r (order_rows rows) k.0 (order_rows-IsChecked rows k.1)

  select_rows-IsChecked :
      (org party : Uuid) (as_of : Time) (journals : List Journal) (lines : List (JournalLine D))
      → All (λ l. line_check l ≡ true) lines
      → All IsCheckedRow (select_rows org party as_of journals lines)
  unfolding select_rows row_of line_check
  select_rows-IsChecked org party as_of journals [] k = tt
  select_rows-IsChecked org party as_of journals (l ∷ lines) k =
      let rest = select_rows-IsChecked org party as_of journals lines k.1 in
      elim (Bool-cases ((l.organisation_id == org) && is_party l.party_id party)) [
        | inr e ↦ rw (select_rows, e) rest
        | inl e ↦ elim (Option-cases (find_journal l.journal_id journals)) [
          | inl e1 ↦ rw (select_rows, e, e1) rest
          | inr (j, e1) ↦ elim (Bool-cases (leb j.journal_date as_of)) [
            | inr e2 ↦ rw (select_rows, e, e1, e2) rest
            | inl e2 ↦ rw (select_rows, e, e1, e2) (k.0, rest)
          ]
        ]
      ]

  All-bare :
      (rows : List (DatedRow D))
      → All IsCheckedRow rows
      → All IsChecked (map (λ (r : DatedRow D). r.1) rows)
  All-bare [] k = tt
  All-bare (r ∷ rows) k = (k.0, All-bare rows k.1)

  list_by_party_up_to-IsChecked :
      (org party : Uuid) (as_of : Time) (b : Books D)
      → All (λ l. line_check l ≡ true) b.lines
      → All IsChecked (list_by_party_up_to org party as_of b)
  unfolding list_by_party_up_to
  list_by_party_up_to-IsChecked org party as_of b k =
      All-bare _
        (order_rows-IsChecked _ (select_rows-IsChecked org party as_of b.journals b.lines k))

  -- An entry that shows no credit balance.
  abbrev pub IsOwed : LedgerEntry D → Type 0
  IsOwed e = is_negative e.running_balance.amount ≡ false

  abbrev entries_of : Result (List (LedgerEntry D)) → List (LedgerEntry D)
  entries_of (ok entries) = entries
  entries_of (err x) = []

  ledger_entries-StaysUp :
      (units : MinorUnits) (running : D) (rows : List (LedgerRow D))
      {entries : List (LedgerEntry D)}
      → ledger_entries units running rows ≡ ok entries
      → All IsOwed entries
      → StaysUp running rows
  unfolding ledger_entries
  ledger_entries-StaysUp units running [] h k = tt
  ledger_entries-StaysUp units running (r ∷ rows) {entries} h k =
      let balance = d.sub (d.add running r.debit.amount) r.credit.amount in
      elim (Result-cases (Money.new units balance "INR")) [
        | inr (x, e) ↦ absurd (cc (rw (ledger_entries, e) at h))
        | inl (shown, e) ↦ elim (Result-cases (ledger_entries units balance rows)) [
          | inr (x, e1) ↦ absurd (cc (rw (ledger_entries, e, e1) at h))
          | inl (rest, e1) ↦
              let owed =
                subst (All IsOwed) (sym (ap entries_of (rw (ledger_entries, e, e1) at h))) k in
              (
                ap is_negative (sym (new_ok units balance "INR" e).0) ∙ owed.0,
                ledger_entries-StaysUp units balance rows e1 owed.1,
              )
        ]
      ]

  module _ (group : IsGroup D) (order : IsOrder D) (units : MinorUnits) (env : Env) where
    ageing_of-IsSummed :
        (as_of : Time) (rows : List (LedgerRow D)) {bucket : AgeingBucket D}
        → ageing_of units as_of rows ≡ ok bucket
        → IsSummed bucket × (bucket.total.amount ≡ open_sum (open_after [] rows))
    unfolding ageing_of Money.zero_money
    ageing_of-IsSummed as_of rows h = elim (Result-cases (Money.new {D = D} units d.nought "INR")) [
      | inr (x, e) ↦ absurd (cc (rw (ageing_of, Money.zero_money, e) at h))
      | inl (zero, e) ↦
          let (zero_is, code_is, known) = new_ok units d.nought "INR" e in
          let level : d.add zero.amount zero.amount ≡ zero.amount =
            ap (d.add zero.amount) zero_is ∙ group.add_nought zero.amount in
          let (w, sum) =
            fill_bucket-IsSummed group order units as_of _ (order_open (open_after [] rows))
              (
                code_is,
                code_is,
                code_is,
                code_is,
                code_is,
                code_is,
                sym (
                    ap (λ t. d.add (d.add (d.add t zero.amount) zero.amount) zero.amount) level
                    ∙ ap (λ t. d.add (d.add t zero.amount) zero.amount) level
                    ∙ ap (λ t. d.add t zero.amount) level
                    ∙ level),
              )
              (rw (ageing_of, Money.zero_money, e) at h) in
          (
            w,
            sum
                ∙ ap (λ t. d.add t (open_sum (order_open (open_after [] rows)))) zero_is
                ∙ nought_add group _
                ∙ order_open-sum group order (open_after [] rows),
          )
    ]

    -- Where every journal line passed the table's checks and every entry of a party's ledger shows
    -- a balance that is not negative, the total of the party's ageing report on the same date is
    -- the balance that the ledger closes with, and it is the sum of the five bands.
    pub get_ageing-closing :
        (principal : Principal) (party : Uuid) (as_of : Time) (b : Books D)
        {bucket : AgeingBucket D} {entries : List (LedgerEntry D)}
        → All (λ l. line_check l ≡ true) b.lines
        → get_ageing units env principal party as_of b ≡ ok bucket
        → get_party_ledger units env principal party as_of b ≡ ok entries
        → All IsOwed entries
        → (bucket.total.amount ≡ bands_sum bucket)
          × (bucket.total.amount ≡ closing d.nought entries)
    unfolding get_ageing get_party_ledger
    get_ageing-closing principal party as_of b checked h k owed =
        elim (Result-cases (env.require principal "accounting.view")) [
          | inr (x, e) ↦ absurd (cc (rw (get_ageing, e) at h))
          | inl (u, e) ↦
              let rows = list_by_party_up_to principal.organisation_id party as_of b in
              let listed : ledger_entries units d.nought rows ≡ ok _ =
                rw (get_party_ledger, e) at k in
              let (summed, total) = ageing_of-IsSummed as_of rows (rw (get_ageing, e) at h) in
              (
                summed.6,
                total
                    ∙ open_after-sum group order d.nought [] rows refl
                        (list_by_party_up_to-IsChecked principal.organisation_id party as_of b
                          checked)
                        (ledger_entries-StaysUp units d.nought rows listed owed)
                    ∙ sym (ledger_entries-closing group units d.nought rows listed),
              )
        ]
