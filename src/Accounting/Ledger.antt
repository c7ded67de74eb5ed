-- ===== src/Accounting/Ledger.antt =====
-- `GetPartyLedger` of internal/modules/accounting/app/service.go, and the query
-- `ListByPartyUpTo` of pg/pg.go.
pub mod Closing
use billing_platform.Base.{
  ◌-◌, ◌/◌, ◌*◌, ◌&&◌, ◌||◌, not, ℕ, Bool, true, false, Option, none, some, List, [], ◌∷◌, ◌++◌,
  if◌then◌else◌, Result, ok, err, ◌>>=◌, ◌>>◌, Uuid, Time, ◌==◌, leb, ltb, map,
}
use billing_platform.Base
use billing_platform.Decimal.{Decimal, is_positive, is_zero, min}
use billing_platform.Money
use billing_platform.Money.{Money, MinorUnits}
use billing_platform.Transaction.{Env, Principal}
use billing_platform.Accounting.Types.{Journal, JournalLine, LedgerRow, LedgerEntry, AgeingBucket}
use billing_platform.Accounting.Books.{Books}

unfoldable pub find_journal : Uuid → List Journal → Option Journal
find_journal id [] = none
find_journal id (j ∷ journals) = if j.id == id then some j else find_journal id journals

-- `jl.party_id = $2`, which NULL does not satisfy.
unfoldable pub is_party : Option Uuid → Uuid → Bool
is_party none party = false
is_party (some id) party = id == party

-- A row with the time by which rows of one date are ordered.
abbrev pub DatedRow : Type 0 → Type 0
DatedRow D = Time × LedgerRow D

module _ {D : Type 0} where
  unfoldable pub row_of : Journal → JournalLine D → DatedRow D
  row_of j l = (
    j.created_at,
    record {
      journal_id = j.id;
      journal_date = j.journal_date;
      source_type = j.source_type;
      source_id = j.source_id;
      description = j.description;
      debit = l.debit;
      credit = l.credit;
    },
  )

  -- `ORDER BY j.journal_date, j.created_at`, an insertion sort.
  unfoldable pub precedes : DatedRow D → DatedRow D → Bool
  precedes (at, r) (bt, s) =
      ltb r.journal_date s.journal_date || ((r.journal_date == s.journal_date) && leb at bt)

  unfoldable pub insert_row : DatedRow D → List (DatedRow D) → List (DatedRow D)
  unfolding precedes
  insert_row r [] = r ∷ []
  insert_row r (s ∷ rows) =
      let rest = insert_row r rows in if precedes r s then r ∷ s ∷ rows else s ∷ rest

  unfoldable pub order_rows : List (DatedRow D) → List (DatedRow D)
  unfolding insert_row
  order_rows [] = []
  order_rows (r ∷ rows) = insert_row r (order_rows rows)

  -- The join and its WHERE clause.
  unfoldable pub select_rows :
      Uuid → Uuid → Time → List Journal → List (JournalLine D) → List (DatedRow D)
  unfolding row_of is_party
  select_rows org party as_of journals [] = []
  select_rows org party as_of journals (l ∷ lines) =
      let rest = select_rows org party as_of journals lines in
      if (l.organisation_id == org) && is_party l.party_id party
      then elim (find_journal l.journal_id journals) [
        | none ↦ rest
        | some j ↦ if leb j.journal_date as_of then row_of j l ∷ rest else rest
      ]
      else rest

  unfoldable pub list_by_party_up_to : Uuid → Uuid → Time → Books D → List (LedgerRow D)
  unfolding order_rows select_rows
  list_by_party_up_to org party as_of b =
      map (λ (r : DatedRow D). r.1) (order_rows (select_rows org party as_of b.journals b.lines))

module _ {D : Type 0} ⦃d : Decimal D⦄ (units : MinorUnits) where
  -- The loop of `GetPartyLedger`.
  unfoldable pub ledger_entries : D → List (LedgerRow D) → Result (List (LedgerEntry D))
  ledger_entries running [] = ok []
  ledger_entries running (r ∷ rows) =
      let balance = d.sub (d.add running r.debit.amount) r.credit.amount in
      let rest = ledger_entries balance rows in
      elim (Money.new units balance "INR") [
        | err e ↦ err e
        | ok shown ↦ elim rest [
          | err e ↦ err e
          | ok entries ↦ ok (
              record {
                journal_id = r.journal_id;
                journal_date = r.journal_date;
                source_type = r.source_type;
                source_id = r.source_id;
                description = r.description;
                debit = r.debit;
                credit = r.credit;
                running_balance = shown;
              }
              ∷ entries)
        ]
      ]

  unfoldable pub get_party_ledger :
      Env → Principal → Uuid → Time → Books D → Result (List (LedgerEntry D))
  unfolding ledger_entries list_by_party_up_to
  get_party_ledger env principal party as_of b = do
    env.require principal "accounting.view"
    ledger_entries d.nought (list_by_party_up_to principal.organisation_id party as_of b)
