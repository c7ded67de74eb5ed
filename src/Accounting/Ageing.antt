-- ===== src/Accounting/Ageing.antt =====
-- `GetAgeing` of internal/modules/accounting/app/service.go.
pub mod Open
pub mod Bands
pub mod Total
use billing_platform.Base.{
  ◌-◌, ◌/◌, ◌*◌, ◌&&◌, ◌||◌, not, ℕ, Bool, true, false, Option, none, some, List, [], ◌∷◌, ◌++◌,
  if◌then◌else◌, Result, ok, err, ◌>>=◌, ◌>>◌, Uuid, Time, ◌==◌, leb, ltb, map,
}
use billing_platform.Base
use billing_platform.Decimal.{Decimal, is_positive, is_zero, min}
use billing_platform.Money
use billing_platform.Money.{Money, MinorUnits}
use billing_platform.Transaction.{Env, Principal}
use billing_platform.Accounting.Types.{Journal, JournalLine, LedgerRow, LedgerEntry, AgeingBucket}
use billing_platform.Accounting.Books.{Books}
use billing_platform.Accounting.Ledger.{list_by_party_up_to}

-- A debit that is still open: its date and what is left of it.
abbrev pub OpenDebit : Type 0 → Type 0
OpenDebit D = Time × D

module _ {D : Type 0} ⦃d : Decimal D⦄ where
  -- The inner loop: one credit closes the oldest open debits first.
  unfoldable pub consume : D → List (OpenDebit D) → List (OpenDebit D)
  consume credit [] = []
  consume credit ((date, amount) ∷ open_debits) =
      let taken = min amount credit in
      elim (is_zero credit) [
        | true ↦ (date, amount) ∷ open_debits
        | false ↦ elim (is_zero amount) [
          | true ↦ (date, amount) ∷ consume credit open_debits
          | false ↦ (date, d.sub amount taken) ∷ consume (d.sub credit taken) open_debits
        ]
      ]

  -- The outer loop.
  unfoldable pub open_after : List (OpenDebit D) → List (LedgerRow D) → List (OpenDebit D)
  unfolding consume
  open_after open_debits [] = open_debits
  open_after open_debits (r ∷ rows) = elim (is_positive r.debit.amount) [
    | true ↦ open_after (open_debits ++ ((r.journal_date, r.debit.amount) ∷ [])) rows
    | false ↦ open_after (consume r.credit.amount open_debits) rows
  ]

  -- `sort.Slice` by date.
  unfoldable pub insert_open : OpenDebit D → List (OpenDebit D) → List (OpenDebit D)
  insert_open o [] = o ∷ []
  insert_open o (x ∷ open_debits) =
      let rest = insert_open o open_debits in if leb o.0 x.0 then o ∷ x ∷ open_debits else x ∷ rest

  unfoldable pub order_open : List (OpenDebit D) → List (OpenDebit D)
  unfolding insert_open
  order_open [] = []
  order_open (o ∷ open_debits) = insert_open o (order_open open_debits)

-- `int(asOf.Sub(date).Hours() / 24)`, of a date that is not after `as_of`.
unfoldable pub days_between : Time → Time → ℕ
days_between as_of date = (as_of - date) / (86400 * 1000000000)

module _ {D : Type 0} ⦃d : Decimal D⦄ where
  -- `x, _ = x.Add(y)`: on an error the zero value.
  abbrev pub add_or_zero : Money D → Money D → Money D
  add_or_zero m other = elim (Money.add m other) [
    | ok sum ↦ sum
    | err _ ↦ record { amount = d.nought; currency = "" }
  ]

  unfoldable pub add_to_bucket : AgeingBucket D → ℕ → Money D → AgeingBucket D
  add_to_bucket bucket days amount =
      let total = add_or_zero bucket.total amount in
      if leb days 0
      then record bucket { current = add_or_zero bucket.current amount; total = total }
      else if leb days 30
      then record bucket { days1_to30 = add_or_zero bucket.days1_to30 amount; total = total }
      else if leb days 60
      then record bucket { days31_to60 = add_or_zero bucket.days31_to60 amount; total = total }
      else if leb days 90
      then record bucket { days61_to90 = add_or_zero bucket.days61_to90 amount; total = total }
      else record bucket { days90_plus = add_or_zero bucket.days90_plus amount; total = total }

module _ {D : Type 0} ⦃d : Decimal D⦄ (units : MinorUnits) where
  unfoldable pub fill_bucket : Time → AgeingBucket D → List (OpenDebit D) → Result (AgeingBucket D)
  unfolding add_to_bucket
  fill_bucket as_of bucket [] = ok bucket
  fill_bucket as_of bucket ((date, amount) ∷ open_debits) = elim (is_zero amount) [
    | true ↦ fill_bucket as_of bucket open_debits
    | false ↦ elim (Money.new units amount "INR") [
      | err e ↦ err e
      | ok shown ↦
          fill_bucket as_of (add_to_bucket bucket (days_between as_of date) shown) open_debits
    ]
  ]

  unfoldable pub ageing_of : Time → List (LedgerRow D) → Result (AgeingBucket D)
  unfolding fill_bucket open_after order_open
  ageing_of as_of rows = do
    zero ← Money.zero_money units "INR"
    let bucket : AgeingBucket D = record {
      current = zero;
      days1_to30 = zero;
      days31_to60 = zero;
      days61_to90 = zero;
      days90_plus = zero;
      total = zero;
    }
    fill_bucket as_of bucket (order_open (open_after [] rows))

  unfoldable pub get_ageing : Env → Principal → Uuid → Time → Books D → Result (AgeingBucket D)
  unfolding ageing_of list_by_party_up_to
  get_ageing env principal party as_of b = do
    env.require principal "accounting.view"
    ageing_of as_of (list_by_party_up_to principal.organisation_id party as_of b)
