-- ===== src/Accounting/Periods.antt =====
-- Fiscal periods and the chart of accounts of internal/modules/accounting/app/service.go.
use billing_platform.Base.{
  ◌&&◌, not, Bool, true, false, Option, none, some, List, [], ◌∷◌, String, if◌then◌else◌, ok, err,
  not_found, Uuid, ◌==◌,
}
use billing_platform.Transaction.{Action, Env, Principal, ◌>>=◌, ◌>>◌, pure, lift}
use billing_platform.Accounting.CashTypes.{CreateFiscalPeriodParams}
use billing_platform.Accounting.Types.{
  AccountType, asset, liability, equity, income, expense, NormalBalance, debit_balance,
  credit_balance, FiscalPeriod,
}
use billing_platform.Accounting.Books.{Books, draw_id, record_audit}
use billing_platform.Accounting.Rows.{
  find_period, set_locked, count_by_organisation, create_account, create_period,
}

pub record SeedAccount : Type 0 where
  pub code : String
  pub name : String
  pub typ : AccountType
  pub balance : NormalBalance

abbrev seed : String → String → AccountType → NormalBalance → SeedAccount
seed code name typ balance = record { code = code; name = name; typ = typ; balance = balance }

abbrev pub default_chart : List SeedAccount
default_chart =
    seed "1000" "Cash" asset debit_balance
    ∷ seed "1010" "Bank" asset debit_balance
    ∷ seed "1100" "Accounts Receivable" asset debit_balance
    ∷ seed "1400" "GST Input Tax Credit" asset debit_balance
    ∷ seed "2000" "Accounts Payable" liability credit_balance
    ∷ seed "2100" "GST Output Tax Payable" liability credit_balance
    ∷ seed "3000" "Owner's Equity" equity credit_balance
    ∷ seed "3100" "Opening Balance Equity" equity credit_balance
    ∷ seed "4000" "Sales" income credit_balance
    ∷ seed "4100" "Sales Returns" income debit_balance
    ∷ seed "5000" "Purchases" expense debit_balance
    ∷ seed "5100" "Purchase Returns" expense credit_balance
    ∷ seed "5200" "Freight" expense debit_balance
    ∷ seed "5300" "Discounts" expense debit_balance
    ∷ seed "5900" "Round-off" expense debit_balance
    ∷ seed "5990" "General Expenses" expense debit_balance
    ∷ []

module _ {D : Type 0} (env : Env) where
  -- The loop of `EnsureDefaultChartOfAccounts`.
  unfoldable pub seed_accounts : Uuid → List SeedAccount → Action (Books D) (Unit {0})
  seed_accounts org [] = pure tt
  seed_accounts org (sa ∷ chart) = do
    id ← draw_id env
    create_account (record {
      id = id;
      organisation_id = org;
      code = sa.code;
      name = sa.name;
      account_type = sa.typ;
      normal_balance = sa.balance;
      parent_account_id = none;
      is_system = true;
      is_active = true;
      created_at = env.now;
    })
    seed_accounts org chart

  unfoldable pub seed_chart : Principal → Uuid → Action (Books D) (Unit {0})
  seed_chart principal org = do
    seed_accounts org default_chart
    record_audit (record {
      action = "accounting.chart_of_accounts_seeded";
      entity_id = org;
      actor = principal.user_id;
      at = env.now;
    })

  unfoldable pub seed_if_none : Principal → Uuid → Action (Books D) (Unit {0})
  unfolding seed_chart
  seed_if_none principal org b =
      let seeded = seed_chart principal org b in
      if count_by_organisation org b.accounts == 0 then seeded else ok (tt, b)

  unfoldable pub ensure_default_chart_of_accounts : Principal → Uuid → Action (Books D) (Unit {0})
  ensure_default_chart_of_accounts principal org = do
    lift (env.require principal "accounting.post")
    seed_if_none principal org

  unfoldable pub create_fiscal_period :
      Principal → CreateFiscalPeriodParams → Action (Books D) FiscalPeriod
  create_fiscal_period principal p = do
    lift (env.require principal "accounting.post")
    id ← draw_id env
    let fp : FiscalPeriod = record {
      id = id;
      organisation_id = principal.organisation_id;
      start_date = p.start_date;
      end_date = p.end_date;
      label = p.label;
      is_locked = false;
      locked_at = none;
      locked_by = none;
      created_at = env.now;
    }
    create_period fp
    pure fp

  -- The update of `SetPeriodLock`, and the audit entry.
  unfoldable pub write_lock : Principal → Uuid → Bool → Action (Books D) (Unit {0})
  write_lock principal id locked = do
    λ b.
        let by : Option Uuid = if locked then some principal.user_id else none in
        let at : Option Uuid = if locked then some env.now else none in
        ok (
          tt,
          record b { periods = set_locked principal.organisation_id id locked by at b.periods },
        )
    record_audit (record {
      action = "accounting.fiscal_period_lock_changed";
      entity_id = id;
      actor = principal.user_id;
      at = env.now;
    })

  -- Opening a period that is locked takes the permission to override.
  unfoldable pub change_lock : Principal → Uuid → Bool → Action (Books D) (Unit {0})
  unfolding write_lock
  change_lock principal id locked b = elim (find_period principal.organisation_id id b.periods) [
    | none ↦ err not_found
    | some existing ↦
        let written = write_lock principal id locked b in
        if existing.is_locked && not locked
        then elim (env.require principal "accounting.override_locked_period") [
          | err e ↦ err e
          | ok _ ↦ written
        ]
        else written
  ]

  unfoldable pub set_period_lock : Principal → Uuid → Bool → Action (Books D) (Unit {0})
  set_period_lock principal id locked = do
    lift (env.require principal "accounting.post")
    change_lock principal id locked
