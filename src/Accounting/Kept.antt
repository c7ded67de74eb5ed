-- ===== src/Accounting/Kept.antt =====
-- The steps beside the journal: the lines stand.
use billing_platform.Base.{
  ◌&&◌, not, sym, ap, Bool, List, [], ◌∷◌, String, Uuid, arith, Result-cases, Option-cases,
  Bool-cases, inl, inr, ◌==◌, ltb,
}
use billing_platform.Decimal.{Decimal, is_positive}
use billing_platform.Money.{MinorUnits}
use billing_platform.Transaction.{
  AuditEntry, Env, Principal, state_of, Keeps, Keeps-bind, Keeps-pure, Keeps-lift,
}
use billing_platform.Accounting.CashTypes.{
  BankAccount, Receipt, Payment, Reconciliation, CreateBankAccountParams,
  RecordReconciliationParams, CreateFiscalPeriodParams,
}
use billing_platform.Accounting.Types.{Account, FiscalPeriod, JournalLine}
use billing_platform.Accounting.Books.{
  Books, date_of, draw_id, record_audit, get_by_code, find_account,
}
use billing_platform.Accounting.Rows.{
  has_code, create_account, create_period, create_bank_account_row, create_reconciliation,
  create_receipt, create_payment, count_by_organisation, find_period,
}
use billing_platform.Accounting.Cash.{create_bank_account, record_reconciliation}
use billing_platform.Accounting.Periods.{
  SeedAccount, seed_accounts, seed_chart, seed_if_none, ensure_default_chart_of_accounts,
  create_fiscal_period, write_lock, change_lock, set_period_lock, default_chart,
}

module _ {D : Type 0} where
  abbrev pub lines_of : Books D → List (JournalLine D)
  lines_of b = b.lines

  pub draw_id-Keeps : (env : Env) → Keeps lines_of (draw_id {D = D} env)
  unfolding draw_id
  draw_id-Keeps env s s' id h = elim (Result-cases (env.new_id s.drawn)) [
    | inr (x, e) ↦ absurd (cc (rw (e, draw_id) at h))
    | inl (fresh, e) ↦ let h1 = rw (e, draw_id) at h in ground arith
  ]

  record_audit-Keeps : (entry : AuditEntry) → Keeps lines_of (record_audit {D = D} entry)
  unfolding record_audit
  record_audit-Keeps entry s s' u h = sym (ap (λ r. (state_of s r).lines) h)

  get_by_code-Keeps : (org : Uuid) (code : String) → Keeps lines_of (get_by_code {D = D} org code)
  unfolding get_by_code
  get_by_code-Keeps org code s s' a h = elim (Option-cases (find_account org code s.accounts)) [
    | inl e ↦ absurd (cc (rw (e, get_by_code) at h))
    | inr (found, e) ↦ let h1 = rw (e, get_by_code) at h in ground arith
  ]

  create_account-Keeps : (a : Account) → Keeps lines_of (create_account {D = D} a)
  unfolding create_account
  create_account-Keeps a s s' u h = elim (Bool-cases (has_code a s.accounts)) [
    | inl e ↦ absurd (cc (rw (e, create_account) at h))
    | inr e ↦ sym (ap (λ r. (state_of s r).lines) (rw (e, create_account) at h))
  ]

  create_period-Keeps : (p : FiscalPeriod) → Keeps lines_of (create_period {D = D} p)
  unfolding create_period
  create_period-Keeps p s s' u h =
      elim (Bool-cases (ltb (date_of p.start_date) (date_of p.end_date))) [
        | inr e ↦ absurd (cc (rw (e, create_period) at h))
        | inl e ↦ sym (ap (λ r. (state_of s r).lines) (rw (e, create_period) at h))
      ]

  create_bank_account_row-Keeps :
      (a : BankAccount) → Keeps lines_of (create_bank_account_row {D = D} a)
  unfolding create_bank_account_row
  create_bank_account_row-Keeps a s s' u h = sym (ap (λ r. (state_of s r).lines) h)

  create_reconciliation-Keeps : (r : Reconciliation D) → Keeps lines_of (create_reconciliation r)
  unfolding create_reconciliation
  create_reconciliation-Keeps r s s' u h = sym (ap (λ o. (state_of s o).lines) h)

  module _ (env : Env) where
    seed_accounts-Keeps :
        (org : Uuid) (chart : List SeedAccount)
        → Keeps lines_of (seed_accounts {D = D} env org chart)
    unfolding seed_accounts
    seed_accounts-Keeps org [] = Keeps-pure lines_of tt
    seed_accounts-Keeps org (sa ∷ chart) = Keeps-bind lines_of _ _ (draw_id-Keeps env) (λ id.
        Keeps-bind lines_of _ _ (create_account-Keeps _) (λ u. seed_accounts-Keeps org chart))

    seed_chart-Keeps :
        (principal : Principal) (org : Uuid) → Keeps lines_of (seed_chart {D = D} env principal org)
    unfolding seed_chart
    seed_chart-Keeps principal org =
        Keeps-bind lines_of _ _ (seed_accounts-Keeps org default_chart) (λ u. record_audit-Keeps _)

    seed_if_none-Keeps :
        (principal : Principal) (org : Uuid)
        → Keeps lines_of (seed_if_none {D = D} env principal org)
    unfolding seed_if_none
    seed_if_none-Keeps principal org s s' u h =
        elim (Bool-cases (count_by_organisation org s.accounts == 0)) [
          | inl e ↦ seed_chart-Keeps principal org s s' u (rw (seed_if_none, e) at h)
          | inr e ↦ sym (ap (λ o. (state_of s o).lines) (rw (seed_if_none, e) at h))
        ]

    pub ensure_default_chart_of_accounts-Keeps :
        (principal : Principal) (org : Uuid)
        → Keeps lines_of (ensure_default_chart_of_accounts {D = D} env principal org)
    unfolding ensure_default_chart_of_accounts
    ensure_default_chart_of_accounts-Keeps principal org =
        Keeps-bind lines_of _ _ (Keeps-lift lines_of _) (λ u. seed_if_none-Keeps principal org)

    pub create_fiscal_period-Keeps :
        (principal : Principal) (p : CreateFiscalPeriodParams)
        → Keeps lines_of (create_fiscal_period {D = D} env principal p)
    unfolding create_fiscal_period
    create_fiscal_period-Keeps principal p = Keeps-bind lines_of _ _ (Keeps-lift lines_of _) (λ u.
        Keeps-bind lines_of _ _ (draw_id-Keeps env)
          (λ id. Keeps-bind lines_of _ _ (create_period-Keeps _) (λ v. Keeps-pure lines_of _)))

    write_lock-Keeps :
        (principal : Principal) (id : Uuid) (locked : Bool)
        → Keeps lines_of (write_lock {D = D} env principal id locked)
    unfolding write_lock
    write_lock-Keeps principal id locked =
        Keeps-bind lines_of _ _ (λ s s' u h. sym (ap (λ r. (state_of s r).lines) h))
          (λ u. record_audit-Keeps _)

    change_lock-Keeps :
        (principal : Principal) (id : Uuid) (locked : Bool)
        → Keeps lines_of (change_lock {D = D} env principal id locked)
    unfolding change_lock
    change_lock-Keeps principal id locked s s' r h =
        elim (Option-cases (find_period principal.organisation_id id s.periods)) [
          | inl e ↦ absurd (cc (rw (change_lock, e) at h))
          | inr (existing, e) ↦ elim (Bool-cases (existing.is_locked && not locked)) [
            | inr e1 ↦ write_lock-Keeps principal id locked s s' r (rw (change_lock, e, e1) at h)
            | inl e1 ↦
                elim (Result-cases (env.require principal "accounting.override_locked_period")) [
                  | inr (x, e2) ↦ absurd (cc (rw (change_lock, e, e1, e2) at h))
                  | inl (v, e2) ↦
                      write_lock-Keeps principal id locked s s' r (rw (change_lock, e, e1, e2) at h)
                ]
          ]
        ]

    pub set_period_lock-Keeps :
        (principal : Principal) (id : Uuid) (locked : Bool)
        → Keeps lines_of (set_period_lock {D = D} env principal id locked)
    unfolding set_period_lock
    set_period_lock-Keeps principal id locked =
        Keeps-bind lines_of _ _ (Keeps-lift lines_of _) (λ u. change_lock-Keeps principal id locked)

    pub create_bank_account-Keeps :
        (principal : Principal) (p : CreateBankAccountParams)
        → Keeps lines_of (create_bank_account {D = D} env principal p)
    unfolding create_bank_account
    create_bank_account-Keeps principal p = Keeps-bind lines_of _ _ (Keeps-lift lines_of _) (λ u.
        Keeps-bind lines_of _ _ (draw_id-Keeps env) (λ id.
          Keeps-bind lines_of _ _ (get_by_code-Keeps _ _) (λ acct.
            Keeps-bind lines_of _ _ (create_bank_account_row-Keeps _)
              (λ v. Keeps-pure lines_of _))))

module _ {D : Type 0} ⦃d : Decimal D⦄ where
  pub create_receipt-Keeps : (r : Receipt D) → Keeps lines_of (create_receipt r)
  unfolding create_receipt
  create_receipt-Keeps r s s' u h = elim (Bool-cases (is_positive r.amount.amount)) [
    | inr e ↦ absurd (cc (rw (e, create_receipt) at h))
    | inl e ↦ sym (ap (λ o. (state_of s o).lines) (rw (e, create_receipt) at h))
  ]

  pub create_payment-Keeps : (p : Payment D) → Keeps lines_of (create_payment p)
  unfolding create_payment
  create_payment-Keeps p s s' u h = elim (Bool-cases (is_positive p.amount.amount)) [
    | inr e ↦ absurd (cc (rw (e, create_payment) at h))
    | inl e ↦ sym (ap (λ o. (state_of s o).lines) (rw (e, create_payment) at h))
  ]

  module _ (units : MinorUnits) (env : Env) (principal : Principal) where
    pub record_reconciliation-Keeps :
        (p : RecordReconciliationParams D)
        → Keeps lines_of (record_reconciliation units env principal p)
    unfolding record_reconciliation
    record_reconciliation-Keeps p = Keeps-bind lines_of _ _ (Keeps-lift lines_of _) (λ u.
        Keeps-bind lines_of _ _ (draw_id-Keeps env) (λ id.
          Keeps-bind lines_of _ _ (Keeps-lift lines_of _) (λ opening.
            Keeps-bind lines_of _ _ (Keeps-lift lines_of _) (λ closing.
              Keeps-bind lines_of _ _ (create_reconciliation-Keeps _)
                (λ v. Keeps-pure lines_of _)))))
