-- ===== src/Accounting/Chart.antt =====
-- The default chart of accounts is seeded once.
use billing_platform.Base.{
  ℕ, ◌+◌, ◌≡◌, refl, sym, ap, ◌∙◌, false, List, [], ◌∷◌, ◌++◌, if◌then◌else◌, ok, Uuid, ◌==◌,
  length, arith, Bool-cases, Result-cases, inl, inr,
}
use billing_platform.Transaction.{Env, Principal, ◌>>=◌, bind_ok, state_of}
use billing_platform.Accounting.Types.{Account}
use billing_platform.Accounting.Books.{Books, draw_id, record_audit}
use billing_platform.Accounting.Rows.{count_by_organisation, has_code, create_account}
use billing_platform.Accounting.Periods.{
  SeedAccount, default_chart, seed_accounts, seed_chart, seed_if_none,
  ensure_default_chart_of_accounts,
}

count_by_organisation-append :
    (org : Uuid) (xs : List Account) (a : Account)
    → a.organisation_id ≡ org
    → count_by_organisation org (xs ++ (a ∷ [])) ≡ count_by_organisation org xs + 1
unfolding count_by_organisation
count_by_organisation-append org [] a h = rw h (ground arith)
count_by_organisation-append org (x ∷ xs) a h =
    ap (λ n. (if x.organisation_id == org then 1 else 0) + n)
      (count_by_organisation-append org xs a h)
    ∙ (ground arith)

module _ {D : Type 0} (env : Env) where
  abbrev accounts_in : Uuid → Books D → ℕ
  accounts_in org b = count_by_organisation org b.accounts

  draw_id-accounts_in :
      (org : Uuid) (b b' : Books D) (id : Uuid)
      → draw_id env b ≡ ok (id, b')
      → accounts_in org b' ≡ accounts_in org b
  unfolding draw_id
  draw_id-accounts_in org b b' id h = elim (Result-cases (env.new_id b.drawn)) [
    | inr (x, e) ↦ absurd (cc (rw (e, draw_id) at h))
    | inl (fresh, e) ↦ sym (ap (λ r. accounts_in org (state_of b r)) (rw (e, draw_id) at h))
  ]

  create_account-accounts_in :
      (a : Account) (b b' : Books D) (u : Unit {0})
      → create_account a b ≡ ok (u, b')
      → accounts_in a.organisation_id b' ≡ accounts_in a.organisation_id b + 1
  unfolding create_account
  create_account-accounts_in a b b' u h = elim (Bool-cases (has_code a b.accounts)) [
    | inl e ↦ absurd (cc (rw (e, create_account) at h))
    | inr e ↦
        sym (ap (λ r. accounts_in a.organisation_id (state_of b r)) (rw (e, create_account) at h))
        ∙ count_by_organisation-append a.organisation_id b.accounts a refl
  ]

  seed_accounts-accounts_in :
      (org : Uuid) (chart : List SeedAccount) (b b' : Books D) (u : Unit {0})
      → seed_accounts env org chart b ≡ ok (u, b')
      → accounts_in org b' ≡ length chart + accounts_in org b
  unfolding seed_accounts
  seed_accounts-accounts_in org [] b b' u h =
      let kept = sym (ap (λ r. accounts_in org (state_of b r)) h) in omega arith
  seed_accounts-accounts_in org (sa ∷ chart) b b' u h =
      let (id, b1, e1, h1) = bind_ok _ _ b h in
      let (v, b2, e2, h2) = bind_ok _ _ b1 h1 in
      let drawn = draw_id-accounts_in org b b1 id e1 in
      let created = create_account-accounts_in _ b1 b2 v e2 in
      let rest = seed_accounts-accounts_in org chart b2 b' u h2 in omega arith

  seed_chart-accounts_in :
      (org : Uuid) (principal : Principal) (b b' : Books D) (u : Unit {0})
      → seed_chart env principal org b ≡ ok (u, b')
      → accounts_in org b' ≡ 16 + accounts_in org b
  unfolding seed_chart record_audit
  seed_chart-accounts_in org principal b b' u h =
      let (v, c, e, k) = bind_ok _ _ b h in
      sym (ap (λ r. accounts_in org (state_of c r)) k)
      ∙ seed_accounts-accounts_in org default_chart b c v e

  -- After a successful call of EnsureDefaultChartOfAccounts an organisation that had no accounts
  -- has sixteen, and a further call by the same principal succeeds and changes nothing.
  pub ensure_default_chart_of_accounts-again :
      (principal : Principal) (org : Uuid) (b b' : Books D) (u : Unit {0})
      → ensure_default_chart_of_accounts env principal org b ≡ ok (u, b')
      → (accounts_in org b ≡ 0 → accounts_in org b' ≡ 16)
        × (ensure_default_chart_of_accounts env principal org b' ≡ ok (tt, b'))
  unfolding ensure_default_chart_of_accounts seed_if_none ◌>>=◌
  ensure_default_chart_of_accounts-again principal org b b' u h =
      elim (Result-cases (env.require principal "accounting.post")) [
        | inr (x, e) ↦ absurd (cc (rw (ensure_default_chart_of_accounts, ◌>>=◌, e) at h))
        | inl (v, e) ↦
            let k = rw (ensure_default_chart_of_accounts, ◌>>=◌, e) at h in
            elim (Bool-cases (accounts_in org b == 0)) [
              | inl z ↦
                  let count =
                    seed_chart-accounts_in org principal b b' u (rw (seed_if_none, z) at k) in
                  let more : (accounts_in org b' == 0) ≡ false = ground arith in
                  (
                    λ none. ground arith,
                    rw (ensure_default_chart_of_accounts, ◌>>=◌, e, seed_if_none, more) refl,
                  )
              | inr z ↦
                  let same : b ≡ b' = ap (state_of b) (rw (seed_if_none, z) at k) in
                  let more : (accounts_in org b' == 0) ≡ false =
                    ap (λ c. accounts_in org c == 0) (sym same) ∙ z in
                  (
                    λ none. ground arith,
                    rw (ensure_default_chart_of_accounts, ◌>>=◌, e, seed_if_none, more) refl,
                  )
            ]
      ]
