-- ===== src/Accounting/Locks.antt =====
-- What the lock of a fiscal period does to postings.
use mathlib.Core.Path.{subst}
use billing_platform.Base.{
  ◌≡◌, sym, ap, ◌∙◌, true, some, List, ok, Uuid, IsOk, All, IsAmong, Bool-cases, Option-cases, inl,
  inr,
}
use billing_platform.Decimal.{Decimal, IsGroup, IsOrder}
use billing_platform.Money.{MinorUnits}
use billing_platform.Transaction.{◌>>=◌, Env, Principal, bind_ok, lift_ok, state_of}
use billing_platform.Accounting.Types.{FiscalPeriod, Journal, JournalRequest}
use billing_platform.Accounting.Books.{Books, contains, record_audit}
use billing_platform.Accounting.Posting.{post_tx}
use billing_platform.Accounting.Posting.Effect.{posting_date, do_post-IsPosted}
use billing_platform.Accounting.Containing.{AllLocked, set_locked-AllLocked, set_locked-contains}
use billing_platform.Accounting.Rows.{find_period, set_locked}
use billing_platform.Accounting.Periods.{write_lock, change_lock, set_period_lock}

module _ (env : Env) (principal : Principal) (id : Uuid) where
  abbrev locked_periods : List FiscalPeriod → List FiscalPeriod
  locked_periods =
      set_locked principal.organisation_id id true (some principal.user_id) (some env.now)

module _ {D : Type 0} (env : Env) (principal : Principal) (id : Uuid) where
  write_lock-periods :
      (b b' : Books D) (u : Unit {0})
      → write_lock env principal id true b ≡ ok (u, b')
      → b'.periods ≡ locked_periods env principal id b.periods
  unfolding write_lock record_audit ◌>>=◌
  write_lock-periods b b' u h = sym (ap (λ r. (state_of b r).periods) h)

  change_lock-periods :
      (b b' : Books D) (u : Unit {0})
      → change_lock env principal id true b ≡ ok (u, b')
      → b'.periods ≡ locked_periods env principal id b.periods
  unfolding change_lock
  change_lock-periods b b' u h =
      elim (Option-cases (find_period principal.organisation_id id b.periods)) [
        | inl e ↦ absurd (cc (rw (change_lock, e) at h))
        | inr (existing, e) ↦ elim (Bool-cases existing.is_locked) [
          | inl e1 ↦ write_lock-periods b b' u (rw (change_lock, e, e1) at h)
          | inr e1 ↦ write_lock-periods b b' u (rw (change_lock, e, e1) at h)
        ]
      ]

  set_period_lock-periods :
      (b b' : Books D) (u : Unit {0})
      → set_period_lock env principal id true b ≡ ok (u, b')
      → b'.periods ≡ locked_periods env principal id b.periods
  unfolding set_period_lock
  set_period_lock-periods b b' u h =
      let (v, c, e, k) = bind_ok _ _ b h in
      change_lock-periods c b' u k
      ∙ ap (λ (x : Books D). locked_periods env principal id x.periods) (lift_ok _ b e).1

module _ {D : Type 0} ⦃d : Decimal D⦄ (group : IsGroup D) (order : IsOrder D) (units : MinorUnits)
    (env : Env) where
  -- After the only period that the day of a request falls in has been locked by a principal of the
  -- same organisation, whoever posts that request successfully holds the permission to override a
  -- locked period.
  pub set_period_lock-blocks :
      (principal poster : Principal) (req : JournalRequest D) (b b' b'' : Books D)
      (p : FiscalPeriod) (u : Unit {0}) (j : Journal)
      → req.organisation_id ≡ principal.organisation_id
      → IsAmong p b.periods
      → contains req.organisation_id (posting_date env req) p ≡ true
      → All
          (λ q. contains req.organisation_id (posting_date env req) q ≡ true → q.id ≡ p.id)
          b.periods
      → set_period_lock env principal p.id true b ≡ ok (u, b')
      → post_tx units env poster req b' ≡ ok (j, b'')
      → IsOk (env.require poster "accounting.override_locked_period")
  unfolding post_tx
  set_period_lock-blocks principal poster req b b' b'' p u j own among inside only locked posted =
      let date = posting_date env req in
      let org = principal.organisation_id in
      let by = some principal.user_id in
      let periods = sym (set_period_lock-periods env principal p.id b b' u locked) in
      let (q, there, holds) =
        set_locked-contains org p.id by (some env.now) date p b.periods among
          (subst (λ o. contains o date p ≡ true) own inside) in
      let all =
        set_locked-AllLocked org p.id by (some env.now) date b.periods
          (subst (λ o. All (λ q. contains o date q ≡ true → q.id ≡ p.id) b.periods) own only) in
      (do_post-IsPosted units env group order poster req b' posted).allowed q
        (subst (IsAmong q) periods there) (subst (λ o. contains o date q ≡ true) (sym own) holds)
        (subst (λ o. AllLocked o date b'.periods) (sym own)
          (subst (AllLocked org date) periods all))
