-- ===== src/Accounting/Containing.antt =====
-- The periods that a date falls into, and which of them a query without an order returns.
use billing_platform.Base.{
  ℕ, zero, suc, ◌≡◌, refl, sym, ap, ◌∙◌, ◌&&◌, true, Option, some, List, [], ◌∷◌, Uuid, Time, ◌==◌,
  length, All, IsAmong, Bool-cases, inl, inr, arith,
}
use billing_platform.Transaction.{Env}
use billing_platform.Accounting.Types.{FiscalPeriod}
use billing_platform.Accounting.Books.{contains, containing, choose, find_containing}
use billing_platform.Accounting.Rows.{set_locked}

-- Every period that the date falls into is locked.
abbrev pub AllLocked : Uuid → Time → List FiscalPeriod → Type 0
AllLocked org date = All (λ p. contains org date p ≡ true → p.is_locked ≡ true)

containing-locked :
    (org : Uuid) (date : Time) (periods : List FiscalPeriod)
    → AllLocked org date periods
    → All (λ p. p.is_locked ≡ true) (containing org date periods)
unfolding containing
containing-locked org date [] h = tt
containing-locked org date (p ∷ periods) h =
    let rest = containing-locked org date periods h.1 in
    elim (Bool-cases (contains org date p)) [
      | inl e ↦ rw (containing, e) (h.0 e, rest)
      | inr e ↦ rw (containing, e) rest
    ]

containing-IsAmong :
    (org : Uuid) (date : Time) (p : FiscalPeriod) (periods : List FiscalPeriod)
    → IsAmong p periods
    → contains org date p ≡ true
    → IsAmong p (containing org date periods)
unfolding containing
containing-IsAmong org date p [] h e = absurd h
containing-IsAmong org date p (q ∷ periods) (inl same) e =
    let here : contains org date q ≡ true = ap (contains org date) (sym same) ∙ e in
    rw (containing, here) (inl same)
containing-IsAmong org date p (q ∷ periods) (inr h) e =
    let rest = containing-IsAmong org date p periods h e in
    elim (Bool-cases (contains org date q)) [
      | inl k ↦ rw (containing, k) (inr rest)
      | inr k ↦ rw (containing, k) rest
    ]

-- Of some rows one comes first, and what all of them have it has.
choose-All :
    (P : FiscalPeriod → Type 0) (n : ℕ) (p : FiscalPeriod) (rows : List FiscalPeriod)
    → All P rows
    → IsAmong p rows
    → (q : FiscalPeriod) × (choose n rows ≡ some q) × P q
unfolding choose
choose-All P n p [] all h = absurd h
choose-All P zero p (x ∷ rows) all h = (x, refl, all.0)
choose-All P (suc n) p (x ∷ []) all h = (x, refl, all.0)
choose-All P (suc n) p (x ∷ y ∷ rows) all h =
    let (q, e, holds) = choose-All P n y (y ∷ rows) all.1 (inl refl) in
    (q, rw (choose, e) refl, holds)

-- A date that falls into a period, and into no period that is not locked, finds a locked one.
pub find_containing-locked :
    (env : Env) (org : Uuid) (date : Time) (p : FiscalPeriod) (periods : List FiscalPeriod)
    → IsAmong p periods
    → contains org date p ≡ true
    → AllLocked org date periods
    → (q : FiscalPeriod) × (find_containing env org date periods ≡ some q) × (q.is_locked ≡ true)
unfolding find_containing
find_containing-locked env org date p periods among inside locked =
    choose-All (λ q. q.is_locked ≡ true) (env.pick (length (containing org date periods))) p
      (containing org date periods) (containing-locked org date periods locked)
      (containing-IsAmong org date p periods among inside)

module _ (org id : Uuid) (by : Option Uuid) (at : Option Time) (date : Time) where
  abbrev relocked : FiscalPeriod → FiscalPeriod
  relocked p = record p { is_locked = true; locked_by = by; locked_at = at }

  relocked-contains : (p : FiscalPeriod) → contains org date (relocked p) ≡ contains org date p
  unfolding contains
  relocked-contains p = refl

  -- Locking a period locks all that the date falls into, if it falls into no other one.
  pub set_locked-AllLocked :
      (periods : List FiscalPeriod)
      → All (λ p. contains org date p ≡ true → p.id ≡ id) periods
      → AllLocked org date (set_locked org id true by at periods)
  unfolding set_locked contains
  set_locked-AllLocked [] h = tt
  set_locked-AllLocked (p ∷ periods) h =
      let rest = set_locked-AllLocked periods h.1 in
      elim (Bool-cases ((p.organisation_id == org) && (p.id == id))) [
        | inl e ↦ rw (set_locked, e) (λ inside. refl, rest)
        | inr e ↦
            rw (set_locked, e)
              (λ inside. let is_id : p.id ≡ id = h.0 inside in absurd (ground arith), rest)
      ]

  -- A period that the date falls into is still one after the update of the locks.
  pub set_locked-contains :
      (p : FiscalPeriod) (periods : List FiscalPeriod)
      → IsAmong p periods
      → contains org date p ≡ true
      → (q : FiscalPeriod) × IsAmong q (set_locked org id true by at periods)
        × (contains org date q ≡ true)
  unfolding set_locked
  set_locked-contains p [] h inside = absurd h
  set_locked-contains p (x ∷ periods) (inl same) inside =
      let here : contains org date x ≡ true = ap (contains org date) (sym same) ∙ inside in
      elim (Bool-cases ((x.organisation_id == org) && (x.id == id))) [
        | inl e ↦ rw (set_locked, e) (relocked x, inl refl, relocked-contains x ∙ here)
        | inr e ↦ rw (set_locked, e) (x, inl refl, here)
      ]
  set_locked-contains p (x ∷ periods) (inr h) inside =
      let (q, among, holds) = set_locked-contains p periods h inside in
      (
        q,
        elim (Bool-cases ((x.organisation_id == org) && (x.id == id))) [
          | inl e ↦ rw (set_locked, e) (inr among)
          | inr e ↦ rw (set_locked, e) (inr among)
        ],
        holds,
      )
