-- ===== src/Transaction.antt =====
-- What runs in one database transaction, and what the application services are given.
use billing_platform.Base.{
  ℕ, Bool, true, false, ◌≡◌, refl, sym, ap, ◌∙◌, String, Result, ok, err, Error, Result-cases, inl,
  inr, Uuid, Time,
}

-- An audit entry of internal/platform/audit/audit.go, less its JSON states.
pub record AuditEntry : Type 0 where
  pub action : String
  pub entity_id : Uuid
  pub actor : Uuid
  pub at : Time

pub record Principal : Type 0 where
  pub user_id : Uuid
  pub organisation_id : Uuid

-- What a service is given: the clock, the source of identifiers (`uuid.NewV7`) and the
-- permission check.
pub record Env : Type 0 where
  pub now : Time
  pub new_id : ℕ → Result Uuid
  pub require : Principal → String → Result (Unit {0})
  -- `uuid.UUID.String`
  pub uuid_text : Uuid → String
  -- which of so many rows comes first from a query without ORDER BY
  pub pick : ℕ → ℕ

-- A step of a transaction on the tables S. An error loses the changes, as the rollback does.
abbrev pub Action : Type 0 → Type 0 → Type 0
Action S A = S → Result (A × S)

infixl 5 ◌>>=◌ ◌>>◌
unfoldable pub ◌>>=◌ : {S A B : Type 0} → Action S A → (A → Action S B) → Action S B
◌>>=◌ m f b = elim (m b) [ ok (a, b') ↦ f a b' | err e ↦ err e ]

abbrev pub ◌>>◌ : {S B : Type 0} → Action S (Unit {0}) → Action S B → Action S B
m >> k = m >>= λ _. k

module _ {S : Type 0} where
  abbrev pub pure : {A : Type 0} → A → Action S A
  pure a b = ok (a, b)

  abbrev pub lift : {A : Type 0} → Result A → Action S A
  lift (ok a) b = ok (a, b)
  lift (err e) b = err e

  abbrev pub require_that : Bool → Error → Action S (Unit {0})
  require_that true e b = ok (tt, b)
  require_that false e b = err e

  -- What a successful step and the steps after it did.
  pub bind_ok :
      {A B : Type 0} (m : Action S A) (f : A → Action S B) (s : S) {r : B × S}
      → (m >>= f) s ≡ ok r
      → (a : A) × (s' : S) × (m s ≡ ok (a, s')) × (f a s' ≡ ok r)
  unfolding ◌>>=◌
  bind_ok m f s h = elim (Result-cases (m s)) [
    | inr (x, e) ↦ absurd (cc (rw (e, ◌>>=◌) at h))
    | inl ((a, s'), e) ↦ (a, s', e, rw (e, ◌>>=◌) at h)
  ]

  pub lift_ok :
      {A : Type 0} (m : Result A) (s : S) {a : A} {s' : S}
      → lift m s ≡ ok (a, s')
      → (m ≡ ok a) × (s' ≡ s)
  lift_ok (ok a) s h = (cc, cc)
  lift_ok (err e) s h = cc

  pub require_ok :
      (b : Bool) (e : Error) (s : S) {r : Unit {0} × S}
      → require_that b e s ≡ ok r
      → (b ≡ true) × (r.1 ≡ s)
  require_ok true e s h = (refl, cc)
  require_ok false e s h = cc

  -- A query leaves the tables as they are.
  pub read_ok :
      {A : Type 0} (query : A) (s : S) {a : A} {s' : S}
      → Path (Result (A × S)) (ok (query, s)) (ok (a, s'))
      → (a ≡ query) × (s' ≡ s)
  read_ok query s h = (cc, cc)

  -- The tables that a result leaves, or these if there is none.
  abbrev pub state_of : {A : Type 0} → S → Result (A × S) → S
  state_of s (ok (a, s')) = s'
  state_of s (err e) = s

  -- A step that leaves a view of the tables as it was.
  abbrev pub Keeps {κ} : {A : Type 0} {T : Type κ} → (S → T) → Action S A → Type κ
  Keeps {A} view m = (s s' : S) (a : A) → m s ≡ ok (a, s') → view s' ≡ view s

  pub Keeps-bind {κ} :
      {A B : Type 0} {T : Type κ} (view : S → T) (m : Action S A) (f : A → Action S B)
      → Keeps view m
      → ((a : A) → Keeps view (f a))
      → Keeps view (m >>= f)
  Keeps-bind view m f first rest s s' r h =
      let (a, t, e, k) = bind_ok m f s h in rest a t s' r k ∙ first s t a e

  pub Keeps-pure {κ} : {A : Type 0} {T : Type κ} (view : S → T) (a : A) → Keeps view (pure a)
  Keeps-pure view a s s' r h = sym (ap (λ o. view (state_of s o)) h)

  pub Keeps-lift {κ} : {A : Type 0} {T : Type κ} (view : S → T) (m : Result A) → Keeps view (lift m)
  Keeps-lift view m s s' a h = ap view (lift_ok m s h).1

  pub Keeps-require_that {κ} :
      {T : Type κ} (view : S → T) (test : Bool) (e : Error) → Keeps view (require_that test e)
  Keeps-require_that view test e s s' u h = ap view (require_ok test e s h).1
