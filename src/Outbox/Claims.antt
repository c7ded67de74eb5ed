-- ===== src/Outbox/Claims.antt =====
-- What a claim and the marks after it do to the events that can be claimed.
use billing_platform.Base.{
  ℕ, ◌+◌, ◌≤◌, ◌<◌, ◌≡◌, refl, sym, ap, ◌∙◌, inl, inr, Bool, true, false, Option, none, some, List,
  [], ◌∷◌, if◌then◌else◌, Uuid, Time, ◌==◌, leb, arith, Bool-cases, Option-cases, IsAmong,
}
use billing_platform.Outbox.{
  done, failed, Event, Failure, claimable, oldest, update, claimed, next_attempt, Handlers,
  claim_next, finish, process_once,
}
use billing_platform.Outbox.Backoff.{minute-backoff}

abbrev pub count : Time → List Event → ℕ
count now [] = 0
count now (e ∷ events) = (if claimable now e then 1 else 0) + count now events

pub eq_test : (a b : ℕ) → a ≡ b → (a == b) ≡ true
eq_test a b h = ground arith

module _ (now : Time) where
  pub oldest-IsAmong :
      (events : List Event) {e : Event}
      → oldest now events ≡ some e
      → IsAmong e events × (claimable now e ≡ true)
  unfolding oldest
  oldest-IsAmong [] h = absurd (cc h)
  oldest-IsAmong (x ∷ events) {e} h = elim (Bool-cases (claimable now x)) [
    | inr c ↦ let (among, can) = oldest-IsAmong events (rw (oldest, c) at h) in (inr among, can)
    | inl c ↦ elim (Option-cases (oldest now events)) [
      | inl n ↦
          let same : x ≡ e = cc (rw (oldest, c, n) at h) in
          (inl (sym same), ap (claimable now) (sym same) ∙ c)
      | inr (y, s) ↦ elim (Bool-cases (leb x.created_at y.created_at)) [
        | inl l ↦
            let same : x ≡ e = cc (rw (oldest, c, s, l) at h) in
            (inl (sym same), ap (claimable now) (sym same) ∙ c)
        | inr l ↦
            let same : y ≡ e = cc (rw (oldest, c, s, l) at h) in
            let (among, can) = oldest-IsAmong events (s ∙ ap some same) in (inr among, can)
      ]
    ]
  ]

  -- Nothing is claimed only if nothing can be.
  pub oldest-none : (events : List Event) → oldest now events ≡ none → count now events ≡ 0
  unfolding oldest
  oldest-none [] h = refl
  oldest-none (x ∷ events) h = elim (Bool-cases (claimable now x)) [
    | inr c ↦ let k = oldest-none events (rw (oldest, c) at h) in rw c (omega arith)
    | inl c ↦ elim (Option-cases (oldest now events)) [
      | inl n ↦ absurd (cc (rw (oldest, c, n) at h))
      | inr (y, s) ↦ elim (Bool-cases (leb x.created_at y.created_at)) [
        | inl l ↦ absurd (cc (rw (oldest, c, s, l) at h))
        | inr l ↦ absurd (cc (rw (oldest, c, s, l) at h))
      ]
    ]
  ]

  abbrev pub Spends : (Event → Event) → Type 0
  Spends change = (e : Event) → claimable now (change e) ≡ false

  pub update-count :
      (id : Uuid) (change : Event → Event) (events : List Event)
      → Spends change
      → count now (update id change events) ≤ count now events
  unfolding update
  update-count id change [] spends = omega arith
  update-count id change (x ∷ events) spends =
      let rest = update-count id change events spends in
      elim (Bool-cases (x.id == id)) [
        | inl e ↦ rw (update, e, spends x) (omega arith)
        | inr e ↦ rw (update, e) (omega arith)
      ]

  pub update-count_lt :
      (e : Event) (change : Event → Event) (events : List Event)
      → Spends change
      → IsAmong e events
      → claimable now e ≡ true
      → count now (update e.id change events) < count now events
  unfolding update
  update-count_lt e change [] spends among can = absurd among
  update-count_lt e change (x ∷ events) spends (inl same) can =
      let rest = update-count e.id change events spends in
      let same_id : e.id ≡ x.id = ap (λ (y : Event). y.id) same in
      let hit : (x.id == e.id) ≡ true = eq_test x.id e.id (sym same_id) in
      let open_x : claimable now x ≡ true = ap (claimable now) (sym same) ∙ can in
      rw (update, hit, spends x, open_x) (omega arith)
  update-count_lt e change (x ∷ events) spends (inr among) can =
      let rest = update-count_lt e change events spends among can in
      elim (Bool-cases (x.id == e.id)) [
        | inl h ↦ rw (update, h, spends x) (omega arith)
        | inr h ↦ rw (update, h) (omega arith)
      ]

  pub claimed-Spends : Spends (claimed now)
  unfolding claimable
  claimed-Spends e = refl

  pub done-Spends : Spends (λ e. record e { status = done; updated_at = now })
  unfolding claimable
  done-Spends e = refl

  pub failed-Spends :
      (attempts : ℕ) (failure : Failure)
      → Spends (λ e. record e {
        status = failed;
        last_error = some failure.message;
        next_attempt_at = next_attempt now attempts failure;
        updated_at = now;
      })
  unfolding claimable
  failed-Spends attempts failure e =
      let h = minute-backoff attempts in
      elim (Bool-cases failure.is_permanent) [
        | inl p ↦ rw (p) (ground arith)
        | inr p ↦ rw (p) (ground arith)
      ]

claim_next-none :
    (now : Time) (events : List Event)
    → oldest now events ≡ none
    → claim_next now events ≡ (none, events)
unfolding claim_next
claim_next-none now events n = rw (claim_next, n) refl

claim_next-some :
    (now : Time) (events : List Event) {e : Event}
    → oldest now events ≡ some e
    → claim_next now events ≡ (some (claimed now e), update e.id (claimed now) events)
unfolding claim_next
claim_next-some now events o = rw (claim_next, o) refl

module _ {S : Type 0} (handlers : Handlers S) (now : Time) (tables : S) (events : List Event) where
  abbrev after_claim : Option Event × List Event → Bool × (S × List Event)
  after_claim p = elim p.0 [
    | none ↦ (false, (tables, p.1))
    | some e ↦ (true, finish handlers now e tables p.1)
  ]

  pub process_once-none :
      oldest now events ≡ none
      → process_once handlers now (tables, events) ≡ (false, (tables, events))
  unfolding process_once
  process_once-none n = ap after_claim (claim_next-none now events n)

  pub process_once-some :
      {e : Event}
      → oldest now events ≡ some e
      → process_once handlers now (tables, events)
        ≡ (true, finish handlers now (claimed now e) tables (update e.id (claimed now) events))
  unfolding process_once
  process_once-some {e} o = ap after_claim (claim_next-some now events o)
