-- ===== src/Outbox/Keys.antt =====
-- No two events of the outbox have one organisation and one idempotency key.
use mathlib.Core.Path.{subst}
use billing_platform.Base.{
  ◌≡◌, refl, sym, ap, ◌∙◌, ◌&&◌, ◌||◌, inl, inr, Bool, true, false, List, [], ◌∷◌, ◌++◌, ok, Result,
  String, str_eq, eq_iff, Uuid, Time, ◌==◌, arith, Bool-cases, Option-cases,
}
use billing_platform.Transaction.{bind_ok, lift_ok, state_of}
use billing_platform.Outbox.Claims.{process_once-none, process_once-some}
use billing_platform.Outbox.{
  Event, Handlers, handle, oldest, update, claimed, has_key, insert_event, insert_events, enqueue,
  mark_done, mark_failed, finish, process_once,
}

abbrev same_key : Event → Event → Bool
same_key x e =
    (x.organisation_id == e.organisation_id) && str_eq x.idempotency_key e.idempotency_key

same_key_comm : (x e : Event) → same_key x e ≡ same_key e x
same_key_comm x e =
    ground (
      arith,
      eq_iff x.idempotency_key e.idempotency_key,
      eq_iff e.idempotency_key x.idempotency_key,
    )

-- No event has the key of another one.
abbrev pub IsKeyed : List Event → Type 0
IsKeyed [] = Unit {0}
IsKeyed (e ∷ events) = (has_key e events ≡ false) × IsKeyed events

pub has_key-append :
    (e new : Event) (events : List Event)
    → has_key e (events ++ (new ∷ [])) ≡ (has_key e events || same_key new e)
unfolding has_key
has_key-append e new [] = elim (Bool-cases (same_key new e)) [
  | inl h ↦ rw (has_key, h) refl
  | inr h ↦ rw (has_key, h) refl
]
has_key-append e new (x ∷ events) = elim (Bool-cases (same_key x e)) [
  | inl h ↦ rw (has_key, h) refl
  | inr h ↦ rw (has_key, h) (has_key-append e new events)
]

IsKeyed-append :
    (new : Event) (events : List Event)
    → IsKeyed events
    → has_key new events ≡ false
    → IsKeyed (events ++ (new ∷ []))
unfolding has_key
IsKeyed-append new [] keyed fresh = (refl, tt)
IsKeyed-append new (x ∷ events) keyed fresh = elim (Bool-cases (same_key x new)) [
  | inl h ↦ absurd (cc (rw (has_key, h) at fresh))
  | inr h ↦ (
    has_key-append x new events ∙ rw (keyed.0, same_key_comm new x, h) refl,
    IsKeyed-append new events keyed.1 (rw (has_key, h) at fresh),
  )
]

pub insert_event-IsKeyed :
    (new : Event) (events : List Event) → IsKeyed events → IsKeyed (insert_event new events)
unfolding insert_event
insert_event-IsKeyed new events keyed = elim (Bool-cases (has_key new events)) [
  | inl h ↦ rw (insert_event, h) keyed
  | inr h ↦ rw (insert_event, h) (IsKeyed-append new events keyed h)
]

insert_events-IsKeyed :
    (more events : List Event) → IsKeyed events → IsKeyed (insert_events more events)
unfolding insert_events
insert_events-IsKeyed [] events keyed = keyed
insert_events-IsKeyed (x ∷ more) events keyed =
    insert_events-IsKeyed more (insert_event x events) (insert_event-IsKeyed x events keyed)

-- A change that leaves the key.
abbrev KeepsKey : (Event → Event) → Type 0
KeepsKey change =
    (e x : Event) → (same_key (change x) e ≡ same_key x e) × (same_key e (change x) ≡ same_key e x)

update-has_key :
    (e : Event) (id : Uuid) (change : Event → Event) (events : List Event)
    → KeepsKey change
    → has_key e (update id change events) ≡ has_key e events
unfolding has_key update
update-has_key e id change [] keeps = refl
update-has_key e id change (x ∷ events) keeps =
    let rest = update-has_key e id change events keeps in
    elim (Bool-cases (x.id == id)) [
      | inr h ↦ rw (update, h, has_key, rest) refl
      | inl h ↦ rw (update, h, has_key, rest, (keeps e x).0) refl
    ]

has_key-changed :
    (x : Event) (change : Event → Event) (events : List Event)
    → KeepsKey change
    → has_key (change x) events ≡ has_key x events
unfolding has_key
has_key-changed x change [] keeps = refl
has_key-changed x change (y ∷ events) keeps =
    rw (has_key, has_key-changed x change events keeps, (keeps y x).1) refl

update-IsKeyed :
    (id : Uuid) (change : Event → Event) (events : List Event)
    → KeepsKey change
    → IsKeyed events
    → IsKeyed (update id change events)
unfolding update
update-IsKeyed id change [] keeps keyed = tt
update-IsKeyed id change (x ∷ events) keeps keyed =
    let rest = update-IsKeyed id change events keeps keyed.1 in
    elim (Bool-cases (x.id == id)) [
      | inr h ↦ rw (update, h) (update-has_key x id change events keeps ∙ keyed.0, rest)
      | inl h ↦
          rw (update, h)
            (
              update-has_key (change x) id change events keeps
                  ∙ has_key-changed x change events keeps
                  ∙ keyed.0,
              rest,
            )
    ]

module _ {S : Type 0} (handlers : Handlers S) (now : Time) where
  finish-IsKeyed :
      (e : Event) (tables : S) (events : List Event)
      → IsKeyed events
      → IsKeyed (finish handlers now e tables events).1
  unfolding finish mark_done mark_failed
  finish-IsKeyed e tables events keyed =
      let h = handle handlers e tables in
      let kept = insert_events-IsKeyed h.enqueued events keyed in
      elim (Bool-cases h.is_usable) [
        | inr u ↦ rw (finish, u) keyed
        | inl u ↦ elim (Option-cases h.failure) [
          | inl f ↦ rw (finish, u, f) (update-IsKeyed e.id _ _ (λ x y. (refl, refl)) kept)
          | inr (failure, f) ↦
              rw (finish, u, f) (update-IsKeyed e.id _ _ (λ x y. (refl, refl)) kept)
        ]
      ]

  pub process_once-IsKeyed :
      (tables : S) (events : List Event)
      → IsKeyed events
      → IsKeyed (process_once handlers now (tables, events)).1.1
  process_once-IsKeyed tables events keyed = elim (Option-cases (oldest now events)) [
    | inl n ↦ rw (process_once-none handlers now tables events n) keyed
    | inr (c, o) ↦ rw (process_once-some handlers now tables events o) (
        finish-IsKeyed (claimed now c) tables _
          (update-IsKeyed c.id (claimed now) events (λ x y. (refl, refl)) keyed))
  ]

  -- The tables after any calls of `Enqueue` that succeed and any rounds of the poller.
  pub data Reach (start : S × List Event) : S × List Event → Type 0 where
    begins : Reach start start
    enqueues :
        {tables : S} {events events' : List Event} (at : Time) (org : Uuid)
        (event_type key : String) (body : Result String) (id : Result Uuid)
        → Reach start (tables, events)
        → enqueue at org event_type key body id events ≡ ok (tt, events')
        → Reach start (tables, events')
    processes :
        {tables : S} {events : List Event}
        → Reach start (tables, events)
        → Reach start (process_once handlers now (tables, events)).1

enqueue-IsKeyed :
    (at : Time) (org : Uuid) (event_type key : String) (body : Result String) (id : Result Uuid)
    (events events' : List Event)
    → enqueue at org event_type key body id events ≡ ok (tt, events')
    → IsKeyed events
    → IsKeyed events'
unfolding enqueue
enqueue-IsKeyed at org event_type key body id events events' h keyed =
    let (payload, c, e, k) = bind_ok _ _ events h in
    let (fresh, c', e', k') = bind_ok _ _ c k in
    let same : c' ≡ events = (lift_ok _ c e').1 ∙ (lift_ok _ events e).1 in
    subst IsKeyed (ap (state_of events) k')
      (insert_event-IsKeyed _ c' (subst IsKeyed (sym same) keyed))

-- From a table in which no two events have one organisation and one idempotency key, no successful
-- calls of Enqueue and no rounds of the poller, with whatever handlers, lead to one that has.
pub Reach-IsKeyed :
    {S : Type 0} (handlers : Handlers S) (now : Time) {s t : S × List Event}
    → IsKeyed s.1
    → Reach handlers now s t
    → IsKeyed t.1
Reach-IsKeyed handlers now keyed begins = keyed
Reach-IsKeyed handlers now keyed (enqueues {events} {events'} at org event_type key body id r e) =
    enqueue-IsKeyed at org event_type key body id events events' e
      (Reach-IsKeyed handlers now keyed r)
Reach-IsKeyed handlers now keyed (processes {tables} {events} r) =
    process_once-IsKeyed handlers now tables events (Reach-IsKeyed handlers now keyed r)

pub insert_event-has_key :
    (e : Event) (events : List Event) → has_key e (insert_event e events) ≡ true
unfolding insert_event
insert_event-has_key e events = elim (Bool-cases (has_key e events)) [
  | inl h ↦ rw (insert_event, h) h
  | inr h ↦
      rw (insert_event, h)
        (has_key-append e e events
          ∙ rw (h) (ground (arith, eq_iff e.idempotency_key e.idempotency_key)))
]
