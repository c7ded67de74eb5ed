-- ===== src/Webhooks/FanOut.antt =====
-- What the fan-out of a source event leaves in the outbox, and a second fan-out of it.
use mathlib.Core.Path.{subst}
use billing_platform.Base.{
  ◌≡◌, refl, ap, ◌∙◌, inl, inr, true, List, [], ◌∷◌, ok, none, String, Uuid, Time, Bool-cases,
  Result,
}
use billing_platform.Transaction.{Action, ◌>>=◌, bind_ok, lift_ok, state_of}
use billing_platform.Outbox.{Event, pending, has_key, insert_event, enqueue}
use billing_platform.Outbox.Keys.{has_key-append, insert_event-has_key}
use billing_platform.Webhooks.{
  Endpoint, Surroundings, delivery_key, event_type_delivery, fan_out, handler_for_source_event,
}

-- The event that `Enqueue` inserts.
abbrev pub queued : Time → Uuid → String → String → String → Uuid → Event
queued now org event_type key payload id = record {
  id = id;
  organisation_id = org;
  event_type = event_type;
  payload = payload;
  idempotency_key = key;
  status = pending;
  attempts = 0;
  next_attempt_at = now;
  last_error = none;
  created_at = now;
  updated_at = now;
}

-- An event of the organisation and the key.
abbrev pub of_key : Uuid → String → Event
of_key org key = queued 0 org "" key "" 0

pub has_key-same :
    (e x : Event) (events : List Event)
    → e.organisation_id ≡ x.organisation_id
    → e.idempotency_key ≡ x.idempotency_key
    → has_key e events ≡ has_key x events
unfolding has_key
has_key-same e x [] org key = refl
has_key-same e x (y ∷ events) org key = rw (has_key, has_key-same e x events org key, org, key) refl

insert_event-kept :
    (e new : Event) (events : List Event)
    → has_key e events ≡ true
    → has_key e (insert_event new events) ≡ true
unfolding insert_event
insert_event-kept e new events h = elim (Bool-cases (has_key new events)) [
  | inl k ↦ rw (insert_event, k) h
  | inr k ↦ rw (insert_event, k) (has_key-append e new events ∙ rw (h) refl)
]

insert_event-present :
    (e : Event) (events : List Event) → has_key e events ≡ true → insert_event e events ≡ events
unfolding insert_event
insert_event-present e events h = rw (insert_event, h) refl

-- What a successful `Enqueue` did.
pub enqueue_ok :
    (now : Time) (org : Uuid) (event_type key : String) (body : Result String) (id : Result Uuid)
    (events : List Event) {events' : List Event}
    → enqueue now org event_type key body id events ≡ ok (tt, events')
    → (payload : String) × (n : Uuid) × (body ≡ ok payload)
      × (insert_event (queued now org event_type key payload n) events ≡ events')
unfolding enqueue
enqueue_ok now org event_type key body id events {events'} h =
    let (payload, c, e, k) = bind_ok _ _ events h in
    let (fresh, c', e', k') = bind_ok _ _ c k in
    let same : c' ≡ events = (lift_ok _ c e').1 ∙ (lift_ok _ events e).1 in
    (
      payload,
      fresh,
      (lift_ok _ events e).0,
      subst
          (λ (es : List Event).
            insert_event (queued now org event_type key payload fresh) es ≡ events')
          same (ap (state_of c') k'),
    )

enqueue-again :
    (now : Time) (org : Uuid) (event_type key payload : String) (id : Uuid) (events : List Event)
    → has_key (of_key org key) events ≡ true
    → enqueue now org event_type key (ok payload) (ok id) events ≡ ok (tt, events)
unfolding enqueue ◌>>=◌
enqueue-again now org event_type key payload id events h =
    ap (λ (es : List Event). ok (tt, es))
      (insert_event-present _ events (has_key-same _ (of_key org key) events refl refl ∙ h))

-- For every endpoint the outbox has an event with the key of the delivery to it.
abbrev AllQueued : Surroundings → Event → List Endpoint → List Event → Type 0
AllQueued ways event [] events = Unit {0}
AllQueued ways event (ep ∷ endpoints) events =
    (has_key (of_key event.organisation_id (delivery_key ways event ep)) events ≡ true)
    × AllQueued ways event endpoints events

module _ (ways : Surroundings) (event_type : String) (event : Event) where
  fan_out-kept :
      (e : Event) (endpoints : List Endpoint) (events : List Event) {events' : List Event}
      → has_key e events ≡ true
      → fan_out ways event_type event endpoints events ≡ ok (tt, events')
      → has_key e events' ≡ true
  unfolding fan_out
  fan_out-kept e [] events h done = subst (λ es. has_key e es ≡ true) (ap (state_of events) done) h
  fan_out-kept e (ep ∷ endpoints) events h done =
      let (u, c, first, rest) = bind_ok _ _ events done in
      let (payload, n, b, i) = enqueue_ok _ _ _ _ _ _ events first in
      fan_out-kept e endpoints c
        (subst (λ es. has_key e es ≡ true) i (insert_event-kept e _ events h)) rest

  fan_out-AllQueued :
      (endpoints : List Endpoint) (events : List Event) {events' : List Event}
      → fan_out ways event_type event endpoints events ≡ ok (tt, events')
      → AllQueued ways event endpoints events'
  unfolding fan_out
  fan_out-AllQueued [] events done = tt
  fan_out-AllQueued (ep ∷ endpoints) events done =
      let (u, c, first, rest) = bind_ok _ _ events done in
      let (payload, n, b, i) = enqueue_ok _ _ _ _ _ _ events first in
      let here =
        has_key-same (of_key event.organisation_id (delivery_key ways event ep)) _ _ refl refl
        ∙ insert_event-has_key
            (queued ways.now event.organisation_id event_type_delivery (delivery_key ways event ep)
              payload n)
            events in
      (
        fan_out-kept _ endpoints c
            (subst
              (λ es. has_key (of_key event.organisation_id (delivery_key ways event ep)) es ≡ true)
              i here)
            rest,
        fan_out-AllQueued endpoints c rest,
      )

-- The same surroundings at another time, with other identifiers.
abbrev pub at_another_time : Surroundings → Time → (Endpoint → Uuid) → Surroundings
at_another_time ways now ids = record ways { now = now; new_id = λ ep. ok (ids ep) }

bind_to :
    {S A B : Type 0} (m : Action S A) (f : A → Action S B) (s : S) {a : A} {s' : S}
    {r : Result (B × S)}
    → m s ≡ ok (a, s')
    → f a s' ≡ r
    → (m >>= f) s ≡ r
unfolding ◌>>=◌
bind_to m f s first rest = rw (◌>>=◌, first) rest

module _ (ways : Surroundings) (event_type : String) (event : Event) where
  fan_out-again :
      (now : Time) (ids : Endpoint → Uuid) (endpoints : List Endpoint) (events final : List Event)
      {events' : List Event}
      → fan_out ways event_type event endpoints events ≡ ok (tt, events')
      → AllQueued ways event endpoints final
      → fan_out (at_another_time ways now ids) event_type event endpoints final ≡ ok (tt, final)
  unfolding fan_out
  fan_out-again now ids [] events final done all = refl
  fan_out-again now ids (ep ∷ endpoints) events final done all =
      let (u, c, first, rest) = bind_ok _ _ events done in
      let (payload, n, b, i) = enqueue_ok _ _ _ _ _ _ events first in
      bind_to _ _ final
        (ap
            (λ (m : Result String).
              enqueue now event.organisation_id event_type_delivery (delivery_key ways event ep) m
                (ok (ids ep)) final)
            b
          ∙ enqueue-again now event.organisation_id event_type_delivery (delivery_key ways event ep)
              payload (ids ep) final all.0)
        (fan_out-again now ids endpoints c final rest all.1)

-- Where the handler of a source event succeeded, a second run of it, at whatever time and with
-- whatever identifiers for new events, succeeds and enqueues nothing.
pub handler_for_source_event-again :
    (ways : Surroundings) (event_type : String) (event : Event) (endpoints : List Endpoint)
    (events events' : List Event) (now : Time) (ids : Endpoint → Uuid)
    → handler_for_source_event ways event_type event endpoints events ≡ ok (tt, events')
    → handler_for_source_event (at_another_time ways now ids) event_type event endpoints events'
      ≡ ok (tt, events')
unfolding handler_for_source_event
handler_for_source_event-again ways event_type event endpoints events events' now ids done =
    fan_out-again ways event_type event now ids _ events events' done
      (fan_out-AllQueued ways event_type event _ events done)
