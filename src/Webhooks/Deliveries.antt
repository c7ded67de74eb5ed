-- ===== src/Webhooks/Deliveries.antt =====
-- The deliveries that the handler of a source event adds to the outbox.
use mathlib.Core.Path.{subst}
use mathlib.Core.List.{append_assoc, append-nil}
use text.Mathlib.TextLemmas.{append_cancel_left}
use billing_platform.Base.{
  ◌≡◌, refl, sym, ap, ◌∙◌, ◌↔◌, inl, inr, false, List, [], ◌∷◌, ◌++◌, ok, String, str_eq, eq_iff,
  Uuid, ◌==◌, ◌<>◌, Bool-cases, IsAmong, All, Pairs, arith,
}
use billing_platform.Transaction.{bind_ok, state_of}
use billing_platform.Outbox.{Event, pending, has_key, insert_event}
use billing_platform.Outbox.Keys.{has_key-append}
use billing_platform.Webhooks.{
  Endpoint, Surroundings, delivery_key, event_type_delivery, fan_out, is_subscribed,
  list_subscribed, handler_for_source_event,
}
use billing_platform.Webhooks.Subscribed.{Wants, list_subscribed_iff}
use billing_platform.Webhooks.FanOut.{of_key, queued, has_key-same, enqueue_ok}

-- The event is the delivery of the source event to the endpoint, due at once.
pub record IsDelivery (ways : Surroundings) (event_type : String) (event : Event) (ep : Endpoint)
    (e : Event) : Type 0 where
  pub organisation : e.organisation_id ≡ event.organisation_id
  pub type : e.event_type ≡ "webhook.delivery"
  pub key :
      e.idempotency_key
      ≡ ("webhook:deliver:" <> ways.uuid_text event.id <> ":" <> ways.uuid_text ep.id)
  pub payload :
      ways.marshal (record {
        endpoint_id = ep.id;
        event_type = event_type;
        event_id = event.id;
        business = event.payload;
      })
      ≡ ok e.payload
  pub waits : e.status ≡ pending
  pub untried : e.attempts ≡ 0
  pub due : e.next_attempt_at ≡ ways.now

-- No two endpoints have one identifier.
abbrev pub IsDistinct : List Endpoint → Type 0
IsDistinct [] = Unit {0}
IsDistinct (ep ∷ endpoints) =
    All (λ (x : Endpoint). (ep.id == x.id) ≡ false) endpoints × IsDistinct endpoints

-- No delivery of the event to one of the endpoints is in the outbox.
abbrev pub AreFresh : Surroundings → Event → List Endpoint → List Event → Type 0
AreFresh ways event endpoints events =
    All
      (λ (ep : Endpoint).
        has_key (of_key event.organisation_id (delivery_key ways event ep)) events ≡ false)
      endpoints

module _ (org : Uuid) (event_type : String) where
  All-list_subscribed :
      (P : Endpoint → Type 0) (endpoints : List Endpoint)
      → All P endpoints
      → All P (list_subscribed org event_type endpoints)
  unfolding list_subscribed
  All-list_subscribed P [] all = tt
  All-list_subscribed P (x ∷ endpoints) all =
      let rest = All-list_subscribed P endpoints all.1 in
      elim (Bool-cases (is_subscribed org event_type x)) [
        | inl k ↦ rw (list_subscribed, k) (all.0, rest)
        | inr k ↦ rw (list_subscribed, k) rest
      ]

  IsDistinct-list_subscribed :
      (endpoints : List Endpoint)
      → IsDistinct endpoints
      → IsDistinct (list_subscribed org event_type endpoints)
  unfolding list_subscribed
  IsDistinct-list_subscribed [] distinct = tt
  IsDistinct-list_subscribed (x ∷ endpoints) distinct =
      let rest = IsDistinct-list_subscribed endpoints distinct.1 in
      elim (Bool-cases (is_subscribed org event_type x)) [
        | inl k ↦ rw (list_subscribed, k) (All-list_subscribed _ endpoints distinct.0, rest)
        | inr k ↦ rw (list_subscribed, k) rest
      ]

module _ (ways : Surroundings)
    (injective : (a b : Uuid) → ways.uuid_text a ≡ ways.uuid_text b → a ≡ b) where
  delivery_key-apart :
      (event : Event) (ep x : Endpoint)
      → (ep.id == x.id) ≡ false
      → str_eq (delivery_key ways event ep) (delivery_key ways event x) ≡ false
  delivery_key-apart event ep x apart =
      elim (Bool-cases (str_eq (delivery_key ways event ep) (delivery_key ways event x))) [
        | inr e ↦ e
        | inl e ↦
            let same = (eq_iff (delivery_key ways event ep) (delivery_key ways event x)).0 e in
            let one = append_cancel_left "webhook:deliver:" _ _ same in
            let two = append_cancel_left (ways.uuid_text event.id) _ _ one in
            let three : ways.uuid_text ep.id ≡ ways.uuid_text x.id =
              append_cancel_left ":" _ _ two in
            let id = injective ep.id x.id three in absurd (ground arith)
      ]

  AreFresh-append :
      (event : Event) (ep : Endpoint) (new : Event) (endpoints : List Endpoint)
      (events : List Event)
      → new.idempotency_key ≡ delivery_key ways event ep
      → All (λ (x : Endpoint). (ep.id == x.id) ≡ false) endpoints
      → AreFresh ways event endpoints events
      → AreFresh ways event endpoints (events ++ (new ∷ []))
  AreFresh-append event ep new [] events key apart fresh = tt
  AreFresh-append event ep new (x ∷ endpoints) events key apart fresh =
      let other = delivery_key-apart event ep x apart.0 in
      let of_x = of_key event.organisation_id (delivery_key ways event x) in
      let other_key : str_eq new.idempotency_key of_x.idempotency_key ≡ false = rw key other in
      (
        has_key-append of_x new events ∙ rw (fresh.0, other_key) (ground arith),
        AreFresh-append event ep new endpoints events key apart.1 fresh.1,
      )

  fan_out-Pairs :
      (event_type : String) (event : Event) (endpoints : List Endpoint) (events : List Event)
      {events' : List Event}
      → IsDistinct endpoints
      → AreFresh ways event endpoints events
      → fan_out ways event_type event endpoints events ≡ ok (tt, events')
      → (added : List Event) × (events' ≡ events ++ added)
        × Pairs (IsDelivery ways event_type event) endpoints added
  unfolding fan_out insert_event
  fan_out-Pairs event_type event [] events distinct fresh done =
      ([], sym (ap (state_of events) done) ∙ sym (append-nil events), tt)
  fan_out-Pairs event_type event (ep ∷ endpoints) events {events'} distinct fresh done =
      let (u, c, first, rest) = bind_ok _ _ events done in
      let (payload, n, body, put) = enqueue_ok _ _ _ _ _ _ events first in
      let new =
        queued ways.now event.organisation_id event_type_delivery (delivery_key ways event ep)
          payload n in
      let unknown : has_key new events ≡ false =
        has_key-same new (of_key event.organisation_id (delivery_key ways event ep)) events refl
          refl
        ∙ fresh.0 in
      let grown : insert_event new events ≡ events ++ (new ∷ []) =
        rw (insert_event, unknown) refl in
      let c_is : c ≡ events ++ (new ∷ []) = sym put ∙ grown in
      let still =
        subst (AreFresh ways event endpoints) (sym c_is)
          (AreFresh-append event ep new endpoints events refl distinct.0 fresh.1) in
      let (added, is, pairs) = fan_out-Pairs event_type event endpoints c distinct.1 still rest in
      (
        new ∷ added,
        is ∙ ap (λ (es : List Event). es ++ added) c_is ∙ append_assoc events (new ∷ []) added,
        (
          record {
            organisation = refl;
            type = refl;
            key = refl;
            payload = body;
            waits = refl;
            untried = refl;
            due = refl;
          },
          pairs,
        ),
      )

-- Where the texts of identifiers differ, no two endpoints of the table have one identifier, and no
-- delivery of a source event to a subscribed endpoint is in the outbox, the handler of that event
-- adds, if it succeeds, one event for each endpoint of the organisation that is active and
-- subscribed, and no other: the delivery to that endpoint, with its own key and payload, PENDING
-- and due at once.
pub handler_for_source_event-delivers :
    (ways : Surroundings) (event_type : String) (event : Event) (endpoints : List Endpoint)
    (events events' : List Event)
    → ((a b : Uuid) → ways.uuid_text a ≡ ways.uuid_text b → a ≡ b)
    → IsDistinct endpoints
    → AreFresh ways event (list_subscribed event.organisation_id event_type endpoints) events
    → handler_for_source_event ways event_type event endpoints events ≡ ok (tt, events')
    → (added : List Event) × (events' ≡ events ++ added)
      × Pairs
          (IsDelivery ways event_type event)
          (list_subscribed event.organisation_id event_type endpoints)
          added
      × ((ep : Endpoint)
          → IsAmong ep (list_subscribed event.organisation_id event_type endpoints)
            ↔ (IsAmong ep endpoints × Wants event.organisation_id event_type ep))
unfolding handler_for_source_event
handler_for_source_event-delivers ways event_type event endpoints events events' injective distinct
      fresh done =
    let org = event.organisation_id in
    let (added, is, pairs) =
      fan_out-Pairs ways injective event_type event (list_subscribed org event_type endpoints)
        events (IsDistinct-list_subscribed org event_type endpoints distinct) fresh done in
    (added, is, pairs, λ ep. list_subscribed_iff org event_type ep endpoints)
