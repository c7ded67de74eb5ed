-- ===== src/Webhooks.antt =====
-- internal/modules/webhooks: the endpoints of domain/domain.go and pg/pg.go, and their management
-- and the fan-out of source events in app/service.go.
pub mod FanOut
pub mod Subscribed
pub mod Deliveries
pub mod Deactivated
mod Tests
use billing_platform.Base.{
  ℕ, ◌&&◌, Bool, true, false, List, [], ◌∷◌, ◌++◌, String, str_eq, if◌then◌else◌, Result, ok, err,
  ◌<>◌, external, Uuid, Time, ◌==◌, not,
}
use billing_platform.Transaction.{Action, Env, Principal, ◌>>=◌, ◌>>◌, lift, pure, require_that}
use billing_platform.Outbox.{Event, enqueue}

pub record Endpoint : Type 0 where
  pub id : Uuid
  pub organisation_id : Uuid
  pub url : String
  pub signing_secret : String
  pub subscribed_events : List String
  pub is_active : Bool
  pub created_at : Time
  pub created_by : Uuid

-- `business` is the JSON text of the source event.
pub record DeliveryPayload : Type 0 where
  pub endpoint_id : Uuid
  pub event_type : String
  pub event_id : Uuid
  pub business : String

abbrev pub event_type_delivery : String
event_type_delivery = "webhook.delivery"

abbrev pub event_catalog : List String
event_catalog =
    "invoice.created" ∷ "invoice.finalized" ∷ "invoice.cancelled" ∷ "payment.created"
    ∷ "payment.received" ∷ "stock.changed" ∷ "stock.low" ∷ "customer.created" ∷ "einvoice.generated"
    ∷ "einvoice.failed" ∷ "ewaybill.generated" ∷ "ewaybill.failed" ∷ []

-- `$2 = ANY(subscribed_events)`
unfoldable pub is_in : String → List String → Bool
is_in name [] = false
is_in name (x ∷ names) = let rest = is_in name names in if str_eq x name then true else rest

unfoldable pub all_known : List String → Bool
unfolding is_in
all_known [] = true
all_known (x ∷ names) = is_in x event_catalog && all_known names

abbrev is_empty : List String → Bool
is_empty [] = true
is_empty (x ∷ names) = false

-- What `ErrValidation` is wrapped in; the text for an unknown event leaves out its name.
abbrev pub invalid_request : String → Result (Unit {0})
invalid_request reason = err (external reason)

unfoldable pub validate : String → List String → Result (Unit {0})
unfolding all_known
validate url subscribed =
    if str_eq url ""
    then invalid_request "url is required"
    else if is_empty subscribed
    then invalid_request "at least one subscribed event is required"
    else if not (all_known subscribed)
    then invalid_request "unrecognized event type"
    else ok tt

-- `secret` is what `crypto.RandomToken` returns.
unfoldable pub register_endpoint :
    Env
    → Principal
    → Result String
    → String
    → List String
    → Action (List Endpoint) (Endpoint × String)
unfolding validate
register_endpoint env principal secret url subscribed = do
  lift (env.require principal "webhooks.manage")
  lift (validate url subscribed)
  id ← lift (env.new_id 0)
  token ← lift secret
  λ endpoints.
      let ep : Endpoint = record {
        id = id;
        organisation_id = principal.organisation_id;
        url = url;
        signing_secret = token;
        subscribed_events = subscribed;
        is_active = true;
        created_at = env.now;
        created_by = principal.user_id;
      } in
      ok ((ep, token), endpoints ++ (ep ∷ []))

-- `UPDATE webhook_endpoints SET is_active = false WHERE id = $1`, in a transaction of the
-- organisation: the policy of migrations/0026_webhooks.up.sql hides the rows of every other one.
unfoldable pub deactivated : Uuid → Uuid → List Endpoint → List Endpoint
deactivated org id [] = []
deactivated org id (ep ∷ endpoints) =
    (if (ep.organisation_id == org) && (ep.id == id) then record ep { is_active = false } else ep)
    ∷ deactivated org id endpoints

unfoldable pub deactivate_endpoint : Env → Principal → Uuid → Action (List Endpoint) (Unit {0})
unfolding deactivated
deactivate_endpoint env principal id = do
  lift (env.require principal "webhooks.manage")
  λ endpoints. ok (tt, deactivated principal.organisation_id id endpoints)

-- `WHERE organisation_id = $1 AND is_active = true AND $2 = ANY(subscribed_events)`
unfoldable pub is_subscribed : Uuid → String → Endpoint → Bool
unfolding is_in
is_subscribed org event_type ep =
    (ep.organisation_id == org) && (ep.is_active && is_in event_type ep.subscribed_events)

unfoldable pub list_subscribed : Uuid → String → List Endpoint → List Endpoint
unfolding is_subscribed
list_subscribed org event_type [] = []
list_subscribed org event_type (ep ∷ endpoints) =
    let rest = list_subscribed org event_type endpoints in
    if is_subscribed org event_type ep then ep ∷ rest else rest

-- What one run of the handler is given: the clock, the identifiers of the new events by endpoint,
-- `json.Marshal` of a payload, and `uuid.UUID.String`.
pub record Surroundings : Type 0 where
  pub now : Time
  pub new_id : Endpoint → Result Uuid
  pub marshal : DeliveryPayload → Result String
  pub uuid_text : Uuid → String

abbrev pub delivery_key : Surroundings → Event → Endpoint → String
delivery_key ways event ep =
    "webhook:deliver:" <> ways.uuid_text event.id <> ":" <> ways.uuid_text ep.id

abbrev pub payload_of : String → Event → Endpoint → DeliveryPayload
payload_of event_type event ep = record {
  endpoint_id = ep.id;
  event_type = event_type;
  event_id = event.id;
  business = event.payload;
}

-- The loop over the endpoints.
unfoldable pub fan_out :
    Surroundings → String → Event → List Endpoint → Action (List Event) (Unit {0})
fan_out ways event_type event [] = pure tt
fan_out ways event_type event (ep ∷ endpoints) = do
  enqueue ways.now event.organisation_id event_type_delivery (delivery_key ways event ep)
      (ways.marshal (payload_of event_type event ep)) (ways.new_id ep)
  fan_out ways event_type event endpoints

unfoldable pub handler_for_source_event :
    Surroundings → String → Event → List Endpoint → Action (List Event) (Unit {0})
unfolding fan_out list_subscribed
handler_for_source_event ways event_type event endpoints =
    fan_out ways event_type event (list_subscribed event.organisation_id event_type endpoints)
