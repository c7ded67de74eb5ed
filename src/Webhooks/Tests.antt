-- ===== src/Webhooks/Tests.antt =====
-- Runs of the operations of Webhooks.
use Prim.Native.String.{count}
use text.Mathlib.TextLemmas.{length-append}
use billing_platform.Base.{
  ℕ, zero, suc, ◌+◌, ◌++◌, ◌<>◌, ◌↔◌, sym, ap, ◌∙◌, Pairs, IsAmong, ◌≡◌, refl, arith, true, false,
  [], ◌∷◌, ok, err, none, List, String, external, ◌==◌,
}
use billing_platform.Transaction.{Env, Principal, ◌>>=◌}
use billing_platform.Outbox.{Event, pending, has_key, insert_event, enqueue}
use billing_platform.Webhooks.{
  Endpoint, Surroundings, is_in, all_known, validate, register_endpoint, deactivated,
  deactivate_endpoint, is_subscribed, list_subscribed, fan_out, handler_for_source_event,
}
use billing_platform.Webhooks.FanOut.{at_another_time, handler_for_source_event-again}
use billing_platform.Webhooks.Subscribed.{Wants}
use billing_platform.Webhooks.Deliveries.{AreFresh, IsDelivery, handler_for_source_event-delivers}
use billing_platform.Webhooks.Deactivated.{deactivate_endpoint-list_subscribed}

abbrev env : Env
env = record {
  now = 30;
  new_id = λ n. ok 4;
  require = λ principal code. ok tt;
  uuid_text = λ id. "";
  pick = λ n. 0;
}

abbrev principal : Principal
principal = record { user_id = 1; organisation_id = 7 }

abbrev endpoint : ℕ → Endpoint
endpoint id = record {
  id = id;
  organisation_id = 7;
  url = "https://example.com";
  signing_secret = "secret";
  subscribed_events = "stock.low" ∷ [];
  is_active = true;
  created_at = 30;
  created_by = 1;
}

registered :
    register_endpoint env principal (ok "secret") "https://example.com" ("stock.low" ∷ []) []
    ≡ ok ((endpoint 4, "secret"), endpoint 4 ∷ [])
unfolding register_endpoint validate all_known is_in ◌>>=◌
registered = refl

unknown_event :
    register_endpoint env principal (ok "secret") "https://example.com" ("stock.high" ∷ []) []
    ≡ err (external "unrecognized event type")
unfolding register_endpoint validate all_known is_in ◌>>=◌
unknown_event = refl

-- A text for each identifier: as many strokes.
abbrev strokes : ℕ → String
strokes zero = ""
strokes (suc n) = "i" <> strokes n

one_stroke : count "i" ≡ 1
one_stroke = refl

count-strokes : (n : ℕ) → count (strokes n) ≡ n
count-strokes zero = refl
count-strokes (suc n) =
    let rest = count-strokes n in
    length-append "i" (strokes n) ∙ rw (one_stroke, rest) (omega arith)

strokes-injective : (a b : ℕ) → strokes a ≡ strokes b → a ≡ b
strokes-injective a b same = sym (count-strokes a) ∙ ap count same ∙ count-strokes b

abbrev ways : Surroundings
ways = record {
  now = 40;
  new_id = λ ep. ok (ep.id + 100);
  marshal = λ payload. ok "{}";
  uuid_text = strokes;
}

abbrev event : ℕ → String → String → String → Event
event id event_type payload key = record {
  id = id;
  organisation_id = 7;
  event_type = event_type;
  payload = payload;
  idempotency_key = key;
  status = pending;
  attempts = 0;
  next_attempt_at = 40;
  last_error = none;
  created_at = 40;
  updated_at = 40;
}

abbrev source : Event
source = event 9 "stock.low" "{}" "low"

abbrev endpoints : List Endpoint
endpoints = endpoint 4 ∷ endpoint 5 ∷ []

abbrev deliveries : List Event
deliveries =
    event 104 "webhook.delivery" "{}" "webhook:deliver:iiiiiiiii:iiii"
    ∷ event 105 "webhook.delivery" "{}" "webhook:deliver:iiiiiiiii:iiiii"
    ∷ []

fanned_out : handler_for_source_event ways "stock.low" source endpoints [] ≡ ok (tt, deliveries)
unfolding handler_for_source_event list_subscribed is_subscribed is_in fan_out enqueue insert_event
    has_key ◌>>=◌
fanned_out = refl

fresh : AreFresh ways source (list_subscribed 7 "stock.low" endpoints) []
unfolding list_subscribed is_subscribed is_in has_key
fresh = (refl, (refl, tt))

handler_for_source_event-delivers_example :
    (added : List Event) × (deliveries ≡ [] ++ added)
    × Pairs (IsDelivery ways "stock.low" source) (list_subscribed 7 "stock.low" endpoints) added
    × ((ep : Endpoint)
        → IsAmong ep (list_subscribed 7 "stock.low" endpoints)
          ↔ (IsAmong ep endpoints × Wants 7 "stock.low" ep))
handler_for_source_event-delivers_example =
    handler_for_source_event-delivers ways "stock.low" source endpoints [] deliveries
      strokes-injective ((refl, tt), (tt, tt)) fresh fanned_out

handler_for_source_event-again_example :
    handler_for_source_event
      (at_another_time ways 50 (λ ep. ep.id + 200))
      "stock.low"
      source
      endpoints
      deliveries
    ≡ ok (tt, deliveries)
handler_for_source_event-again_example =
    handler_for_source_event-again ways "stock.low" source endpoints [] deliveries 50
      (λ ep. ep.id + 200) fanned_out

abbrev left : List Endpoint
left = record (endpoint 4) { is_active = false } ∷ endpoint 5 ∷ []

deactivation : deactivate_endpoint env principal 4 endpoints ≡ ok (tt, left)
unfolding deactivate_endpoint deactivated ◌>>=◌
deactivation = refl

deactivate_endpoint-list_subscribed_example :
    ((ep : Endpoint)
      → IsAmong ep (list_subscribed 7 "stock.low" left)
        ↔ (IsAmong ep (list_subscribed 7 "stock.low" endpoints) × ((ep.id == 4) ≡ false)))
    × ((other : ℕ)
        → (other == 7) ≡ false
        → list_subscribed other "stock.low" left ≡ list_subscribed other "stock.low" endpoints)
deactivate_endpoint-list_subscribed_example =
    deactivate_endpoint-list_subscribed env principal 4 "stock.low" endpoints left deactivation

-- A call for an endpoint of another organisation succeeds and changes nothing.
abbrev stranger : Principal
stranger = record { user_id = 2; organisation_id = 8 }

elsewhere : deactivate_endpoint env stranger 4 endpoints ≡ ok (tt, endpoints)
unfolding deactivate_endpoint deactivated ◌>>=◌
elsewhere = refl
