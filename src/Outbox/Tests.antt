-- ===== src/Outbox/Tests.antt =====
-- A queue with a handler that fails, and the theorems at it.
use billing_platform.Base.{
  ℕ, suc, ◌+◌, ◌<◌, ◌≡◌, refl, Bool, Option, true, false, none, some, List, [], ◌∷◌, ok, IsAmong,
  inl, inr, arith, str_eq, ltb, ◌*◌, ◌^◌, if◌then◌else◌,
}
use billing_platform.Transaction.{◌>>=◌}
use billing_platform.Outbox.{
  Event, Handled, Handlers, handle, no_handler, hour, pending, failed, done, processing, minute,
  backoff, backoff_loop, claimable, oldest, update, claim_next, mark_failed, finish, has_key,
  insert_event, insert_events, enqueue, process_once, drain,
}
use billing_platform.Outbox.Claims.{count}
use billing_platform.Outbox.Backoff.{backoff_closed}
use billing_platform.Outbox.Drain.{drain-empties}
use billing_platform.Outbox.Finished.{process_once-settled}
use billing_platform.Outbox.Keys.{IsKeyed, begins, enqueues, processes, Reach-IsKeyed}

abbrev event : ℕ → Event
event id = record {
  id = id;
  organisation_id = 7;
  event_type = "mail";
  payload = "{}";
  idempotency_key = "first";
  status = pending;
  attempts = 0;
  next_attempt_at = 10;
  last_error = none;
  created_at = 10;
  updated_at = 10;
}

abbrev sent : Event
sent = record (event 2) { status = done; idempotency_key = "second" }

abbrev queue : List Event
queue = event 1 ∷ sent ∷ []

abbrev send : Event → ℕ → Handled ℕ
send e mails = record {
  tables = suc mails;
  enqueued = [];
  failure = some (record { message = "bounced"; is_permanent = false });
  is_usable = true;
}

abbrev handlers : Handlers ℕ
handlers = ("mail", send) ∷ []

-- The poller's round commits what the handler wrote beside the error that it returned.
fails : process_once handlers 20 (0, queue) ≡ (
  true,
  (
    1,
    record (event 1) {
      status = failed;
      attempts = 1;
      next_attempt_at = 20 + minute;
      last_error = some "bounced";
      updated_at = 20;
    }
        ∷ sent
        ∷ [],
  ),
)
unfolding process_once claim_next oldest claimable update finish mark_failed insert_events backoff
    backoff_loop
fails = refl

-- After a statement that failed the claim stays, and nothing claims the event again.
abbrev broken : Handlers ℕ
broken =
    (
      "mail",
      λ e mails. record {
        tables = suc mails;
        enqueued = [];
        failure = some (record { message = "deadlock"; is_permanent = false });
        is_usable = false;
      },
    )
    ∷ []

abbrev stuck : List Event
stuck = record (event 1) { status = processing; attempts = 1; updated_at = 20 } ∷ sent ∷ []

stays_claimed : process_once broken 20 (0, queue) ≡ (true, (0, stuck))
unfolding process_once claim_next oldest claimable update finish
stays_claimed = refl

quiet_if :
    (test : Bool) (e : Event) (tables : ℕ)
    → (elim (if test then some send else none)
        as (λ (o : Option (Event → ℕ → Handled ℕ)). Handled ℕ) [
          | none ↦ no_handler e tables
          | some handler ↦ handler e tables
        ]).enqueued
      ≡ []
quiet_if true e tables = refl
quiet_if false e tables = refl

quiet : (e : Event) (tables : ℕ) → (handle handlers e tables).enqueued ≡ []
quiet e tables = quiet_if (str_eq "mail" e.event_type) e tables

one_claimable : count 20 queue < 2
unfolding claimable
one_claimable = omega arith

drain-empties_example :
    ((drain handlers 20 2 (0, queue)).0 ≡ false)
    × (count 20 (drain handlers 20 2 (0, queue)).1.1 ≡ 0)
drain-empties_example = drain-empties handlers 20 2 0 queue quiet one_claimable

process_once-settled_example : IsAmong sent (process_once handlers 20 (0, queue)).1.1
unfolding claimable
process_once-settled_example =
    process_once-settled handlers 20 sent 0 queue (inr (inl refl)) (λ h. cc h, (λ h. refl, tt))

queue-IsKeyed : IsKeyed []
queue-IsKeyed = tt

abbrev first : Event
first = record {
  id = 5;
  organisation_id = 7;
  event_type = "mail";
  payload = "{}";
  idempotency_key = "k";
  status = pending;
  attempts = 0;
  next_attempt_at = 10;
  last_error = none;
  created_at = 10;
  updated_at = 10;
}

enqueued : enqueue 10 7 "mail" "k" (ok "{}") (ok 5) [] ≡ ok (tt, first ∷ [])
unfolding enqueue insert_event has_key ◌>>=◌
enqueued = refl

again : enqueue 11 7 "other" "k" (ok "[]") (ok 6) (first ∷ []) ≡ ok (tt, first ∷ [])
unfolding enqueue insert_event has_key ◌>>=◌
again = refl

Reach-IsKeyed_example : IsKeyed (process_once handlers 20 (0, first ∷ [])).1.1
Reach-IsKeyed_example = Reach-IsKeyed handlers 20 {s = (0, [])} queue-IsKeyed (
    processes (
      enqueues 11 7 "other" "k" (ok "[]") (ok 6)
        (enqueues 10 7 "mail" "k" (ok "{}") (ok 5) begins enqueued) again))

backoff_closed_example : backoff 9 ≡ (if ltb hour (minute * 2 ^ 8) then hour else minute * 2 ^ 8)
backoff_closed_example = backoff_closed 9
