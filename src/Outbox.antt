-- ===== src/Outbox.antt =====
-- internal/platform/outbox: the queue of events in outbox.go, the poller's step in poller.go, and
-- the query `outbox_claim_next` of migrations/0023_outbox.up.sql.
pub mod Backoff
pub mod Claims
pub mod Keys
pub mod Drain
pub mod Finished
mod Tests
use billing_platform.Base.{
  ℕ, zero, suc, ◌+◌, ◌-◌, ◌*◌, ◌&&◌, ◌||◌, Bool, true, false, Option, none, some, List, [], ◌∷◌,
  ◌++◌, map, String, str_eq, if◌then◌else◌, Result, ok, err, Uuid, Time, ◌==◌, leb, ltb, Dict,
  lookup,
}
use billing_platform.Transaction.{Action, ◌>>=◌, ◌>>◌, lift, pure}

pub data Status : Type 0 where
  pending processing done failed : Status

-- The payload is the JSON text.
pub record Event : Type 0 where
  pub id : Uuid
  pub organisation_id : Uuid
  pub event_type : String
  pub payload : String
  pub idempotency_key : String
  pub status : Status
  pub attempts : ℕ
  pub next_attempt_at : Time
  pub last_error : Option String
  pub created_at : Time
  pub updated_at : Time

-- An error of a handler, and whether `Permanent` wraps it.
pub record Failure : Type 0 where
  pub message : String
  pub is_permanent : Bool

abbrev pub minute : ℕ
minute = 60 * 1000000000

abbrev pub hour : ℕ
hour = 60 * 60 * 1000000000

-- The loop of `backoff`, over the attempts that are left.
unfoldable pub backoff_loop : ℕ → ℕ → ℕ
backoff_loop zero d = d
backoff_loop (suc attempts) d =
    let next = backoff_loop attempts (d * 2) in if ltb d hour then next else d

unfoldable pub backoff : ℕ → ℕ
unfolding backoff_loop
backoff attempts = let d = backoff_loop (attempts - 1) minute in if ltb hour d then hour else d

unfoldable pub has_key : Event → List Event → Bool
has_key e [] = false
has_key e (x ∷ events) =
    let rest = has_key e events in
    if (x.organisation_id == e.organisation_id) && str_eq x.idempotency_key e.idempotency_key
    then true
    else rest

-- `INSERT ... ON CONFLICT (organisation_id, idempotency_key) DO NOTHING`
unfoldable pub insert_event : Event → List Event → List Event
insert_event e events = if has_key e events then events else events ++ (e ∷ [])

unfoldable pub insert_events : List Event → List Event → List Event
insert_events [] events = events
insert_events (e ∷ more) events = insert_events more (insert_event e events)

-- `body` is what `json.Marshal` returns, `id` what `uuid.NewV7` does.
unfoldable pub enqueue :
    Time → Uuid → String → String → Result String → Result Uuid → Action (List Event) (Unit {0})
unfolding insert_event
enqueue now org event_type idempotency_key body new_id = do
  payload ← lift body
  id ← lift new_id
  λ events. ok (
    tt,
    insert_event
        (record {
          id = id;
          organisation_id = org;
          event_type = event_type;
          payload = payload;
          idempotency_key = idempotency_key;
          status = pending;
          attempts = 0;
          next_attempt_at = now;
          last_error = none;
          created_at = now;
          updated_at = now;
        })
        events,
  )

-- `status IN ('PENDING', 'FAILED') AND next_attempt_at <= now()`
unfoldable pub claimable : Time → Event → Bool
claimable now e =
    elim e.status [ pending ↦ true | failed ↦ true | processing ↦ false | done ↦ false ]
    && leb e.next_attempt_at now

-- `ORDER BY created_at LIMIT 1`
unfoldable pub oldest : Time → List Event → Option Event
unfolding claimable
oldest now [] = none
oldest now (e ∷ events) =
    let rest = oldest now events in
    if claimable now e
    then elim rest [
      | none ↦ some e
      | some x ↦ if leb e.created_at x.created_at then some e else some x
    ]
    else rest

-- An UPDATE of the rows with the id.
unfoldable pub update : Uuid → (Event → Event) → List Event → List Event
update id change [] = []
update id change (e ∷ events) = (if e.id == id then change e else e) ∷ update id change events

abbrev pub claimed : Time → Event → Event
claimed now e = record e { status = processing; attempts = suc e.attempts; updated_at = now }

unfoldable pub claim_next : Time → List Event → Option Event × List Event
unfolding oldest update
claim_next now events = elim (oldest now events) [
  | none ↦ (none, events)
  | some e ↦ (some (claimed now e), update e.id (claimed now) events)
]

unfoldable pub mark_done : Time → Uuid → List Event → List Event
unfolding update
mark_done now id events = update id (λ e. record e { status = done; updated_at = now }) events

abbrev pub next_attempt : Time → ℕ → Failure → Time
next_attempt now attempts failure =
    if failure.is_permanent then now + 100 * 365 * 24 * hour else now + backoff attempts

unfoldable pub mark_failed : Time → Uuid → ℕ → Failure → List Event → List Event
unfolding update
mark_failed now id attempts failure events =
    update id
      (λ e. record e {
        status = failed;
        last_error = some failure.message;
        next_attempt_at = next_attempt now attempts failure;
        updated_at = now;
      })
      events

-- What a handler did in its transaction: the other tables, the events it enqueued, its error, and
-- whether the database still takes statements, which after one that failed it does not.
pub record Handled (S : Type 0) : Type 0 where
  pub tables : S
  pub enqueued : List Event
  pub failure : Option Failure
  pub is_usable : Bool

abbrev pub Handlers : Type 0 → Type 0
Handlers S = Dict (Event → S → Handled S)

abbrev pub no_handler : {S : Type 0} → Event → S → Handled S
no_handler e tables = record {
  tables = tables;
  enqueued = [];
  failure =
      some
        (record { message = "outbox: no handler registered for event type"; is_permanent = false });
  is_usable = true;
}

abbrev pub handle : {S : Type 0} → Handlers S → Event → S → Handled S
handle handlers e tables = elim (lookup e.event_type handlers) [
  | none ↦ no_handler e tables
  | some handler ↦ handler e tables
]

module _ {S : Type 0} (handlers : Handlers S) (now : Time) where
  -- The transaction of `ProcessOnce`: the mark is written with what the handler did, or nothing is.
  unfoldable pub finish : Event → S → List Event → S × List Event
  unfolding mark_done mark_failed insert_events
  finish e tables events =
      let h = handle handlers e tables in
      let written = insert_events h.enqueued events in
      if h.is_usable
      then elim h.failure [
        | none ↦ (h.tables, mark_done now e.id written)
        | some failure ↦ (h.tables, mark_failed now e.id e.attempts failure written)
      ]
      else (tables, events)

  -- Whether an event was claimed, and the tables after it.
  unfoldable pub process_once : S × List Event → Bool × (S × List Event)
  unfolding claim_next finish
  process_once (tables, events) =
      let (found, taken) = claim_next now events in
      elim found [ none ↦ (false, (tables, taken)) | some e ↦ (true, finish e tables taken) ]

  -- Rounds of the loop of `Run` that do not sleep: at most so many, and whether one was left over.
  unfoldable pub drain : ℕ → S × List Event → Bool × (S × List Event)
  unfolding process_once
  drain zero s = (true, s)
  drain (suc rounds) s =
      let (more, t) = process_once s in elim more [ true ↦ drain rounds t | false ↦ (false, t) ]
