-- ===== src/Outbox/Finished.antt =====
-- Events that are done, or were claimed and never marked.
use mathlib.Core.Path.{subst}
use billing_platform.Base.{
  ◌≡◌, sym, ap, ◌∙◌, inl, inr, true, false, List, [], ◌∷◌, ◌++◌, Uuid, Time, ◌==◌, Bool-cases,
  Option-cases, IsAmong, All,
}
use billing_platform.Outbox.{
  Event, Handlers, handle, claimable, oldest, update, claimed, has_key, insert_event, insert_events,
  mark_done, mark_failed, finish, process_once,
}
use billing_platform.Outbox.Claims.{oldest-IsAmong, process_once-none, process_once-some}

IsAmong-append : (e : Event) (xs ys : List Event) → IsAmong e xs → IsAmong e (xs ++ ys)
IsAmong-append e [] ys h = absurd h
IsAmong-append e (x ∷ xs) ys (inl same) = inl same
IsAmong-append e (x ∷ xs) ys (inr h) = inr (IsAmong-append e xs ys h)

All-IsAmong : (P : Event → Type 0) (e : Event) (xs : List Event) → All P xs → IsAmong e xs → P e
All-IsAmong P e [] all h = absurd h
All-IsAmong P e (x ∷ xs) all (inl same) = subst P (sym same) all.0
All-IsAmong P e (x ∷ xs) all (inr h) = All-IsAmong P e xs all.1 h

insert_event-IsAmong :
    (e new : Event) (events : List Event) → IsAmong e events → IsAmong e (insert_event new events)
unfolding insert_event
insert_event-IsAmong e new events h = elim (Bool-cases (has_key new events)) [
  | inl k ↦ rw (insert_event, k) h
  | inr k ↦ rw (insert_event, k) (IsAmong-append e events (new ∷ []) h)
]

insert_events-IsAmong :
    (e : Event) (more events : List Event)
    → IsAmong e events
    → IsAmong e (insert_events more events)
unfolding insert_events
insert_events-IsAmong e [] events h = h
insert_events-IsAmong e (x ∷ more) events h =
    insert_events-IsAmong e more (insert_event x events) (insert_event-IsAmong e x events h)

update-IsAmong :
    (e : Event) (id : Uuid) (change : Event → Event) (events : List Event)
    → (e.id == id) ≡ false
    → IsAmong e events
    → IsAmong e (update id change events)
unfolding update
update-IsAmong e id change [] other h = absurd h
update-IsAmong e id change (x ∷ events) other (inl same) =
    let apart : (x.id == id) ≡ false = ap (λ (y : Event). y.id == id) (sym same) ∙ other in
    rw (update, apart) (inl same)
update-IsAmong e id change (x ∷ events) other (inr h) =
    inr (update-IsAmong e id change events other h)

module _ {S : Type 0} (handlers : Handlers S) (now : Time) where
  finish-IsAmong :
      (e c : Event) (tables : S) (events : List Event)
      → (e.id == c.id) ≡ false
      → IsAmong e events
      → IsAmong e (finish handlers now c tables events).1
  unfolding finish mark_done mark_failed
  finish-IsAmong e c tables events other among =
      let h = handle handlers c tables in
      let kept = insert_events-IsAmong e h.enqueued events among in
      elim (Bool-cases h.is_usable) [
        | inr u ↦ rw (finish, u) among
        | inl u ↦ elim (Option-cases h.failure) [
          | inl f ↦ rw (finish, u, f) (update-IsAmong e c.id _ _ other kept)
          | inr (failure, f) ↦ rw (finish, u, f) (update-IsAmong e c.id _ _ other kept)
        ]
      ]

  -- A round of the poller leaves an event of the table as it is that cannot be claimed at the time
  -- (one that is done, is being processed or is not yet due), if no event that can be claimed has
  -- its identifier.
  pub process_once-settled :
      (e : Event) (tables : S) (events : List Event)
      → IsAmong e events
      → All (λ x. (e.id == x.id) ≡ true → claimable now x ≡ false) events
      → IsAmong e (process_once handlers now (tables, events)).1.1
  process_once-settled e tables events among alone = elim (Option-cases (oldest now events)) [
    | inl n ↦ rw (process_once-none handlers now tables events n) among
    | inr (c, o) ↦
        let (is_in, can) = oldest-IsAmong now events o in
        elim (Bool-cases (e.id == c.id)) [
          | inl twin ↦ absurd (cc (All-IsAmong _ c events alone is_in twin, can))
          | inr other ↦ rw (process_once-some handlers now tables events o) (
              finish-IsAmong e (claimed now c) tables _ other
                (update-IsAmong e c.id (claimed now) events other among))
        ]
  ]
