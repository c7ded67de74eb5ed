-- ===== src/Outbox/Drain.antt =====
-- The rounds of `Run` that do not sleep come to an end.
use billing_platform.Base.{
  ℕ, zero, suc, ◌≤◌, ◌<◌, ◌≡◌, ◌⊎◌, refl, inl, inr, true, false, List, [], Time, arith, Bool-cases,
  Option-cases,
}
use billing_platform.Outbox.{
  Event, Handlers, handle, oldest, update, claimed, mark_done, mark_failed, insert_events, finish,
  process_once, drain,
}
use billing_platform.Outbox.Claims.{
  count, oldest-IsAmong, oldest-none, update-count, update-count_lt, claimed-Spends, done-Spends,
  failed-Spends, process_once-none, process_once-some,
}

-- No handler enqueues.
abbrev pub IsQuiet : {S : Type 0} → Handlers S → Type 0
IsQuiet {S} handlers = (e : Event) (tables : S) → (handle handlers e tables).enqueued ≡ []

module _ {S : Type 0} (handlers : Handlers S) (now : Time) where
  finish-count :
      (e : Event) (tables : S) (events : List Event)
      → IsQuiet handlers
      → count now (finish handlers now e tables events).1 ≤ count now events
  unfolding finish mark_done mark_failed insert_events
  finish-count e tables events quiet =
      let h = handle handlers e tables in
      elim (Bool-cases h.is_usable) [
        | inr u ↦ rw (finish, u) (omega arith)
        | inl u ↦ elim (Option-cases h.failure) [
          | inl f ↦
              rw (finish, u, f, quiet e tables) (update-count now e.id _ events (done-Spends now))
          | inr (failure, f) ↦
              rw (finish, u, f, quiet e tables)
                (update-count now e.id _ events (failed-Spends now e.attempts failure))
        ]
      ]

  -- A round that claims an event leaves fewer that can be claimed.
  process_once-count :
      (tables : S) (events : List Event)
      → IsQuiet handlers
      → ((process_once handlers now (tables, events)).0 ≡ false)
          × (count now (process_once handlers now (tables, events)).1.1 ≡ 0)
        ⊎ ((process_once handlers now (tables, events)).0 ≡ true)
          × (count now (process_once handlers now (tables, events)).1.1 < count now events)
  process_once-count tables events quiet = elim (Option-cases (oldest now events)) [
    | inl n ↦
        rw (process_once-none handlers now tables events n) (inl (refl, oldest-none now events n))
    | inr (e, o) ↦
        let (among, can) = oldest-IsAmong now events o in
        let fewer = update-count_lt now e (claimed now) events (claimed-Spends now) among can in
        let kept = finish-count (claimed now e) tables (update e.id (claimed now) events) quiet in
        rw (process_once-some handlers now tables events o) (inr (refl, omega arith))
  ]

  -- At a fixed time, with handlers that enqueue no events, rounds of the poller that are more than
  -- the events which can be claimed end with an empty claim, and no event is left that can be
  -- claimed, whatever errors the handlers return.
  pub drain-empties :
      (rounds : ℕ) (tables : S) (events : List Event)
      → IsQuiet handlers
      → count now events < rounds
      → ((drain handlers now rounds (tables, events)).0 ≡ false)
        × (count now (drain handlers now rounds (tables, events)).1.1 ≡ 0)
  unfolding drain
  drain-empties zero tables events quiet h = absurd (omega arith)
  drain-empties (suc rounds) tables events quiet h =
      let t = process_once handlers now (tables, events) in
      elim (process_once-count tables events quiet) [
        | inl (stopped, none_left) ↦ rw (drain, stopped) (refl, none_left)
        | inr (claimed_one, fewer) ↦
            rw (drain, claimed_one) (drain-empties rounds t.1.0 t.1.1 quiet (omega arith))
      ]
