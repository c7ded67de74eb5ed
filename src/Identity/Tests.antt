-- ===== src/Identity/Tests.antt =====
-- A key with its failures, and the theorems at it.
use billing_platform.Base.{
  str_eq, ℕ, ◌+◌, ◌*◌, ◌≡◌, refl, none, lookup, true, false, [], ◌∷◌, arith, ltb,
}
use billing_platform.Identity.Limiter.{
  AttemptState, LoginLimiter, second, backoff_for, to_int64, add_duration, allow, state_of,
  after_failure, record_failure, record_success,
}
use billing_platform.Identity.Lockout.{seconds_locked, record_failure-locked, record_success-other}

abbrev failed : ℕ → AttemptState
failed n = record { failures = n; locked_until = 0 }

abbrev after : ℕ → LoginLimiter
after n = ("clerk", failed n) ∷ []

-- Two seconds after the seventh failure.
record_failure-locked_example :
    allow "clerk" 3000000000 (record_failure "clerk" 1000000000 (after 6))
    ≡ ltb (1000000000 + seconds_locked 1 * second) 3000000000
record_failure-locked_example =
    record_failure-locked "clerk" 1000000000 3000000000 (after 6) (failed 6) refl (omega arith)
      (omega arith)

-- The fortieth failure in a row leaves the key open at once.
reopened :
    allow "clerk" 1700000000000000001 (record_failure "clerk" 1700000000000000000 (after 39)) ≡ true
unfolding allow record_failure state_of after_failure add_duration backoff_for to_int64
reopened = refl

record_success-other_example :
    (lookup "clerk" (record_success "clerk" (after 7)) ≡ none)
    × (allow "clerk" 2 (record_success "clerk" (after 7)) ≡ true)
    × (str_eq "clerk" "owner" ≡ false
        → (lookup "owner" (record_success "clerk" (after 7)) ≡ lookup "owner" (after 7))
          × (lookup "owner" (record_failure "clerk" 1 (after 7)) ≡ lookup "owner" (after 7))
          × (allow "owner" 2 (record_success "clerk" (after 7)) ≡ allow "owner" 2 (after 7))
          × (allow "owner" 2 (record_failure "clerk" 1 (after 7)) ≡ allow "owner" 2 (after 7)))
record_success-other_example = record_success-other "clerk" "owner" 1 2 (after 7)
