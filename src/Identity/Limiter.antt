-- ===== src/Identity/Limiter.antt =====
-- The login limiter, internal/modules/identity/app/ratelimit.go. The mutex is not modelled: calls
-- follow one another.
use billing_platform.Base.{
  ℕ, suc, ◌+◌, ◌-◌, ◌*◌, ◌%◌, ◌^◌, Bool, true, none, some, String, str_eq, [], ◌∷◌, if◌then◌else◌,
  Time, ltb, Dict, lookup, insert,
}
use billing_platform.Base.Int.{ℤ, pos, negsuc}

pub record AttemptState : Type 0 where
  pub failures : ℕ
  pub locked_until : Time

abbrev pub LoginLimiter : Type 0
LoginLimiter = Dict AttemptState

abbrev pub free_attempts : ℕ
free_attempts = 5

-- `time.Second`, and fifteen minutes.
abbrev pub second : ℕ
second = 1000000000

abbrev pub max_backoff : ℕ
max_backoff = 900 * second

-- The signed reading of 64 bits.
unfoldable pub to_int64 : ℕ → ℤ
to_int64 bits = if ltb bits (2 ^ 63) then pos bits else negsuc (2 ^ 64 - bits - 1)

-- `time.Duration(1<<uint(shift)) * time.Second`, where both operations wrap, and the cap.
unfoldable pub backoff_for : ℕ → ℤ
unfolding to_int64
backoff_for shift = elim (to_int64 ((2 ^ shift % 2 ^ 64) * second % 2 ^ 64)) [
  | pos d ↦ if ltb max_backoff d then pos max_backoff else pos d
  | negsuc d ↦ negsuc d
]

-- `now.Add`. A time before Go's zero time is not represented, and is that time.
unfoldable pub add_duration : Time → ℤ → Time
add_duration now (pos d) = now + d
add_duration now (negsuc d) = now - suc d

unfoldable pub allow : String → Time → LoginLimiter → Bool
allow key now attempts = elim (lookup key attempts) [
  | none ↦ true
  | some st ↦ ltb st.locked_until now
]

-- The state of a key, made anew if there is none.
unfoldable pub state_of : String → LoginLimiter → AttemptState
state_of key attempts = elim (lookup key attempts) [
  | none ↦ record { failures = 0; locked_until = 0 }
  | some st ↦ st
]

unfoldable pub after_failure : AttemptState → Time → AttemptState
unfolding backoff_for add_duration
after_failure st now =
    let failures = suc st.failures in
    let locked = add_duration now (backoff_for (failures - free_attempts - 1)) in
    if ltb free_attempts failures
    then record { failures = failures; locked_until = locked }
    else record { failures = failures; locked_until = st.locked_until }

unfoldable pub record_failure : String → Time → LoginLimiter → LoginLimiter
unfolding after_failure state_of
record_failure key now attempts = insert key (after_failure (state_of key attempts) now) attempts

unfoldable pub record_success : String → LoginLimiter → LoginLimiter
record_success key [] = []
record_success key ((j, st) ∷ attempts) =
    let rest = record_success key attempts in if str_eq j key then rest else (j, st) ∷ rest
