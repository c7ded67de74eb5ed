-- ===== src/Identity/Lockout.antt =====
-- How long the login limiter locks a key out, and that keys do not share their failures.
use billing_platform.Base.{
  ℕ, zero, suc, ◌+◌, ◌-◌, ◌*◌, ◌^◌, ◌≤◌, ◌<◌, ◌≡◌, refl, ap, Bool, true, false, Option, some,
  String, str_eq, if◌then◌else◌, arith, Bool-cases, inl, inr, Time, ltb, ◌==◌, lookup, ◌∷◌, [],
  lookup-insert, eq_iff,
}
use billing_platform.Base.Int.{ℤ, pos, negsuc}
use billing_platform.Identity.Limiter.{
  AttemptState, LoginLimiter, second, backoff_for, to_int64, add_duration, allow, state_of,
  after_failure, record_failure, record_success,
}

-- The back-off that is meant: doubling from one second, fifteen minutes at most.
abbrev pub seconds_locked : ℕ → ℕ
seconds_locked shift = if ltb 900 (2 ^ shift) then 900 else 2 ^ shift

abbrev is_doubling : ℕ → Bool
is_doubling shift = elim (backoff_for shift) [
  | pos d ↦ d == seconds_locked shift * second
  | negsuc d ↦ false
]

abbrev all_below : ℕ → (ℕ → Bool) → Bool
all_below zero p = true
all_below (suc n) p = if p n then all_below n p else false

all_below-at : (n : ℕ) (p : ℕ → Bool) (k : ℕ) → all_below n p ≡ true → k < n → p k ≡ true
all_below-at zero p k h l = absurd (omega arith)
all_below-at (suc n) p k h l = elim (Bool-cases (p n)) [
  | inr e ↦ absurd (cc (rw e at h))
  | inl e ↦ elim (Bool-cases (k == n)) [
    | inl same ↦ let is : k ≡ n = ground arith in rw is e
    | inr other ↦ all_below-at n p k (rw e at h) (ground arith)
  ]
]

doubling_below : all_below 34 is_doubling ≡ true
unfolding backoff_for to_int64
doubling_below = refl

pos_eq : (v : ℤ) (n : ℕ) → (elim v [ pos d ↦ d == n | negsuc d ↦ false ]) ≡ true → v ≡ pos n
pos_eq (pos d) n h = ap pos (ground arith)
pos_eq (negsuc d) n h = cc

backoff_for-doubling :
    (shift : ℕ) → shift < 34 → backoff_for shift ≡ pos (seconds_locked shift * second)
backoff_for-doubling shift l =
    pos_eq (backoff_for shift) (seconds_locked shift * second)
      (all_below-at 34 is_doubling shift doubling_below l)

-- After a key's sixth failure, and each up to its thirty-ninth, attempts for it are allowed exactly
-- after as many seconds as two to the power of its failures beyond six, fifteen minutes at most.
pub record_failure-locked :
    (key : String) (now t : Time) (attempts : LoginLimiter) (st : AttemptState)
    → lookup key attempts ≡ some st
    → 5 ≤ st.failures
    → st.failures < 39
    → allow key t (record_failure key now attempts)
      ≡ ltb (now + seconds_locked (st.failures - 5) * second) t
unfolding allow record_failure state_of after_failure add_duration
record_failure-locked key now t attempts st found low high =
    let whole : str_eq key key ≡ true = (eq_iff key key).1 refl in
    let many : ltb 5 (suc st.failures) ≡ true = ground arith in
    let shift : suc st.failures - 5 - 1 ≡ st.failures - 5 = omega arith in
    let longest = backoff_for-doubling (st.failures - 5) (omega arith) in
    rw
      (
        allow,
        record_failure,
        lookup-insert key key _ attempts,
        whole,
        state_of,
        found,
        after_failure,
        many,
        shift,
        longest,
        add_duration,
      )
      refl

-- A success forgets the key's failures, and nothing of another key.
lookup-record_success :
    (key other : String) (attempts : LoginLimiter)
    → lookup other (record_success key attempts)
      ≡ (if str_eq key other then Option.none else lookup other attempts)
unfolding record_success
lookup-record_success key other [] = ground arith
lookup-record_success key other ((j, st) ∷ attempts) = ground (
  arith,
  eq_iff j key,
  eq_iff j other,
  eq_iff key other,
  lookup-record_success key other attempts,
)

-- A failure or a success of one key leaves the failures and the lock that are kept of every other
-- key as they are, and whether attempts for it are allowed; after a success nothing is kept of the
-- key itself, and attempts for it are allowed at every time.
pub record_success-other :
    (key other : String) (now t : Time) (attempts : LoginLimiter)
    → (lookup key (record_success key attempts) ≡ Option.none)
      × (allow key t (record_success key attempts) ≡ true)
      × (str_eq key other ≡ false
          → (lookup other (record_success key attempts) ≡ lookup other attempts)
            × (lookup other (record_failure key now attempts) ≡ lookup other attempts)
            × (allow other t (record_success key attempts) ≡ allow other t attempts)
            × (allow other t (record_failure key now attempts) ≡ allow other t attempts))
unfolding allow record_failure
record_success-other key other now t attempts =
    let whole : str_eq key key ≡ true = (eq_iff key key).1 refl in
    (
      rw (lookup-record_success key key attempts, whole) refl,
      rw (allow, lookup-record_success key key attempts, whole) refl,
      λ apart. (
        rw (lookup-record_success key other attempts, apart) refl,
        rw (record_failure, lookup-insert key other _ attempts, apart) refl,
        rw (allow, lookup-record_success key other attempts, apart) refl,
        rw (allow, record_failure, lookup-insert key other _ attempts, apart) refl,
      ),
    )
