-- ===== src/Outbox/Backoff.antt =====
-- The delay before another attempt.
use billing_platform.Base.{
  ℕ, zero, suc, ◌-◌, ◌*◌, ◌^◌, ◌≤◌, ◌≡◌, refl, sym, ap, ◌∙◌, if◌then◌else◌, ltb, arith, Bool-cases,
  inl, inr,
}
use billing_platform.Outbox.{minute, hour, backoff_loop, backoff}

-- The doubled delay, no longer than an hour.
abbrev capped : ℕ → ℕ
capped d = if ltb hour d then hour else d

capped_from : (d : ℕ) → hour ≤ d → capped d ≡ hour
capped_from d h = ground arith

doubled : (n d : ℕ) → (d * 2) * 2 ^ n ≡ d * 2 ^ suc n
doubled n d = grind arith

grown : (d p : ℕ) → d ≤ d * suc p
grown d p = grind arith

pow_suc : (n : ℕ) → (p : ℕ) × (2 ^ n ≡ suc p)
pow_suc zero = (0, refl)
pow_suc (suc n) = let (p, e) = pow_suc n in (suc (2 * p), grind arith)

large : (n d : ℕ) → hour ≤ d → hour ≤ d * 2 ^ n
large n d h = let (p, e) = pow_suc n in rw e (let k = grown d p in grind arith)

backoff_loop-capped : (n d : ℕ) → capped (backoff_loop n d) ≡ capped (d * 2 ^ n)
unfolding backoff_loop
backoff_loop-capped zero d = ap capped {x = d} {y = d * 1} (omega arith)
backoff_loop-capped (suc n) d = elim (Bool-cases (ltb d hour)) [
  | inl e ↦ rw (backoff_loop, e) (backoff_loop-capped n (d * 2) ∙ ap capped (doubled n d))
  | inr e ↦
      let h : hour ≤ d = ground arith in
      rw (backoff_loop, e) (capped_from d h ∙ sym (capped_from (d * 2 ^ suc n) (large (suc n) d h)))
]

-- The loop of backoff computes one minute doubled once for each attempt after the first, or one
-- hour if that is more.
pub backoff_closed :
    (attempts : ℕ)
    → backoff attempts
      ≡ (if ltb hour (minute * 2 ^ (attempts - 1)) then hour else minute * 2 ^ (attempts - 1))
unfolding backoff
backoff_closed attempts = backoff_loop-capped (attempts - 1) minute

pub minute-backoff : (attempts : ℕ) → minute ≤ backoff attempts
minute-backoff attempts =
    let (p, e) = pow_suc (attempts - 1) in
    rw (backoff_closed attempts, e) (let k = grown minute p in ground arith)
