-- ===== src/Numbering/Series.antt =====
-- The numbers of one series, among the calls for others.
use billing_platform.Base.{
  ℕ, zero, suc, ◌+◌, ◌≡◌, refl, sym, ap, ◌∙◌, true, false, List, [], ◌∷◌, if◌then◌else◌, Result, ok,
  err, ltb, length, arith, Bool-cases, Result-cases, inl, inr,
}
use mathlib.Core.Path.{ap₂}
use billing_platform.Transaction.{state_of}
use billing_platform.Numbering.{Bytes, same_bytes, Counter, Key, has_key, max_bigint, next_in, next}

-- The number that the next call for a key returns.
abbrev pub upcoming : Key → List Counter → ℕ
upcoming k [] = 1
upcoming k (c ∷ counters) = if has_key k c then c.next_number else upcoming k counters

abbrev pub counting : ℕ → ℕ → List ℕ
counting start zero = []
counting start (suc n) = start ∷ counting (suc start) n

-- No row has both keys.
abbrev pub IsApart : Key → Key → Type 0
IsApart j k = (c : Counter) → has_key j c ≡ true → has_key k c ≡ false

-- The numbers that calls for a key return, in turn with calls for other keys.
pub data Run (k : Key) : List Counter → List ℕ → List Counter → Type 0 where
  stop : {counters : List Counter} → Run k counters [] counters
  own :
      {n : ℕ} {ns : List ℕ} {counters between after : List Counter} (prefix : Bytes)
      → next k prefix counters ≡ ok (n, between)
      → Run k between ns after
      → Run k counters (n ∷ ns) after
  other :
      {n : ℕ} {ns : List ℕ} {counters between after : List Counter} (j : Key) (prefix : Bytes)
      → IsApart j k
      → next j prefix counters ≡ ok (n, between)
      → Run k between ns after
      → Run k counters ns after

same_bytes_self : (xs : Bytes) → same_bytes xs xs ≡ true
unfolding same_bytes
same_bytes_self [] = refl
same_bytes_self (x ∷ xs) = let rest = same_bytes_self xs in ground arith

has_key-fresh :
    (k : Key) (prefix : Bytes) (n : ℕ)
    → has_key k (record {
      organisation_id = k.organisation_id;
      branch_id = k.branch_id;
      document_type = k.document_type;
      financial_year = k.financial_year;
      prefix = prefix;
      next_number = n;
    })
      ≡ true
unfolding has_key
has_key-fresh k prefix n =
    let of_type = same_bytes_self k.document_type in
    let of_year = same_bytes_self k.financial_year in ground arith

has_key-next :
    (k : Key) (c : Counter) (n : ℕ) → has_key k (record c { next_number = n }) ≡ has_key k c
unfolding has_key
has_key-next k c n = refl

plus_one : (n : ℕ) → n + 1 ≡ suc n
plus_one n = omega arith

abbrev number_of : ℕ → Result (ℕ × List Counter) → ℕ
number_of n (ok (m, counters)) = m
number_of n (err e) = n

module _ (k : Key) where
  next-own :
      (prefix : Bytes) (counters after : List Counter) (n : ℕ)
      → next_in k prefix counters ≡ ok (n, after)
      → (n ≡ upcoming k counters) × (upcoming k after ≡ suc n)
  unfolding next_in
  next-own prefix [] after n h = (
    sym (ap (number_of n) h),
    sym (ap (λ r. upcoming k (state_of [] r)) h)
        ∙ ap (λ t. if t then 2 else 1) (has_key-fresh k prefix 2)
        ∙ ap suc (ap (number_of n) h),
  )
  next-own prefix (c ∷ counters) after n h = elim (Bool-cases (has_key k c)) [
    | inl e ↦ elim (Bool-cases (ltb c.next_number max_bigint)) [
      | inr big ↦ absurd (cc (rw (next_in, e, big) at h))
      | inl small ↦
          let r = rw (next_in, e, small) at h in
          let same : c.next_number ≡ n = ap (number_of n) r in
          (
            sym same ∙ sym (ap (λ t. if t then c.next_number else upcoming k counters) e),
            sym (ap (λ o. upcoming k (state_of [] o)) r)
                ∙ ap (λ t. if t then c.next_number + 1 else upcoming k counters)
                    (has_key-next k c (c.next_number + 1) ∙ e)
                ∙ plus_one c.next_number
                ∙ ap suc same,
          )
    ]
    | inr e ↦ elim (Result-cases (next_in k prefix counters)) [
      | inr (x, f) ↦ absurd (cc (rw (next_in, e, f) at h))
      | inl ((m, others), f) ↦
          let r = rw (next_in, e, f) at h in
          let same : m ≡ n = ap (number_of n) r in
          let (is_upcoming, then_next) = next-own prefix counters others m f in
          (
            sym same
                ∙ is_upcoming
                ∙ sym (ap (λ t. if t then c.next_number else upcoming k counters) e),
            sym (ap (λ o. upcoming k (state_of [] o)) r)
                ∙ ap (λ t. if t then c.next_number else upcoming k others) e
                ∙ then_next
                ∙ ap suc same,
          )
    ]
  ]

  next-other :
      (j : Key) (prefix : Bytes) (counters after : List Counter) (n : ℕ)
      → IsApart j k
      → next_in j prefix counters ≡ ok (n, after)
      → upcoming k after ≡ upcoming k counters
  unfolding next_in
  next-other j prefix [] after n apart h =
      sym (ap (λ r. upcoming k (state_of [] r)) h)
      ∙ ap (λ t. if t then 2 else 1) (apart _ (has_key-fresh j prefix 2))
  next-other j prefix (c ∷ counters) after n apart h = elim (Bool-cases (has_key j c)) [
    | inl e ↦ elim (Bool-cases (ltb c.next_number max_bigint)) [
      | inr big ↦ absurd (cc (rw (next_in, e, big) at h))
      | inl small ↦
          let r = rw (next_in, e, small) at h in
          sym (ap (λ o. upcoming k (state_of [] o)) r)
          ∙ ap (λ t. if t then c.next_number + 1 else upcoming k counters)
              (has_key-next k c (c.next_number + 1) ∙ apart c e)
          ∙ sym (ap (λ t. if t then c.next_number else upcoming k counters) (apart c e))
    ]
    | inr e ↦ elim (Result-cases (next_in j prefix counters)) [
      | inr (x, f) ↦ absurd (cc (rw (next_in, e, f) at h))
      | inl ((m, others), f) ↦
          let r = rw (next_in, e, f) at h in
          sym (ap (λ o. upcoming k (state_of [] o)) r)
          ∙ ap (λ u. if has_key k c then c.next_number else u)
              (next-other j prefix counters others m apart f)
    ]
  ]

  -- The numbers that calls of Next for one series return follow one another from the one that was
  -- due, with none left out or returned twice, whatever calls for other series (of keys that share
  -- no row) come between them.
  pub Run-counting :
      {counters after : List Counter} {ns : List ℕ}
      → Run k counters ns after
      → ns ≡ counting (upcoming k counters) (length ns)
  unfolding next
  Run-counting stop = refl
  Run-counting (own {n} {ns} {counters} {between} prefix h rest) =
      let (is_upcoming, then_next) = next-own prefix counters between n h in
      ap₂ (λ m ms. m ∷ ms) is_upcoming
        (Run-counting rest ∙ ap (λ m. counting m (length ns)) (then_next ∙ ap suc is_upcoming))
  Run-counting (other {n} {ns} {counters} {between} j prefix apart h rest) =
      Run-counting rest
      ∙ ap (λ m. counting m (length ns)) (next-other j prefix counters between n apart h)
