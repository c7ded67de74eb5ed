-- ===== src/Numbering.antt =====
-- internal/platform/numbering: document numbers, from numbering.go and pg.go.
pub mod Digits
pub mod Series
mod Tests
use billing_platform.Base.{
  ℕ, zero, suc, ◌+◌, ◌-◌, ◌*◌, ◌/◌, ◌%◌, ◌^◌, ◌&&◌, Bool, true, false, List, [], ◌∷◌, ◌++◌,
  if◌then◌else◌, Result, ok, err, external, Uuid, ◌==◌, ltb, length,
}
use billing_platform.Transaction.{Action, ◌>>=◌}

-- A text that is formatted, as its bytes.
abbrev pub Bytes : Type 0
Bytes = List ℕ

unfoldable pub same_bytes : Bytes → Bytes → Bool
same_bytes [] [] = true
same_bytes (x ∷ xs) (y ∷ ys) = let rest = same_bytes xs ys in if x == y then rest else false
same_bytes [] (y ∷ ys) = false
same_bytes (x ∷ xs) [] = false

-- `%d`: the digits of a number, the highest first, over fuel that the number itself bounds.
unfoldable pub digits_before : ℕ → ℕ → Bytes → Bytes
digits_before zero n after = (48 + n % 10) ∷ after
digits_before (suc fuel) n after =
    let rest = digits_before fuel (n / 10) ((48 + n % 10) ∷ after) in
    if ltb n 10 then (48 + n) ∷ after else rest

unfoldable pub digits : ℕ → Bytes
unfolding digits_before
digits n = digits_before n n []

abbrev pub zeros : ℕ → Bytes → Bytes
zeros zero text = text
zeros (suc n) text = 48 ∷ zeros n text

-- `%0wd`
unfoldable pub padded : ℕ → ℕ → Bytes
unfolding digits
padded width n = zeros (width - length (digits n)) (digits n)

-- The civil year and month of a time, which `time.Time` gives.
pub record Date : Type 0 where
  pub year : ℕ
  pub month : ℕ

unfoldable pub financial_year_for : Date → Bytes
unfolding padded
financial_year_for as_of =
    if ltb as_of.month 4
    then digits (as_of.year - 1) ++ (45 ∷ padded 2 (as_of.year % 100))
    else digits as_of.year ++ (45 ∷ padded 2 ((as_of.year + 1) % 100))

pub record Counter : Type 0 where
  pub organisation_id : Uuid
  pub branch_id : Uuid
  pub document_type : Bytes
  pub financial_year : Bytes
  pub prefix : Bytes
  pub next_number : ℕ

-- The primary key.
pub record Key : Type 0 where
  pub organisation_id : Uuid
  pub branch_id : Uuid
  pub document_type : Bytes
  pub financial_year : Bytes

unfoldable pub has_key : Key → Counter → Bool
unfolding same_bytes
has_key k c =
    (c.organisation_id == k.organisation_id)
    && (c.branch_id == k.branch_id)
    && same_bytes c.document_type k.document_type
    && same_bytes c.financial_year k.financial_year

-- A column of type bigint.
abbrev pub max_bigint : ℕ
max_bigint = 2 ^ 63 - 1

-- The rows after the statement of `Next`, and the number it returns.
unfoldable pub next_in : Key → Bytes → List Counter → Result (ℕ × List Counter)
next_in k prefix [] = ok (
  1,
  record {
    organisation_id = k.organisation_id;
    branch_id = k.branch_id;
    document_type = k.document_type;
    financial_year = k.financial_year;
    prefix = prefix;
    next_number = 2;
  }
      ∷ [],
)
next_in k prefix (c ∷ counters) =
    let rest = next_in k prefix counters in
    elim (has_key k c) [
      | true ↦
          if ltb c.next_number max_bigint
          then ok (c.next_number, record c { next_number = c.next_number + 1 } ∷ counters)
          else err (external "bigint out of range")
      | false ↦ elim rest [ err e ↦ err e | ok (n, others) ↦ ok (n, c ∷ others) ]
    ]

unfoldable pub next : Key → Bytes → Action (List Counter) ℕ
unfolding next_in
next k prefix counters = next_in k prefix counters

-- `prefix/financial year/number`
unfoldable pub document_number : Bytes → Bytes → ℕ → Bytes
unfolding padded
document_number prefix financial_year seq = prefix ++ (47 ∷ (financial_year ++ (47 ∷ padded 6 seq)))

unfoldable pub next_document_number :
    Uuid → Uuid → Bytes → Bytes → Date → Action (List Counter) Bytes
unfolding next document_number financial_year_for
next_document_number org branch document_type prefix as_of counters =
    let year = financial_year_for as_of in
    let k : Key = record {
      organisation_id = org;
      branch_id = branch;
      document_type = document_type;
      financial_year = year;
    } in
    elim (next k prefix counters) [
      | err e ↦ err e
      | ok (seq, counters') ↦ ok (document_number prefix year seq, counters')
    ]
