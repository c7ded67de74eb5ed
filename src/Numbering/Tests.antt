-- ===== src/Numbering/Tests.antt =====
-- Two invoices and a credit note of one branch, and the theorems at them.
use billing_platform.Base.{ℕ, ◌≡◌, refl, List, [], ◌∷◌, ok}
use billing_platform.Transaction.{state_of}
use billing_platform.Numbering.{
  Bytes, same_bytes, digits_before, digits, padded, Date, financial_year_for, Counter, Key, has_key,
  next_in, next,
}
use billing_platform.Numbering.Digits.{document_number-injective}
use billing_platform.Numbering.Series.{stop, own, counting, upcoming, Run-counting}

-- "INV" and "2026-27"
abbrev inv : Bytes
inv = 73 ∷ 78 ∷ 86 ∷ []

abbrev year : Bytes
year = 50 ∷ 48 ∷ 50 ∷ 54 ∷ 45 ∷ 50 ∷ 55 ∷ []

abbrev june : Date
june = record { year = 2026; month = 6 }

abbrev february : Date
february = record { year = 2027; month = 2 }

year_of_june : financial_year_for june ≡ year
unfolding financial_year_for padded digits digits_before
year_of_june = refl

year_of_february : financial_year_for february ≡ year
unfolding financial_year_for padded digits digits_before
year_of_february = refl

abbrev invoices : Key
invoices = record { organisation_id = 7; branch_id = 1; document_type = inv; financial_year = year }

abbrev one : List Counter
one = state_of [] (next invoices inv [])

abbrev two : List Counter
two = state_of [] (next invoices inv one)

first_number : next invoices inv [] ≡ ok (1, one)
unfolding next next_in
first_number = refl

second_number : next invoices inv one ≡ ok (2, two)
unfolding next next_in has_key same_bytes
second_number = refl

Run-counting_example : 1 ∷ 2 ∷ [] ≡ counting (upcoming invoices []) 2
Run-counting_example = Run-counting invoices (own inv first_number (own inv second_number stop))

document_number-injective_example : Path ℕ 133 133
document_number-injective_example = document_number-injective inv year 133 133 refl
