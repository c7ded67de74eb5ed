-- ===== src/Numbering/Digits.antt =====
-- A printed number is read back.
use billing_platform.Base.{
  ℕ, zero, suc, ◌+◌, ◌-◌, ◌*◌, ◌/◌, ◌%◌, ◌≤◌, ◌≡◌, refl, sym, ap, ◌∙◌, false, [], ◌∷◌, ◌++◌, ltb,
  arith, Bool-cases, inl, inr, length,
}
use billing_platform.Numbering.{Bytes, digits_before, digits, zeros, padded, document_number}

-- The number that digits are of, after a number that was read before them.
abbrev pub read_from : ℕ → Bytes → ℕ
read_from n [] = n
read_from n (c ∷ text) = read_from (n * 10 + (c - 48)) text

abbrev pub read_number : Bytes → ℕ
read_number text = read_from 0 text

low_digit : (n : ℕ) → (n / 10) * 10 + (48 + n % 10 - 48) ≡ n
low_digit n = omega arith

shorter : (fuel n : ℕ) → n ≤ suc fuel → ltb n 10 ≡ false → n / 10 ≤ fuel
shorter fuel n h e = ground arith

read-digits_before :
    (fuel n : ℕ) (after : Bytes)
    → n ≤ fuel
    → read_from 0 (digits_before fuel n after) ≡ read_from n after
unfolding digits_before
read-digits_before zero n after h =
    ap (λ m. read_from m after) {x = 0 * 10 + (48 + n % 10 - 48)} {y = n} (omega arith)
read-digits_before (suc fuel) n after h = elim (Bool-cases (ltb n 10)) [
  | inl e ↦
      rw (digits_before, e)
        (ap (λ m. read_from m after) {x = 0 * 10 + (48 + n - 48)} {y = n} (omega arith))
  | inr e ↦
      rw (digits_before, e)
        (read-digits_before fuel (n / 10) ((48 + n % 10) ∷ after) (shorter fuel n h e)
          ∙ ap (λ m. read_from m after) (low_digit n))
]

read-zeros : (n : ℕ) (text : Bytes) → read_number (zeros n text) ≡ read_number text
read-zeros zero text = refl
read-zeros (suc n) text = read-zeros n text

-- A number that is printed in decimal digits with zeros before it, up to whatever width, is read
-- back as the same number.
pub read-padded : (width n : ℕ) → read_number (padded width n) ≡ n
unfolding padded digits
read-padded width n =
    read-zeros (width - length (digits n)) (digits n) ∙ read-digits_before n n [] (omega arith)

drop-append : (xs ys zs : Bytes) → xs ++ ys ≡ xs ++ zs → ys ≡ zs
drop-append [] ys zs h = h
drop-append (x ∷ xs) ys zs h = drop-append xs ys zs (cc h)

-- Two sequence numbers that one prefix and one financial year turn into the same document number
-- are equal.
pub document_number-injective :
    (prefix year : Bytes) (m n : ℕ)
    → document_number prefix year m ≡ document_number prefix year n
    → m ≡ n
unfolding document_number
document_number-injective prefix year m n h =
    let at_year = drop-append prefix _ _ h in
    let after_slash : year ++ (47 ∷ padded 6 m) ≡ year ++ (47 ∷ padded 6 n) = cc at_year in
    let at_number = drop-append year _ _ after_slash in
    let same : padded 6 m ≡ padded 6 n = cc at_number in
    sym (read-padded 6 m) ∙ ap read_number same ∙ read-padded 6 n
