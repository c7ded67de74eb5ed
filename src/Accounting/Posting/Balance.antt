-- ===== src/Accounting/Posting/Balance.antt =====
-- What `validateBalanced` accepts.
use mathlib.Core.Path.{ap₂}
use billing_platform.Base.{
  ◌≡◌, ◌↔◌, refl, sym, ap, ◌∙◌, true, false, List, [], ◌∷◌, ok, err, arith, All, IsOk, IsOk-value,
  Bool-cases, inl, inr, Result-cases, if◌then◌else◌, one_sided_line,
}
use billing_platform.Decimal.{Decimal, is_positive, IsGroup, IsOrder}
use billing_platform.Decimal.Group.{nought_add}
use billing_platform.Accounting.Types.{JournalLineRequest}
use billing_platform.Accounting.Posting.{same, validate_lines, validate_balanced}

module _ {D : Type 0} ⦃d : Decimal D⦄ where
  abbrev pub debit_total : List (JournalLineRequest D) → D
  debit_total [] = d.nought
  debit_total (l ∷ lines) = d.add l.debit (debit_total lines)

  abbrev pub credit_total : List (JournalLineRequest D) → D
  credit_total [] = d.nought
  credit_total (l ∷ lines) = d.add l.credit (credit_total lines)

  -- One of the two amounts is positive, and not both.
  abbrev pub IsOneSided : JournalLineRequest D → Type 0
  IsOneSided l = same (is_positive l.debit) (is_positive l.credit) ≡ false

  validate_lines-cons :
      (l : JournalLineRequest D) (lines : List (JournalLineRequest D)) (debit credit : D)
      → validate_lines (l ∷ lines) debit credit ≡ (
          if same (is_positive l.debit) (is_positive l.credit)
          then err one_sided_line
          else validate_lines lines (d.add debit l.debit) (d.add credit l.credit))
  unfolding validate_lines
  validate_lines-cons l lines debit credit = refl

  validate_lines-nil : (debit credit : D) → validate_lines [] debit credit ≡ ok (debit, credit)
  unfolding validate_lines
  validate_lines-nil debit credit = refl

  module _ (group : IsGroup D) where
    validate_lines_ok :
        (lines : List (JournalLineRequest D)) (debit credit : D) {t : D × D}
        → validate_lines lines debit credit ≡ ok t
        → All IsOneSided lines
          × (t.0 ≡ d.add debit (debit_total lines))
          × (t.1 ≡ d.add credit (credit_total lines))
    unfolding validate_lines
    validate_lines_ok [] debit credit {t} h =
        let e : t ≡ (debit, credit) = cc in
        rw e (tt, sym (group.add_nought debit), sym (group.add_nought credit))
    validate_lines_ok (l ∷ lines) debit credit h =
        elim (Bool-cases (same (is_positive l.debit) (is_positive l.credit))) [
          | inl both ↦ absurd (cc (rw both at h))
          | inr one ↦
              let (all, t0, t1) =
                validate_lines_ok lines (d.add debit l.debit) (d.add credit l.credit)
                  (rw one at h) in
              (
                (one, all),
                t0 ∙ group.add_assoc debit l.debit (debit_total lines),
                t1 ∙ group.add_assoc credit l.credit (credit_total lines),
              )
        ]

    validate_lines_total :
        (lines : List (JournalLineRequest D)) (debit credit : D)
        → All IsOneSided lines
        → validate_lines lines debit credit
          ≡ ok (d.add debit (debit_total lines), d.add credit (credit_total lines))
    validate_lines_total [] debit credit all =
        validate_lines-nil debit credit
        ∙ ap₂ (λ a b. ok (a, b)) (sym (group.add_nought debit)) (sym (group.add_nought credit))
    validate_lines_total (l ∷ lines) debit credit all =
        validate_lines-cons l lines debit credit
        ∙ rw all.0 (
            validate_lines_total lines (d.add debit l.debit) (d.add credit l.credit) all.1
            ∙ ap₂ (λ a b. ok (a, b)) (group.add_assoc debit l.debit (debit_total lines))
                (group.add_assoc credit l.credit (credit_total lines)))

    module _ (order : IsOrder D) where
      pub validate_balanced_ok :
          (lines : List (JournalLineRequest D)) {t : D × D}
          → validate_balanced lines ≡ ok t
          → All IsOneSided lines × (debit_total lines ≡ credit_total lines)
      unfolding validate_balanced
      validate_balanced_ok lines h = elim (Result-cases (validate_lines lines d.nought d.nought)) [
        | inr (x, e) ↦ absurd (cc (rw (e, validate_balanced) at h))
        | inl (s, e) ↦
            let (all, t0, t1) = validate_lines_ok lines d.nought d.nought e in
            let equal : d.equal s.0 s.1 ≡ true = ground arith in
            (
              all,
              sym (t0 ∙ nought_add group (debit_total lines))
                  ∙ (order.equal_iff s.0 s.1).0 equal
                  ∙ t1
                  ∙ nought_add group (credit_total lines),
            )
      ]

      -- `validateBalanced` accepts exactly the lines of which each has one positive amount, and whose
      -- debits and credits have one sum.
      pub validate_balanced_iff :
          (lines : List (JournalLineRequest D))
          → IsOk (validate_balanced lines)
            ↔ (All IsOneSided lines × (debit_total lines ≡ credit_total lines))
      unfolding validate_balanced
      validate_balanced_iff lines = (
        λ h. validate_balanced_ok lines (IsOk-value (validate_balanced lines) h).1,
        λ h.
            let same_sum = ap (d.add d.nought) h.1 in
            rw (validate_lines_total lines d.nought d.nought h.0, validate_balanced)
              (rw ((order.equal_iff _ _).1 same_sum) tt),
      )
