-- ===== src/Accounting/Posting/Invariant.antt =====
-- What a posted journal does to the balance of the books.
use mathlib.Core.Path.{ap₂}
use billing_platform.Base.{
  ◌≡◌, sym, ap, ◌∙◌, true, List, [], ◌∷◌, ◌++◌, All, All-append, Pairs, Uuid,
}
use billing_platform.Decimal.{Decimal, IsGroup}
use billing_platform.Decimal.Group.{nought_add}
use billing_platform.Money.{MinorUnits}
use billing_platform.Accounting.Types.{
  Account, Journal, JournalLine, JournalLineRequest, JournalRequest,
}
use billing_platform.Transaction.{Principal, Env}
use billing_platform.Accounting.Books.{Books, line_check}
use billing_platform.Accounting.Posting.Lines.{debit_sum, credit_sum, IsStored}
use billing_platform.Accounting.Posting.Effect.{IsPosted}

module _ {D : Type 0} ⦃d : Decimal D⦄ where
  -- The debits of the books have the sum of the credits, and every line passed the table's checks.
  pub record IsBalanced (b : Books D) : Type 0 where
    pub sums_equal : debit_sum b.lines ≡ credit_sum b.lines
    pub all_checked : All (λ l. line_check l ≡ true) b.lines

  All-stored :
      (org journal_id : Uuid) (accounts : List Account) (ls : List (JournalLineRequest D))
      (lines : List (JournalLine D))
      → Pairs (IsStored org journal_id accounts) ls lines
      → All (λ l. line_check l ≡ true) lines
  All-stored org journal_id accounts [] [] h = tt
  All-stored org journal_id accounts (l ∷ ls) (x ∷ lines) h =
      (h.0.checked, All-stored org journal_id accounts ls lines h.1)
  All-stored org journal_id accounts [] (x ∷ lines) h = absurd h
  All-stored org journal_id accounts (l ∷ ls) [] h = absurd h

  module _ (group : IsGroup D) where
    debit_sum-append :
        (xs ys : List (JournalLine D)) → debit_sum (xs ++ ys) ≡ d.add (debit_sum xs) (debit_sum ys)
    debit_sum-append [] ys = sym (nought_add group (debit_sum ys))
    debit_sum-append (x ∷ xs) ys =
        ap (d.add x.debit.amount) (debit_sum-append xs ys)
        ∙ sym (group.add_assoc x.debit.amount (debit_sum xs) (debit_sum ys))

    credit_sum-append :
        (xs ys : List (JournalLine D))
        → credit_sum (xs ++ ys) ≡ d.add (credit_sum xs) (credit_sum ys)
    credit_sum-append [] ys = sym (nought_add group (credit_sum ys))
    credit_sum-append (x ∷ xs) ys =
        ap (d.add x.credit.amount) (credit_sum-append xs ys)
        ∙ sym (group.add_assoc x.credit.amount (credit_sum xs) (credit_sum ys))

    pub IsPosted-IsBalanced :
        (units : MinorUnits) (env : Env) (principal : Principal) (req : JournalRequest D)
        (b b' : Books D) (j : Journal)
        → IsPosted units env principal req b b' j
        → IsBalanced b
        → IsBalanced b'
    IsPosted-IsBalanced units env principal req b b' j p v = record {
      sums_equal =
          ap debit_sum p.appended
          ∙ debit_sum-append b.lines p.added
          ∙ ap₂ d.add v.sums_equal p.balanced
          ∙ sym (credit_sum-append b.lines p.added)
          ∙ sym (ap credit_sum p.appended);
      all_checked = rw p.appended (
          All-append _ b.lines p.added v.all_checked
            (All-stored req.organisation_id j.id b.accounts req.lines p.added p.stored));
    }
