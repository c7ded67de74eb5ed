-- ===== src/Decimal/Group.antt =====
-- Sums and differences of decimals, from the laws of an abelian group.
use billing_platform.Base.{◌≡◌, sym, ap, ◌∙◌}
use billing_platform.Decimal.Interface.{Decimal, IsGroup}

module _ {D : Type 0} ⦃d : Decimal D⦄ (laws : IsGroup D) where
  open d use {nought, add, sub, neg}
  open laws use {add_assoc, add_comm, add_nought, add_neg, sub_add_neg}

  pub nought_add : (a : D) → add nought a ≡ a
  nought_add a = add_comm nought a ∙ add_nought a

  pub neg_add : (a : D) → add (neg a) a ≡ nought
  neg_add a = add_comm (neg a) a ∙ add_neg a

  pub sub_add : (a b : D) → add (sub a b) b ≡ a
  sub_add a b = rw (sub_add_neg, add_assoc, neg_add) (add_nought a)

  pub add_sub : (a b : D) → sub (add a b) b ≡ a
  add_sub a b = rw (sub_add_neg, add_assoc, add_neg) (add_nought a)

  pub sub_self : (a : D) → sub a a ≡ nought
  sub_self a = rw sub_add_neg (add_neg a)

  pub sub_nought : (a : D) → sub a nought ≡ a
  sub_nought a = sym (add_nought (sub a nought)) ∙ sub_add a nought

  pub add_left_comm : (a b c : D) → add a (add b c) ≡ add b (add a c)
  add_left_comm a b c = sym (add_assoc a b c) ∙ ap (λ t. add t c) (add_comm a b) ∙ add_assoc b a c

  pub add_right_comm : (a b c : D) → add (add a b) c ≡ add (add a c) b
  add_right_comm a b c = add_assoc a b c ∙ ap (add a) (add_comm b c) ∙ sym (add_assoc a c b)

  pub add_add_comm : (a b c e : D) → add (add a b) (add c e) ≡ add (add a c) (add b e)
  add_add_comm a b c e =
      add_assoc a b (add c e) ∙ ap (add a) (add_left_comm b c e) ∙ sym (add_assoc a c (add b e))

  pub add_cancel_right : (a b c : D) → add a c ≡ add b c → a ≡ b
  add_cancel_right a b c h = sym (add_sub a c) ∙ ap (λ t. sub t c) h ∙ add_sub b c

  pub neg_neg : (a : D) → neg (neg a) ≡ a
  neg_neg a = add_cancel_right (neg (neg a)) a (neg a) (neg_add (neg a) ∙ sym (add_neg a))

  -- a - (b + c) is (a - b) - c, and both parts put back give a.
  pub sub_sub : (a b c : D) → sub a (add b c) ≡ sub (sub a b) c
  sub_sub a b c = add_cancel_right _ _ (add b c) (
      sub_add a (add b c)
      ∙ sym (
          ap (add (sub (sub a b) c)) (add_comm b c)
          ∙ sym (add_assoc (sub (sub a b) c) c b)
          ∙ ap (λ t. add t b) (sub_add (sub a b) c)
          ∙ sub_add a b))

  pub sub_add_comm : (a b c : D) → sub (add a c) b ≡ add (sub a b) c
  sub_add_comm a b c =
      sub_add_neg (add a c) b
      ∙ add_right_comm a c (neg b)
      ∙ ap (λ t. add t c) (sym (sub_add_neg a b))
