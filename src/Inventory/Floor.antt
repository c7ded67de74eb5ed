-- ===== src/Inventory/Floor.antt =====
-- Stock on hand against the policies that forbid negative stock.
use billing_platform.Base.{
  ◌≡◌, refl, sym, ap, ◌∙◌, ◌⊎◌, inl, inr, true, false, Uuid, arith, Bool-cases, ok,
}
use billing_platform.Decimal.{Decimal, IsGroup, IsOrder, is_positive, is_negative}
use billing_platform.Decimal.Group.{nought_add}
use billing_platform.Transaction.{Env, Principal, bind_ok, lift_ok, state_of}
use billing_platform.Inventory.Types.{
  StockMovement, StockPolicy, Direction, direction_in, direction_out, RecordMovementParams,
}
use billing_platform.Inventory.Stock.{Stock, is_key, find_policy}
use billing_platform.Inventory.Movement.{allow_negative}
use billing_platform.Inventory.Operations.{record_movement_for_other_module, set_stock_policy}
use billing_platform.Inventory.Ledger.{on_hand, on_hand-upsert}
use billing_platform.Inventory.Balance.{allows}
use billing_platform.Inventory.Effect.{IsMoved}
use billing_platform.Inventory.Trail.{
  Trail, start, aside, moved, held, reserved, IsReserved-on_hand,
}
use billing_platform.Inventory.Steps.{
  record_movement-Trail, record_opening_stock-Trail, record_adjustment-Trail, record_transfer-Trail,
  reserve-Trail, release_reservation-Trail,
}
use billing_platform.Inventory.Reach.{
  Step, movement, opening_stock, adjustment, transfer, reservation, released, policy,
}

Direction-cases : (x : Direction) → (x ≡ direction_in) ⊎ (x ≡ direction_out)
Direction-cases direction_in = inl refl
Direction-cases direction_out = inr refl

module _ {D : Type 0} ⦃d : Decimal D⦄ where
  -- Where no policy allows it, stock on hand is not negative.
  abbrev pub IsFloored : Stock D → Type 0
  IsFloored s =
      (org warehouse variant : Uuid)
      → allow_negative org warehouse variant s ≡ false
      → is_negative (on_hand org warehouse variant s.balances) ≡ false

  allow_negative-same :
      (s s' : Stock D) (o w v : Uuid)
      → s'.policies ≡ s.policies
      → allow_negative o w v s' ≡ allow_negative o w v s
  unfolding allow_negative
  allow_negative-same s s' o w v e = ap (λ policies. allows (find_policy o w v policies)) e

  module _ (group : IsGroup D) (order : IsOrder D) where
    add_positive :
        (a b : D) → is_negative a ≡ false → is_positive b ≡ true → is_negative (d.add a b) ≡ false
    add_positive a b h k = elim (Bool-cases (is_negative (d.add a b))) [
      | inr e ↦ e
      | inl e ↦
          let grown = order.add_lt_add d.nought b a k in
          let above : d.less_than a (d.add a b) ≡ true =
            rw (nought_add group a, group.add_comm b a) at grown in
          absurd (cc (order.lt_trans a (d.add a b) d.nought above e))
    ]

    IsMoved-IsFloored :
        (org : Uuid) (p : RecordMovementParams D) (s s' : Stock D) (mv : StockMovement D)
        → IsMoved org p s s' mv
        → IsFloored s
        → IsFloored s'
    IsMoved-IsFloored org p s s' mv m h o w v forbidden =
        let before : allow_negative o w v s ≡ false =
          sym (allow_negative-same s s' o w v m.same_policies) ∙ forbidden in
        elim (Bool-cases (is_key o w v m.balance)) [
          | inr e ↦ rw (m.upserted, on_hand-upsert o w v m.balance s.balances, e) (h o w v before)
          | inl e ↦
              let (o_is, w_is, v_is) : (o ≡ org)
                  × (w ≡ p.warehouse_id)
                  × (v ≡ p.product_variant_id) =
                ground (arith, e, m.of_organisation, m.of_warehouse, m.of_variant) in
              let own : allow_negative org p.warehouse_id p.product_variant_id s ≡ false =
                rw (o_is, w_is, v_is) at before in
              rw (m.upserted, on_hand-upsert o w v m.balance s.balances, e)
                (elim (Direction-cases m.direction) [
                  | inr out ↦ m.floor out own
                  | inl into ↦
                      rw (m.quantity, into)
                        (add_positive _ mv.base_quantity (h _ _ _ own) m.positive)
                ])
        ]

    Trail-IsFloored : {s s' : Stock D} → IsFloored s → Trail s s' → IsFloored s'
    Trail-IsFloored h start = h
    Trail-IsFloored h (aside {t} {u} q a) = λ o w v f.
        rw a.same_balances
          (Trail-IsFloored h q o w v (sym (allow_negative-same t u o w v a.same_policies) ∙ f))
    Trail-IsFloored h (held {t} {u} q a) = λ o w v f.
        rw a.same_balances
          (Trail-IsFloored h q o w v (sym (allow_negative-same t u o w v a.same_policies) ∙ f))
    Trail-IsFloored h (moved {t} {u} {org} {p} {mv} q m) =
        IsMoved-IsFloored org p t u mv m (Trail-IsFloored h q)
    Trail-IsFloored h (reserved {t} {u} q r) = λ o w v f.
        rw (IsReserved-on_hand t u r o w v)
          (Trail-IsFloored h q o w v (sym (allow_negative-same t u o w v r.same_policies) ∙ f))

    set_stock_policy-IsFloored :
        (env : Env) (principal : Principal) (p : StockPolicy D) (s s' : Stock D) {u : Unit {0}}
        → set_stock_policy env principal p s ≡ ok (u, s')
        → s'.policies ≡ s.policies
        → IsFloored s
        → IsFloored s'
    unfolding set_stock_policy
    set_stock_policy-IsFloored env principal p s s' {u} h e v o w x f =
        let (u1, s1, e1, h1) = bind_ok _ _ s h in
        let (granted, same) = lift_ok (env.require principal "inventory.manage") s e1 in
        let balances : s'.balances ≡ s.balances =
          sym (ap (λ r. (state_of s r).balances) h1) ∙ ap (λ (t : Stock D). t.balances) same in
        rw balances (v o w x (sym (allow_negative-same s s' o w x e) ∙ f))

    -- If no stock on hand is negative where the policies do not allow it, none is after any successful
    -- operation that leaves the policies as they are.
    pub Step-IsFloored :
        {env : Env} {s s' : Stock D}
        → IsFloored s
        → s'.policies ≡ s.policies
        → Step env s s'
        → IsFloored s'
    unfolding record_movement_for_other_module
    Step-IsFloored {env} {s} v e (movement catalogue org actor p h) =
        Trail-IsFloored v (record_movement-Trail group env catalogue org actor p s h)
    Step-IsFloored {env} {s} v e (opening_stock catalogue principal p h) =
        Trail-IsFloored v (record_opening_stock-Trail group env catalogue principal p s h)
    Step-IsFloored {env} {s} v e (adjustment catalogue principal p h) =
        Trail-IsFloored v (record_adjustment-Trail group env catalogue principal p s h)
    Step-IsFloored {env} {s} v e (transfer catalogue principal p h) =
        Trail-IsFloored v (record_transfer-Trail group env catalogue principal p s h)
    Step-IsFloored {env} {s} v e (reservation principal p h) =
        Trail-IsFloored v (reserve-Trail group env principal p s h)
    Step-IsFloored {env} {s} v e (released principal id warehouse variant h) =
        Trail-IsFloored v (release_reservation-Trail group env principal id warehouse variant s h)
    Step-IsFloored {env} {s} {s'} v e (policy principal p h) =
        set_stock_policy-IsFloored env principal p s s' h e v
