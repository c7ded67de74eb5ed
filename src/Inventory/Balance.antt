-- ===== src/Inventory/Balance.antt =====
-- The balance that a movement leaves.
use billing_platform.Base.{
  not, ◌&&◌, ◌≡◌, sym, ◌∙◌, Bool, false, Option, none, some, ok, Uuid, arith, Result-cases,
  Bool-cases, inl, inr,
}
use billing_platform.Decimal.{Decimal, IsGroup, is_negative}
use billing_platform.Inventory.Types.{
  StockBalance, Direction, direction_in, direction_out, RecordMovementParams, StockPolicy,
}
use billing_platform.Inventory.Stock.{Stock, get_balance}
use billing_platform.Inventory.Movement.{allow_negative, new_cost, new_quantity, new_balance}
use billing_platform.Inventory.Ledger.{on_hand}

module _ {D : Type 0} ⦃d : Decimal D⦄ where
  abbrev pub allows : Option (StockPolicy D) → Bool
  allows none = false
  allows (some policy) = policy.allow_negative_stock

  -- What the movement adds, by its direction.
  abbrev pub signed_by : Direction → D → D
  signed_by direction_in base_qty = base_qty
  signed_by direction_out base_qty = d.neg base_qty

  new_quantity_ok :
      (group : IsGroup D) (p : RecordMovementParams D) (direction : Direction) (factor base_qty : D)
      (before : StockBalance D) (allowed : Bool) {quantity cost : D}
      → new_quantity p direction factor base_qty before allowed ≡ ok (quantity, cost)
      → (quantity ≡ d.add before.quantity_on_hand (signed_by direction base_qty))
        × (direction ≡ direction_out → allowed ≡ false → is_negative quantity ≡ false)
  unfolding new_quantity
  new_quantity_ok group p direction_in factor base_qty before allowed {quantity} {cost} h =
      elim (Result-cases (new_cost p factor base_qty before)) [
        | inr (x, e) ↦ absurd (cc (rw (new_quantity, e) at h))
        | inl (c, e) ↦ let h1 = rw (new_quantity, e) at h in (cc, λ o f. cc)
      ]
  new_quantity_ok group p direction_out factor base_qty before allowed {quantity} {cost} h =
      elim (Bool-cases (not allowed && is_negative (d.sub before.quantity_on_hand base_qty))) [
        | inl e ↦ absurd (cc (rw (new_quantity, e) at h))
        | inr e ↦
            let h1 = rw (new_quantity, e) at h in
            let is : d.sub before.quantity_on_hand base_qty ≡ quantity = cc in
            (sym is ∙ group.sub_add_neg _ _, λ o f. rw (sym is) (ground arith))
      ]

  -- The balance that `new_balance` returns.
  pub record BalanceEffect (org : Uuid) (p : RecordMovementParams D) (direction : Direction)
      (base_qty : D) (s : Stock D) (balance : StockBalance D) : Type 0 where
    pub of_organisation : balance.organisation_id ≡ org
    pub of_warehouse : balance.warehouse_id ≡ p.warehouse_id
    pub of_variant : balance.product_variant_id ≡ p.product_variant_id
    pub quantity :
        balance.quantity_on_hand
        ≡ d.add
            (on_hand org p.warehouse_id p.product_variant_id s.balances)
            (signed_by direction base_qty)
    pub floor :
        direction ≡ direction_out
        → allow_negative org p.warehouse_id p.product_variant_id s ≡ false
        → is_negative balance.quantity_on_hand ≡ false
    pub same_reserved :
        balance.quantity_reserved
        ≡ (get_balance org p.warehouse_id p.product_variant_id s.balances).quantity_reserved

  pub new_balance_ok :
      (group : IsGroup D) (org : Uuid) (p : RecordMovementParams D) (direction : Direction)
      (factor base_qty : D) (s : Stock D) {balance : StockBalance D} {s' : Stock D}
      → new_balance org p direction factor base_qty s ≡ ok (balance, s')
      → BalanceEffect org p direction base_qty s balance × (s' ≡ s)
  unfolding new_balance
  new_balance_ok group org p direction factor base_qty s {balance} {s'} h =
      let before = get_balance org p.warehouse_id p.product_variant_id s.balances in
      let allowed = allow_negative org p.warehouse_id p.product_variant_id s in
      elim (Result-cases (new_quantity p direction factor base_qty before allowed)) [
        | inr (x, e) ↦ absurd (cc (rw (new_balance, e) at h))
        | inl ((quantity, cost), e) ↦
            let h1 = rw (new_balance, e) at h in
            let (is, floor) = new_quantity_ok group p direction factor base_qty before allowed e in
            let held : balance.quantity_on_hand ≡ quantity = ground arith in
            (
              record {
                of_organisation = ground arith;
                of_warehouse = ground arith;
                of_variant = ground arith;
                quantity = held ∙ is;
                floor = λ o f. rw held (floor o f);
                same_reserved = ground arith;
              },
              ground arith,
            )
      ]
