-- ===== src/Inventory/Reach.antt =====
-- The tables that the operations of internal/modules/inventory/app/service.go can reach.
use billing_platform.Base.{◌≡◌, ap, ◌∙◌, sym, List, ok, Uuid, All}
use billing_platform.Base.Int.{pos}
use billing_platform.Decimal.{Decimal, IsGroup}
use billing_platform.Transaction.{Env, Principal, bind_ok, lift_ok, state_of}
use billing_platform.Inventory.Types.{
  StockMovement, StockReservation, StockTransfer, StockAdjustment, StockPolicy,
  RecordMovementParams, RecordAdjustmentParams, RecordTransferParams, ReserveParams,
}
use billing_platform.Inventory.Stock.{Stock, Catalogue}
use billing_platform.Inventory.Operations.{
  record_movement_for_other_module, record_opening_stock, record_adjustment, record_transfer,
  reserve, release_reservation, set_stock_policy,
}
use billing_platform.Inventory.Ledger.{IsProjection, on_hand, ledger}
use billing_platform.Inventory.Trail.{Trail-IsProjection}
use billing_platform.Inventory.Steps.{
  record_movement-Trail, record_opening_stock-Trail, record_adjustment-Trail, record_transfer-Trail,
  reserve-Trail, release_reservation-Trail,
}

module _ {D : Type 0} ⦃d : Decimal D⦄ where
  -- One operation that succeeds, on whatever it is asked. The catalogue may have changed before it.
  pub data Step (env : Env) (s s' : Stock D) : Type 0 where
    movement :
        (catalogue : Catalogue D) (org actor : Uuid) (p : RecordMovementParams D)
        {mv : StockMovement D}
        → record_movement_for_other_module env catalogue org actor p s ≡ ok (mv, s')
        → Step env s s'
    opening_stock :
        (catalogue : Catalogue D) (principal : Principal) (p : RecordMovementParams D)
        {mv : StockMovement D}
        → record_opening_stock env catalogue principal p s ≡ ok (mv, s')
        → Step env s s'
    adjustment :
        (catalogue : Catalogue D) (principal : Principal) (p : RecordAdjustmentParams D)
        {r : StockAdjustment × List (StockMovement D)}
        → record_adjustment env catalogue principal p s ≡ ok (r, s')
        → Step env s s'
    transfer :
        (catalogue : Catalogue D) (principal : Principal) (p : RecordTransferParams D)
        {t : StockTransfer}
        → record_transfer env catalogue principal p s ≡ ok (t, s')
        → Step env s s'
    reservation :
        (principal : Principal) (p : ReserveParams D) {r : StockReservation D}
        → reserve env principal p s ≡ ok (r, s')
        → Step env s s'
    released :
        (principal : Principal) (id warehouse variant : Uuid) {u : Unit {0}}
        → release_reservation env principal id warehouse variant s ≡ ok (u, s')
        → Step env s s'
    policy :
        (principal : Principal) (p : StockPolicy D) {u : Unit {0}}
        → set_stock_policy env principal p s ≡ ok (u, s')
        → Step env s s'

  -- A number of at most six places, which a column numeric(20,6) holds as it is.
  abbrev pub FitsColumn : D → Type 0
  FitsColumn x = d.round x (pos 6) ≡ x

  -- The quantities of the tables are numbers that their columns hold as they are.
  pub record IsExact (s : Stock D) : Type 0 where
    pub movements : All (λ m. FitsColumn m.quantity × FitsColumn m.base_quantity) s.movements
    pub balances :
        All (λ b. FitsColumn b.quantity_on_hand × FitsColumn b.quantity_reserved) s.balances
    pub reservations : All (λ r. FitsColumn r.quantity) s.reservations

  -- Any number of operations, each at its own time, that write only quantities which the columns
  -- hold as they are.
  pub data Reach (s : Stock D) : Stock D → Type 0 where
    start : Reach s s
    next : {t u : Stock D} (env : Env) → Reach s t → Step env t u → IsExact u → Reach s u

  set_stock_policy-IsProjection :
      (env : Env) (principal : Principal) (p : StockPolicy D) (s : Stock D) {u : Unit {0}}
      {s' : Stock D}
      → set_stock_policy env principal p s ≡ ok (u, s')
      → IsProjection s
      → IsProjection s'
  unfolding set_stock_policy
  set_stock_policy-IsProjection env principal p s {u} {s'} h v org warehouse variant =
      let (u1, s1, e1, h1) = bind_ok _ _ s h in
      let (granted, same) = lift_ok (env.require principal "inventory.manage") s e1 in
      let balances : s'.balances ≡ s1.balances = sym (ap (λ r. (state_of s r).balances) h1) in
      let movements : s'.movements ≡ s1.movements = sym (ap (λ r. (state_of s r).movements) h1) in
      ap (on_hand org warehouse variant) (balances ∙ ap (λ (t : Stock D). t.balances) same)
      ∙ v org warehouse variant
      ∙ ap (ledger org warehouse variant) (sym (movements ∙ ap (λ (t : Stock D). t.movements) same))

  module _ (group : IsGroup D) where
    Step-IsProjection :
        {env : Env} {s s' : Stock D} → IsProjection s → Step env s s' → IsProjection s'
    unfolding record_movement_for_other_module
    Step-IsProjection {env} {s} v (movement catalogue org actor p e) =
        Trail-IsProjection group v (record_movement-Trail group env catalogue org actor p s e)
    Step-IsProjection {env} {s} v (opening_stock catalogue principal p e) =
        Trail-IsProjection group v (record_opening_stock-Trail group env catalogue principal p s e)
    Step-IsProjection {env} {s} v (adjustment catalogue principal p e) =
        Trail-IsProjection group v (record_adjustment-Trail group env catalogue principal p s e)
    Step-IsProjection {env} {s} v (transfer catalogue principal p e) =
        Trail-IsProjection group v (record_transfer-Trail group env catalogue principal p s e)
    Step-IsProjection {env} {s} v (reservation principal p e) =
        Trail-IsProjection group v (reserve-Trail group env principal p s e)
    Step-IsProjection {env} {s} v (released principal id warehouse variant e) =
        Trail-IsProjection group v
          (release_reservation-Trail group env principal id warehouse variant s e)
    Step-IsProjection {env} {s} v (policy principal p e) =
        set_stock_policy-IsProjection env principal p s e v

    -- From tables where every balance on hand is the signed sum of the movements of its
    -- organisation, warehouse and variant, no sequence of successful operations, at whatever times and
    -- on whatever requests, that leave quantities of at most six places after each of them (so that
    -- the columns round none) reaches tables where one is not.
    pub Reach-IsProjection : {s s' : Stock D} → IsProjection s → Reach s s' → IsProjection s'
    Reach-IsProjection v start = v
    Reach-IsProjection v (next env r e exact) = Step-IsProjection (Reach-IsProjection v r) e
