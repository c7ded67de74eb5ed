-- ===== src/Inventory/Operations.antt =====
-- The public operations of internal/modules/inventory/app/service.go.
use billing_platform.Base.{
  not, Bool, true, false, none, some, List, [], ◌∷◌, if◌then◌else◌, ok, quantity_not_positive,
  insufficient_stock, same_warehouse, not_an_adjustment, no_lines, Uuid, ◌==◌, leb, length,
}
use billing_platform.Decimal.{Decimal, is_positive}
use billing_platform.Transaction.{Action, Env, Principal, ◌>>=◌, ◌>>◌, pure, lift, require_that}
use billing_platform.Inventory.Types.{
  StockMovement, StockReservation, StockPolicy, StockTransfer, StockAdjustment,
  RecordMovementParams, AdjustmentLineParams, RecordAdjustmentParams, RecordTransferParams,
  ReserveParams, MovementType, opening, transfer_out, transfer_in, active, completed, available,
  is_adjustment_movement_type,
}
use billing_platform.Inventory.Stock.{
  Stock, Catalogue, get_balance, draw_id, record_audit, upsert_balance, create_transfer,
  create_adjustment, create_reservation, sum_active, release, upsert_policy,
}
use billing_platform.Inventory.Movement.{record_movement}

module _ {D : Type 0} ⦃d : Decimal D⦄ (env : Env) (catalogue : Catalogue D) where
  unfoldable pub record_movement_for_other_module :
      Uuid → Uuid → RecordMovementParams D → Action (Stock D) (StockMovement D)
  unfolding record_movement
  record_movement_for_other_module org actor p = record_movement env catalogue org actor p

  unfoldable pub record_opening_stock :
      Principal → RecordMovementParams D → Action (Stock D) (StockMovement D)
  record_opening_stock principal p = do
    lift (env.require principal "inventory.manage")
    record_movement env catalogue principal.organisation_id principal.user_id
        (record p { movement_type = opening })

  unfoldable pub are_adjustments : List (AdjustmentLineParams D) → Bool
  are_adjustments [] = true
  are_adjustments (l ∷ lines) =
      let rest = are_adjustments lines in
      if is_adjustment_movement_type l.movement_type then rest else false

  -- The loop of `RecordAdjustment`.
  unfoldable pub record_lines :
      Principal
      → StockAdjustment
      → List (AdjustmentLineParams D)
      → Action (Stock D) (List (StockMovement D))
  record_lines principal adj [] = pure []
  record_lines principal adj (l ∷ lines) = do
    mv ← record_movement env catalogue principal.organisation_id principal.user_id (record {
      warehouse_id = adj.warehouse_id;
      product_variant_id = l.product_variant_id;
      movement_type = l.movement_type;
      unit_id = l.unit_id;
      quantity = l.quantity;
      unit_cost = none;
      batch_code = l.batch_code;
      manufacture_date = none;
      expiry_date = none;
      serial_code = none;
      reference_type = "stock_adjustment";
      reference_id = some adj.id;
      notes = adj.reason;
    })
    rest ← record_lines principal adj lines
    pure (mv ∷ rest)

  unfoldable pub record_adjustment :
      Principal
      → RecordAdjustmentParams D
      → Action (Stock D) (StockAdjustment × List (StockMovement D))
  record_adjustment principal p = do
    lift (env.require principal "inventory.adjust")
    require_that (leb 1 (length p.lines)) no_lines
    require_that (are_adjustments p.lines) not_an_adjustment
    id ← draw_id env
    let adj : StockAdjustment = record {
      id = id;
      organisation_id = principal.organisation_id;
      warehouse_id = p.warehouse_id;
      reason = p.reason;
      notes = p.notes;
      created_by = principal.user_id;
      created_at = env.now;
    }
    create_adjustment adj
    movements ← record_lines principal adj p.lines
    record_audit (record {
      action = "stock_adjustment.created";
      entity_id = id;
      actor = principal.user_id;
      at = env.now;
    })
    pure (adj, movements)

  -- One leg of a transfer.
  unfoldable pub record_leg :
      Principal
      → RecordTransferParams D
      → Uuid
      → Uuid
      → MovementType
      → Action (Stock D) (StockMovement D)
  record_leg principal p transfer_id warehouse movement_type =
      record_movement env catalogue principal.organisation_id principal.user_id (record {
        warehouse_id = warehouse;
        product_variant_id = p.product_variant_id;
        movement_type = movement_type;
        unit_id = p.unit_id;
        quantity = p.quantity;
        unit_cost = none;
        batch_code = none;
        manufacture_date = none;
        expiry_date = none;
        serial_code = none;
        reference_type = "stock_transfer";
        reference_id = some transfer_id;
        notes = p.notes;
      })

  unfoldable pub record_transfer :
      Principal → RecordTransferParams D → Action (Stock D) StockTransfer
  record_transfer principal p = do
    lift (env.require principal "inventory.transfer")
    require_that (not (p.from_warehouse_id == p.to_warehouse_id)) same_warehouse
    id ← draw_id env
    let t : StockTransfer = record {
      id = id;
      organisation_id = principal.organisation_id;
      from_warehouse_id = p.from_warehouse_id;
      to_warehouse_id = p.to_warehouse_id;
      status = completed;
      notes = p.notes;
      created_by = principal.user_id;
      created_at = env.now;
    }
    create_transfer t
    out ← record_leg principal p id p.from_warehouse_id transfer_out
    into ← record_leg principal p id p.to_warehouse_id transfer_in
    record_audit (record {
      action = "stock_transfer.created";
      entity_id = id;
      actor = principal.user_id;
      at = env.now;
    })
    pure t

module _ {D : Type 0} ⦃d : Decimal D⦄ (env : Env) where
  unfoldable pub reserve : Principal → ReserveParams D → Action (Stock D) (StockReservation D)
  reserve principal p = do
    lift (env.require principal "inventory.manage")
    require_that (is_positive p.quantity) quantity_not_positive
    id ← draw_id env
    let res : StockReservation D = record {
      id = id;
      organisation_id = principal.organisation_id;
      warehouse_id = p.warehouse_id;
      product_variant_id = p.product_variant_id;
      quantity = p.quantity;
      reference_type = p.reference_type;
      reference_id = p.reference_id;
      status = active;
      created_at = env.now;
      released_at = none;
    }
    bal ← λ s.
        ok (get_balance principal.organisation_id p.warehouse_id p.product_variant_id s.balances, s)
    require_that (not (d.less_than (available bal) p.quantity)) insufficient_stock
    create_reservation res
    sum ← λ s.
        ok (
          sum_active principal.organisation_id p.warehouse_id p.product_variant_id s.reservations,
          s,
        )
    upsert_balance (record bal { quantity_reserved = sum })
    pure res

  unfoldable pub release_reservation : Principal → Uuid → Uuid → Uuid → Action (Stock D) (Unit {0})
  release_reservation principal reservation_id warehouse variant = do
    lift (env.require principal "inventory.manage")
    release env principal.organisation_id reservation_id
    bal ← λ s. ok (get_balance principal.organisation_id warehouse variant s.balances, s)
    sum ← λ s. ok (sum_active principal.organisation_id warehouse variant s.reservations, s)
    upsert_balance (record bal { quantity_reserved = sum })

  unfoldable pub set_stock_policy : Principal → StockPolicy D → Action (Stock D) (Unit {0})
  set_stock_policy principal p = do
    lift (env.require principal "inventory.manage")
    λ s. ok (
      tt,
      record s {
        policies =
            upsert_policy (record p { organisation_id = principal.organisation_id }) s.policies;
      },
    )
