-- ===== src/Inventory/Movement.antt =====
-- The costing of internal/modules/inventory/domain/costing.go, and `recordMovement`, `baseUnit`,
-- `conversionFactor` and `resolveSerial` of app/service.go.
use billing_platform.Base.{
  not, ◌&&◌, Bool, false, Option, none, some, String, str_eq, if◌then◌else◌, Result, ok, err,
  panicked, invalid_movement_type, quantity_not_positive, unit_cost_required, insufficient_stock,
  no_unit_conversion, not_found, Uuid, ◌==◌,
}
use billing_platform.Base.Int.{pos}
use billing_platform.Decimal.{Decimal, is_positive, is_negative, is_zero, divide}
use billing_platform.Transaction.{Action, Env, ◌>>=◌, ◌>>◌, pure, lift}
use billing_platform.Inventory.Types.{
  StockMovement, StockBalance, in_stock, sold, RecordMovementParams, Direction, direction_in,
  direction_out, direction_of, is_receipt, invert,
}
use billing_platform.Inventory.Stock.{
  Stock, Catalogue, find_variant, find_product, find_conversion, find_policy, get_balance, draw_id,
  create_movement, upsert_balance, record_audit, get_or_create, create_serial, get_by_code,
  set_status,
}

module _ {D : Type 0} ⦃d : Decimal D⦄ where
  -- The weighted average over what is on hand and what is received.
  unfoldable pub on_receipt : D → D → D → D → D
  on_receipt current_qty current_avg_cost receipt_qty receipt_unit_cost =
      let total_qty = d.add current_qty receipt_qty in
      let total_value =
        d.add (d.mul current_qty current_avg_cost) (d.mul receipt_qty receipt_unit_cost) in
      if is_zero total_qty then d.nought else d.div total_value total_qty

  -- The checks at the start of `recordMovement`.
  unfoldable pub check_params : RecordMovementParams D → Result Direction
  check_params p = elim (direction_of p.movement_type) [
    | none ↦ err invalid_movement_type
    | some direction ↦
        if not (is_positive p.quantity) then err quantity_not_positive else elim p.unit_cost [
          | none ↦ if is_receipt p.movement_type then err unit_cost_required else ok direction
          | some _ ↦ ok direction
        ]
  ]

  module _ (catalogue : Catalogue D) where
    unfoldable pub base_unit : Uuid → Uuid → Result Uuid
    base_unit org variant = elim (find_variant org variant catalogue.variants) [
      | none ↦ err not_found
      | some v ↦ elim (find_product org v.product_id catalogue.products) [
        | none ↦ err not_found
        | some p ↦ ok p.base_uom_id
      ]
    ]

    unfoldable pub conversion_factor : Uuid → Uuid → Uuid → Result D
    conversion_factor org from to =
        if from == to
        then ok (d.from_int (pos 1))
        else elim (find_conversion org from to catalogue.conversions) [
          | some c ↦ ok c.factor
          | none ↦ elim (find_conversion org to from catalogue.conversions) [
            | none ↦ err no_unit_conversion
            | some c ↦ elim (invert c) [ err e ↦ err e | ok inverse ↦ ok inverse.factor ]
          ]
        ]

    -- How many base units one transacted unit has.
    unfoldable pub base_factor : Uuid → RecordMovementParams D → Result D
    base_factor org p = elim (base_unit org p.product_variant_id) [
      | err e ↦ err e
      | ok base ↦
          if p.unit_id == base
          then ok (d.from_int (pos 1))
          else conversion_factor org p.unit_id base
    ]

  -- An absent policy forbids negative stock.
  unfoldable pub allow_negative : Uuid → Uuid → Uuid → Stock D → Bool
  allow_negative org warehouse variant s = elim (find_policy org warehouse variant s.policies) [
    | none ↦ false
    | some policy ↦ policy.allow_negative_stock
  ]

  -- The average cost after an inward movement.
  unfoldable pub new_cost : RecordMovementParams D → D → D → StockBalance D → Result D
  unfolding on_receipt divide
  new_cost p factor base_qty before =
      if is_receipt p.movement_type
      then elim p.unit_cost [
        | none ↦ err panicked
        | some cost ↦ elim (divide cost factor) [
          | err e ↦ err e
          | ok base_unit_cost ↦
              ok (on_receipt before.quantity_on_hand before.average_cost base_qty base_unit_cost)
        ]
      ]
      else ok before.average_cost

  -- The quantity and the average cost that the movement leaves.
  unfoldable pub new_quantity :
      RecordMovementParams D → Direction → D → D → StockBalance D → Bool → Result (D × D)
  unfolding new_cost
  new_quantity p direction_in factor base_qty before allowed =
      elim (new_cost p factor base_qty before) [
        | err e ↦ err e
        | ok cost ↦ ok (d.add before.quantity_on_hand base_qty, cost)
      ]
  new_quantity p direction_out factor base_qty before allowed =
      let resulting_qty = d.sub before.quantity_on_hand base_qty in
      if not allowed && is_negative resulting_qty
      then err insufficient_stock
      else ok (resulting_qty, before.average_cost)

  -- The balance that the movement leaves, from the one that stands.
  unfoldable pub new_balance :
      Uuid → RecordMovementParams D → Direction → D → D → Action (Stock D) (StockBalance D)
  unfolding new_quantity allow_negative get_balance
  new_balance org p direction factor base_qty s =
      let before = get_balance org p.warehouse_id p.product_variant_id s.balances in
      let allowed = allow_negative org p.warehouse_id p.product_variant_id s in
      elim (new_quantity p direction factor base_qty before allowed) [
        | err e ↦ err e
        | ok (quantity, cost) ↦ ok (
          record {
            organisation_id = org;
            warehouse_id = p.warehouse_id;
            product_variant_id = p.product_variant_id;
            quantity_on_hand = quantity;
            quantity_reserved = before.quantity_reserved;
            average_cost = cost;
          },
          s,
        )
      ]

  module _ (env : Env) where
    unfoldable pub resolve_batch : Uuid → RecordMovementParams D → Action (Stock D) (Option Uuid)
    resolve_batch org p s = elim p.batch_code [
      | none ↦ ok (none, s)
      | some code ↦
          if str_eq code ""
          then ok (none, s)
          else elim (get_or_create env org p.product_variant_id code p.manufacture_date
              p.expiry_date s) [ err e ↦ err e | ok (b, s') ↦ ok (some b.id, s') ]
    ]

    unfoldable pub resolve_serial : Uuid → Uuid → Uuid → String → Direction → Action (Stock D) Uuid
    resolve_serial org variant warehouse code direction_in = do
      id ← draw_id env
      create_serial (record {
        id = id;
        organisation_id = org;
        product_variant_id = variant;
        serial_code = code;
        warehouse_id = some warehouse;
        status = in_stock;
        created_at = env.now;
        updated_at = env.now;
      })
      pure id
    resolve_serial org variant warehouse code direction_out = do
      sn ← get_by_code org variant code
      λ s. ok (tt, record s { serials = set_status sn.id sold none env.now s.serials })
      pure sn.id

    unfoldable pub resolve_serial_code :
        Uuid → RecordMovementParams D → Direction → Action (Stock D) (Option Uuid)
    resolve_serial_code org p direction s = elim p.serial_code [
      | none ↦ ok (none, s)
      | some code ↦
          if str_eq code ""
          then ok (none, s)
          else elim (resolve_serial org p.product_variant_id p.warehouse_id code direction s) [
            | err e ↦ err e
            | ok (id, s') ↦ ok (some id, s')
          ]
    ]

    -- The part of `recordMovement` that holds the lock on the balance.
    unfoldable pub apply_movement :
        Uuid
        → Uuid
        → RecordMovementParams D
        → Direction
        → D
        → Option Uuid
        → Option Uuid
        → Action (Stock D) (StockMovement D)
    apply_movement org actor p direction factor batch_id serial_id = do
      let base_qty = d.mul p.quantity factor
      balance ← new_balance org p direction factor base_qty
      id ← draw_id env
      let mv : StockMovement D = record {
        id = id;
        organisation_id = org;
        warehouse_id = p.warehouse_id;
        product_variant_id = p.product_variant_id;
        movement_type = p.movement_type;
        unit_id = p.unit_id;
        quantity = p.quantity;
        base_quantity = base_qty;
        unit_cost = p.unit_cost;
        batch_id = batch_id;
        serial_number_id = serial_id;
        reference_type = p.reference_type;
        reference_id = p.reference_id;
        notes = p.notes;
        created_by = actor;
        created_at = env.now;
      }
      create_movement mv
      upsert_balance balance
      record_audit (record {
        action = "stock_movement.recorded";
        entity_id = id;
        actor = actor;
        at = env.now;
      })
      pure mv

    unfoldable pub record_movement :
        Catalogue D → Uuid → Uuid → RecordMovementParams D → Action (Stock D) (StockMovement D)
    record_movement catalogue org actor p = do
      direction ← lift (check_params p)
      factor ← lift (base_factor catalogue org p)
      batch_id ← resolve_batch org p
      serial_id ← resolve_serial_code org p direction
      apply_movement org actor p direction factor batch_id serial_id
