-- ===== src/Inventory/Tests.antt =====
-- A receipt in boxes and a sale in pieces on the fixed decimals, and the theorems at them.
use billing_platform.Base.{◌+◌, ◌≡◌, refl, none, some, [], ◌∷◌, ok, err, insufficient_stock}
use billing_platform.Base.Int.{ℤ, pos, ◌+ℤ◌, ◌-ℤ◌}
use billing_platform.Decimal.{divide}
use billing_platform.Decimal.Fixed.{fixed, fixed-IsGroup, fixed-IsOrder}
use billing_platform.Transaction.{Env, ◌>>=◌}
use billing_platform.Inventory.Types.{
  RecordMovementParams, purchase_receipt, sale, StockMovement, direction_of, is_receipt,
}
use billing_platform.Inventory.Stock.{
  Stock, Catalogue, find_variant, find_product, find_conversion, find_policy, find_balance,
  get_balance, upsert, draw_id, create_movement, upsert_balance, record_audit,
}
use billing_platform.Inventory.Movement.{
  on_receipt, check_params, base_unit, conversion_factor, base_factor, allow_negative, new_cost,
  new_quantity, new_balance, resolve_batch, resolve_serial_code, apply_movement, record_movement,
}
use billing_platform.Inventory.Operations.{record_movement_for_other_module}
use billing_platform.Inventory.Ledger.{IsProjection}
use billing_platform.Inventory.Effect.{IsMoved, record_movement-IsMoved}
use billing_platform.Inventory.Floor.{IsFloored, Step-IsFloored}
use billing_platform.Inventory.Reach.{IsExact, start, next, movement, Reach-IsProjection}

abbrev env : Env
env = record {
  now = 150;
  new_id = λ n. ok (1000 + n);
  require = λ principal code. ok tt;
  uuid_text = λ id. "";
  pick = λ n. 0;
}

-- Pieces are unit 1 and boxes unit 2, of 25 pieces.
abbrev catalogue : Catalogue ℤ
catalogue = record {
  products = record { id = 40; organisation_id = 7; base_uom_id = 1 } ∷ [];
  variants = record { id = 30; organisation_id = 7; product_id = 40 } ∷ [];
  conversions =
      record {
        id = 50;
        organisation_id = 7;
        from_unit_id = 2;
        to_unit_id = 1;
        factor = pos 250000;
        created_at = 1;
      }
      ∷ [];
}

abbrev empty : Stock ℤ
empty = record {
  movements = [];
  balances = [];
  reservations = [];
  batches = [];
  serials = [];
  policies = [];
  transfers = [];
  adjustments = [];
  audit = [];
  drawn = 0;
}

-- Three boxes at 500 a box.
abbrev receipt : RecordMovementParams ℤ
receipt = record {
  warehouse_id = 20;
  product_variant_id = 30;
  movement_type = purchase_receipt;
  unit_id = 2;
  quantity = pos 30000;
  unit_cost = some (pos 5000000);
  batch_code = none;
  manufacture_date = none;
  expiry_date = none;
  serial_code = none;
  reference_type = "";
  reference_id = none;
  notes = "";
}

abbrev received : StockMovement ℤ
received = record {
  id = 1000;
  organisation_id = 7;
  warehouse_id = 20;
  product_variant_id = 30;
  movement_type = purchase_receipt;
  unit_id = 2;
  quantity = pos 30000;
  base_quantity = pos 750000;
  unit_cost = some (pos 5000000);
  batch_id = none;
  serial_number_id = none;
  reference_type = "";
  reference_id = none;
  notes = "";
  created_by = 3;
  created_at = 150;
}

-- 75 pieces at 20 a piece.
abbrev stocked : Stock ℤ
stocked = record empty {
  movements = received ∷ [];
  balances =
      record {
        organisation_id = 7;
        warehouse_id = 20;
        product_variant_id = 30;
        quantity_on_hand = pos 750000;
        quantity_reserved = pos 0;
        average_cost = pos 200000;
      }
      ∷ [];
  audit = record { action = "stock_movement.recorded"; entity_id = 1000; actor = 3; at = 150 } ∷ [];
  drawn = 1;
}

receives : record_movement env catalogue 7 3 receipt empty ≡ ok (received, stocked)
unfolding record_movement check_params direction_of is_receipt base_factor base_unit find_variant
    find_product conversion_factor find_conversion resolve_batch resolve_serial_code apply_movement
    new_balance get_balance find_balance allow_negative find_policy new_quantity new_cost divide
    on_receipt draw_id create_movement upsert_balance upsert record_audit ◌>>=◌ ◌+ℤ◌
receives = refl

-- 76 pieces cannot be sold.
short :
    record_movement env catalogue 7 3
      (record receipt { movement_type = sale; unit_id = 1; quantity = pos 760000 })
      stocked
    ≡ err insufficient_stock
unfolding record_movement check_params direction_of is_receipt base_factor base_unit find_variant
    find_product conversion_factor find_conversion resolve_batch resolve_serial_code apply_movement
    new_balance get_balance find_balance allow_negative find_policy new_quantity new_cost divide
    on_receipt draw_id create_movement upsert_balance upsert record_audit ◌>>=◌ ◌+ℤ◌ ◌-ℤ◌
short = refl

record_movement-IsMoved_example :
    (factor : ℤ) × (base_factor catalogue 7 receipt ≡ ok factor)
    × (received.base_quantity ≡ fixed.mul receipt.quantity factor)
    × IsMoved 7 receipt empty stocked received
record_movement-IsMoved_example =
    record_movement-IsMoved fixed-IsGroup env 7 3 receipt catalogue empty receives

empty-IsProjection : IsProjection empty
unfolding get_balance find_balance
empty-IsProjection org warehouse variant = refl

posts_movement :
    record_movement_for_other_module env catalogue 7 3 receipt empty ≡ ok (received, stocked)
unfolding record_movement_for_other_module
posts_movement = receives

stocked-IsExact : IsExact stocked
stocked-IsExact = record {
  movements = ((refl, refl), tt);
  balances = ((refl, refl), tt);
  reservations = tt;
}

Reach-IsProjection_example : IsProjection stocked
Reach-IsProjection_example =
    Reach-IsProjection fixed-IsGroup empty-IsProjection
      (next env start (movement catalogue 7 3 receipt posts_movement) stocked-IsExact)

empty-IsFloored : IsFloored empty
unfolding get_balance find_balance ◌+ℤ◌
empty-IsFloored org warehouse variant forbidden = refl

Step-IsFloored_example : IsFloored stocked
Step-IsFloored_example =
    Step-IsFloored fixed-IsGroup fixed-IsOrder {env = env} empty-IsFloored refl
      (movement catalogue 7 3 receipt posts_movement)
