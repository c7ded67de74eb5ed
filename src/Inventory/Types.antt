-- ===== src/Inventory/Types.antt =====
-- The rows of internal/modules/inventory/domain/domain.go, the requests of app/service.go, and the
-- rows of internal/modules/catalogue/domain/domain.go that inventory reads.
use billing_platform.Base.{
  Bool, true, false, Option, none, some, List, String, Uuid, Time, Result, ok,
}
use billing_platform.Base.Int.{pos}
use billing_platform.Decimal.{Decimal, divide}

pub data MovementType : Type 0 where
  opening purchase_receipt purchase_return sale sale_return : MovementType
  transfer_out transfer_in adjustment_in adjustment_out : MovementType
  assembly_in assembly_out damage expiry : MovementType
  unrecognized : String → MovementType

pub data Direction : Type 0 where
  direction_in direction_out : Direction

unfoldable pub direction_of : MovementType → Option Direction
direction_of opening = some direction_in
direction_of purchase_receipt = some direction_in
direction_of purchase_return = some direction_out
direction_of sale = some direction_out
direction_of sale_return = some direction_in
direction_of transfer_out = some direction_out
direction_of transfer_in = some direction_in
direction_of adjustment_in = some direction_in
direction_of adjustment_out = some direction_out
direction_of assembly_in = some direction_in
direction_of assembly_out = some direction_out
direction_of damage = some direction_out
direction_of expiry = some direction_out
direction_of (unrecognized t) = none

unfoldable pub is_receipt : MovementType → Bool
is_receipt opening = true
is_receipt purchase_receipt = true
is_receipt _ = false

unfoldable pub is_adjustment_movement_type : MovementType → Bool
is_adjustment_movement_type adjustment_in = true
is_adjustment_movement_type adjustment_out = true
is_adjustment_movement_type damage = true
is_adjustment_movement_type expiry = true
is_adjustment_movement_type _ = false

pub record StockMovement (D : Type 0) : Type 0 where
  pub id : Uuid
  pub organisation_id : Uuid
  pub warehouse_id : Uuid
  pub product_variant_id : Uuid
  pub movement_type : MovementType
  pub unit_id : Uuid
  pub quantity : D
  pub base_quantity : D
  pub unit_cost : Option D
  pub batch_id : Option Uuid
  pub serial_number_id : Option Uuid
  pub reference_type : String
  pub reference_id : Option Uuid
  pub notes : String
  pub created_by : Uuid
  pub created_at : Time

pub record StockBalance (D : Type 0) : Type 0 where
  pub organisation_id : Uuid
  pub warehouse_id : Uuid
  pub product_variant_id : Uuid
  pub quantity_on_hand : D
  pub quantity_reserved : D
  pub average_cost : D

pub data ReservationStatus : Type 0 where
  active released consumed : ReservationStatus

pub record StockReservation (D : Type 0) : Type 0 where
  pub id : Uuid
  pub organisation_id : Uuid
  pub warehouse_id : Uuid
  pub product_variant_id : Uuid
  pub quantity : D
  pub reference_type : String
  pub reference_id : Uuid
  pub status : ReservationStatus
  pub created_at : Time
  pub released_at : Option Time

pub record StockBatch : Type 0 where
  pub id : Uuid
  pub organisation_id : Uuid
  pub product_variant_id : Uuid
  pub batch_code : String
  pub manufacture_date : Option Time
  pub expiry_date : Option Time
  pub created_at : Time

pub data SerialStatus : Type 0 where
  in_stock reserved sold : SerialStatus

pub record SerialNumber : Type 0 where
  pub id : Uuid
  pub organisation_id : Uuid
  pub product_variant_id : Uuid
  pub serial_code : String
  pub warehouse_id : Option Uuid
  pub status : SerialStatus
  pub created_at : Time
  pub updated_at : Time

pub record StockPolicy (D : Type 0) : Type 0 where
  pub organisation_id : Uuid
  pub warehouse_id : Uuid
  pub product_variant_id : Uuid
  pub reorder_level : D
  pub safety_stock : D
  pub allow_negative_stock : Bool

pub data TransferStatus : Type 0 where
  completed cancelled : TransferStatus

pub record StockTransfer : Type 0 where
  pub id : Uuid
  pub organisation_id : Uuid
  pub from_warehouse_id : Uuid
  pub to_warehouse_id : Uuid
  pub status : TransferStatus
  pub notes : String
  pub created_by : Uuid
  pub created_at : Time

pub record StockAdjustment : Type 0 where
  pub id : Uuid
  pub organisation_id : Uuid
  pub warehouse_id : Uuid
  pub reason : String
  pub notes : String
  pub created_by : Uuid
  pub created_at : Time

pub record RecordMovementParams (D : Type 0) : Type 0 where
  pub warehouse_id : Uuid
  pub product_variant_id : Uuid
  pub movement_type : MovementType
  pub unit_id : Uuid
  pub quantity : D
  pub unit_cost : Option D
  pub batch_code : Option String
  pub manufacture_date : Option Time
  pub expiry_date : Option Time
  pub serial_code : Option String
  pub reference_type : String
  pub reference_id : Option Uuid
  pub notes : String

pub record AdjustmentLineParams (D : Type 0) : Type 0 where
  pub product_variant_id : Uuid
  pub unit_id : Uuid
  pub quantity : D
  pub movement_type : MovementType
  pub batch_code : Option String

pub record RecordAdjustmentParams (D : Type 0) : Type 0 where
  pub warehouse_id : Uuid
  pub reason : String
  pub notes : String
  pub lines : List (AdjustmentLineParams D)

pub record RecordTransferParams (D : Type 0) : Type 0 where
  pub from_warehouse_id : Uuid
  pub to_warehouse_id : Uuid
  pub product_variant_id : Uuid
  pub unit_id : Uuid
  pub quantity : D
  pub notes : String

pub record ReserveParams (D : Type 0) : Type 0 where
  pub warehouse_id : Uuid
  pub product_variant_id : Uuid
  pub quantity : D
  pub reference_type : String
  pub reference_id : Uuid

-- Of a product and a variant, what inventory reads.
pub record Product : Type 0 where
  pub id : Uuid
  pub organisation_id : Uuid
  pub base_uom_id : Uuid

pub record ProductVariant : Type 0 where
  pub id : Uuid
  pub organisation_id : Uuid
  pub product_id : Uuid

pub record UnitConversion (D : Type 0) : Type 0 where
  pub id : Uuid
  pub organisation_id : Uuid
  pub from_unit_id : Uuid
  pub to_unit_id : Uuid
  pub factor : D
  pub created_at : Time

module _ {D : Type 0} ⦃d : Decimal D⦄ where
  unfoldable pub available : StockBalance D → D
  available b = d.sub b.quantity_on_hand b.quantity_reserved

  unfoldable pub invert : UnitConversion D → Result (UnitConversion D)
  unfolding divide
  invert c = elim (divide (d.from_int (pos 1)) c.factor) [
    | Result.err e ↦ Result.err e
    | ok factor ↦
        ok (record c { from_unit_id = c.to_unit_id; to_unit_id = c.from_unit_id; factor = factor })
  ]
