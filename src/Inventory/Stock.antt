-- ===== src/Inventory/Stock.antt =====
-- The tables of the inventory module and the queries of pg/pg.go, and those of
-- internal/modules/catalogue/pg/pg.go that inventory calls.
use billing_platform.Base.{
  ℕ, suc, ◌&&◌, Bool, true, false, Option, none, some, List, [], ◌∷◌, ◌++◌, String, str_eq,
  if◌then◌else◌, ok, err, external, not_found, duplicate_serial, Uuid, Time, ◌==◌,
}
use billing_platform.Decimal.{Decimal, is_positive}
use billing_platform.Transaction.{AuditEntry, Env, Action}
use billing_platform.Inventory.Types.{
  StockMovement, StockBalance, StockReservation, StockBatch, SerialNumber, StockPolicy,
  StockTransfer, StockAdjustment, ReservationStatus, active, released, consumed, SerialStatus,
  Product, ProductVariant, UnitConversion,
}

-- The columns of the quantities are numeric(20,6); a row has the numbers that are written to it, which
-- the columns keep if they have six places at most.
pub record Stock (D : Type 0) : Type 0 where
  pub movements : List (StockMovement D)
  pub balances : List (StockBalance D)
  pub reservations : List (StockReservation D)
  pub batches : List StockBatch
  pub serials : List SerialNumber
  pub policies : List (StockPolicy D)
  pub transfers : List StockTransfer
  pub adjustments : List StockAdjustment
  pub audit : List AuditEntry
  -- how many identifiers have been drawn
  pub drawn : ℕ

-- The rows of the catalogue, which inventory only reads.
pub record Catalogue (D : Type 0) : Type 0 where
  pub products : List Product
  pub variants : List ProductVariant
  pub conversions : List (UnitConversion D)

unfoldable pub find_variant : Uuid → Uuid → List ProductVariant → Option ProductVariant
find_variant org id [] = none
find_variant org id (v ∷ variants) =
    if (v.organisation_id == org) && (v.id == id) then some v else find_variant org id variants

unfoldable pub find_product : Uuid → Uuid → List Product → Option Product
find_product org id [] = none
find_product org id (p ∷ products) =
    if (p.organisation_id == org) && (p.id == id) then some p else find_product org id products

unfoldable pub find_batch : Uuid → Uuid → String → List StockBatch → Option StockBatch
find_batch org variant code [] = none
find_batch org variant code (b ∷ batches) =
    if (b.organisation_id == org) && (b.product_variant_id == variant) && str_eq b.batch_code code
    then some b
    else find_batch org variant code batches

unfoldable pub find_serial : Uuid → Uuid → String → List SerialNumber → Option SerialNumber
find_serial org variant code [] = none
find_serial org variant code (s ∷ serials) =
    if (s.organisation_id == org) && (s.product_variant_id == variant) && str_eq s.serial_code code
    then some s
    else find_serial org variant code serials

-- `UPDATE stock_serial_numbers ... WHERE id = $1`
unfoldable pub set_status :
    Uuid → SerialStatus → Option Uuid → Time → List SerialNumber → List SerialNumber
set_status id status warehouse now [] = []
set_status id status warehouse now (s ∷ serials) =
    (if s.id == id
      then record s { status = status; warehouse_id = warehouse; updated_at = now }
      else s)
    ∷ set_status id status warehouse now serials

unfoldable pub is_active : ReservationStatus → Bool
is_active active = true
is_active released = false
is_active consumed = false

module _ {D : Type 0} where
  unfoldable pub find_conversion :
      Uuid → Uuid → Uuid → List (UnitConversion D) → Option (UnitConversion D)
  find_conversion org from to [] = none
  find_conversion org from to (c ∷ conversions) =
      if (c.organisation_id == org) && (c.from_unit_id == from) && (c.to_unit_id == to)
      then some c
      else find_conversion org from to conversions

  -- The key of stock_balances.
  abbrev pub is_key : Uuid → Uuid → Uuid → StockBalance D → Bool
  is_key org warehouse variant b =
      (b.organisation_id == org)
      && (b.warehouse_id == warehouse)
      && (b.product_variant_id == variant)

  unfoldable pub find_balance : Uuid → Uuid → Uuid → List (StockBalance D) → Option (StockBalance D)
  find_balance org warehouse variant [] = none
  find_balance org warehouse variant (b ∷ balances) =
      if is_key org warehouse variant b then some b else find_balance org warehouse variant balances

  -- `INSERT INTO stock_balances ... ON CONFLICT ... DO UPDATE`
  unfoldable pub upsert : StockBalance D → List (StockBalance D) → List (StockBalance D)
  upsert b [] = b ∷ []
  upsert b (c ∷ balances) =
      if is_key b.organisation_id b.warehouse_id b.product_variant_id c
      then b ∷ balances
      else c ∷ upsert b balances

  unfoldable pub find_policy : Uuid → Uuid → Uuid → List (StockPolicy D) → Option (StockPolicy D)
  find_policy org warehouse variant [] = none
  find_policy org warehouse variant (p ∷ policies) =
      if (p.organisation_id == org)
        && (p.warehouse_id == warehouse)
        && (p.product_variant_id == variant)
      then some p
      else find_policy org warehouse variant policies

  unfoldable pub upsert_policy : StockPolicy D → List (StockPolicy D) → List (StockPolicy D)
  upsert_policy p [] = p ∷ []
  upsert_policy p (q ∷ policies) =
      if (q.organisation_id == p.organisation_id)
        && (q.warehouse_id == p.warehouse_id)
        && (q.product_variant_id == p.product_variant_id)
      then p ∷ policies
      else q ∷ upsert_policy p policies

  -- `UPDATE stock_reservations ... WHERE id = $1 AND status = 'ACTIVE'`: the rows, or none if no row
  -- was updated. The policy of migrations/0012_inventory.up.sql hides the rows of other
  -- organisations than that of the transaction.
  unfoldable pub release_row :
      Uuid → Uuid → Time → List (StockReservation D) → Option (List (StockReservation D))
  unfolding is_active
  release_row org id now [] = none
  release_row org id now (r ∷ reservations) =
      let rest = release_row org id now reservations in
      if (r.organisation_id == org) && (r.id == id) && is_active r.status
      then some (record r { status = released; released_at = some now } ∷ reservations)
      else elim rest [ none ↦ none | some rows ↦ some (r ∷ rows) ]

  unfoldable pub draw_id : Env → Action (Stock D) Uuid
  draw_id env s = elim (env.new_id s.drawn) [
    | ok id ↦ ok (id, record s { drawn = suc s.drawn })
    | err e ↦ err e
  ]

  unfoldable pub record_audit : AuditEntry → Action (Stock D) (Unit {0})
  record_audit entry s = ok (tt, record s { audit = s.audit ++ (entry ∷ []) })

  unfoldable pub upsert_balance : StockBalance D → Action (Stock D) (Unit {0})
  upsert_balance b s = ok (tt, record s { balances = upsert b s.balances })

  -- A batch code that is known keeps its row, and its dates.
  unfoldable pub get_or_create :
      Env → Uuid → Uuid → String → Option Time → Option Time → Action (Stock D) StockBatch
  unfolding draw_id
  get_or_create env org variant code manufactured expires s = elim (draw_id env s) [
    | err e ↦ err e
    | ok (id, s') ↦ elim (find_batch org variant code s.batches) [
      | some b ↦ ok (b, s')
      | none ↦
          let b : StockBatch = record {
            id = id;
            organisation_id = org;
            product_variant_id = variant;
            batch_code = code;
            manufacture_date = manufactured;
            expiry_date = expires;
            created_at = env.now;
          } in
          ok (b, record s' { batches = s'.batches ++ (b ∷ []) })
    ]
  ]

  unfoldable pub create_serial : SerialNumber → Action (Stock D) (Unit {0})
  create_serial n s =
      elim (find_serial n.organisation_id n.product_variant_id n.serial_code s.serials) [
        | some _ ↦ err duplicate_serial
        | none ↦ ok (tt, record s { serials = s.serials ++ (n ∷ []) })
      ]

  unfoldable pub get_by_code : Uuid → Uuid → String → Action (Stock D) SerialNumber
  get_by_code org variant code s = elim (find_serial org variant code s.serials) [
    | none ↦ err not_found
    | some n ↦ ok (n, s)
  ]

  unfoldable pub create_transfer : StockTransfer → Action (Stock D) (Unit {0})
  create_transfer t s = ok (tt, record s { transfers = s.transfers ++ (t ∷ []) })

  unfoldable pub create_adjustment : StockAdjustment → Action (Stock D) (Unit {0})
  create_adjustment a s = ok (tt, record s { adjustments = s.adjustments ++ (a ∷ []) })

  unfoldable pub release : Env → Uuid → Uuid → Action (Stock D) (Unit {0})
  release env org id s = elim (release_row org id env.now s.reservations) [
    | none ↦ err not_found
    | some rows ↦ ok (tt, record s { reservations = rows })
  ]

module _ {D : Type 0} ⦃d : Decimal D⦄ where
  -- A pair that has not moved has an implicit balance of zero.
  unfoldable pub get_balance : Uuid → Uuid → Uuid → List (StockBalance D) → StockBalance D
  get_balance org warehouse variant balances = elim (find_balance org warehouse variant balances) [
    | some b ↦ b
    | none ↦ record {
      organisation_id = org;
      warehouse_id = warehouse;
      product_variant_id = variant;
      quantity_on_hand = d.nought;
      quantity_reserved = d.nought;
      average_cost = d.nought;
    }
  ]

  -- The CHECK constraints on the quantities of stock_movements.
  unfoldable pub create_movement : StockMovement D → Action (Stock D) (Unit {0})
  create_movement m s =
      if is_positive m.quantity && is_positive m.base_quantity
      then ok (tt, record s { movements = s.movements ++ (m ∷ []) })
      else err (external "check constraint")

  unfoldable pub create_reservation : StockReservation D → Action (Stock D) (Unit {0})
  create_reservation r s =
      if is_positive r.quantity
      then ok (tt, record s { reservations = s.reservations ++ (r ∷ []) })
      else err (external "check constraint")

  unfoldable pub sum_active : Uuid → Uuid → Uuid → List (StockReservation D) → D
  unfolding is_active
  sum_active org warehouse variant [] = d.nought
  sum_active org warehouse variant (r ∷ reservations) =
      let rest = sum_active org warehouse variant reservations in
      if (r.organisation_id == org)
        && (r.warehouse_id == warehouse)
        && (r.product_variant_id == variant)
        && is_active r.status
      then d.add r.quantity rest
      else rest
