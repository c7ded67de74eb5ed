-- ===== src/Ewaybill/Types.antt =====
-- The records of internal/modules/ewaybill/domain/domain.go and canonical/canonical.go.
use billing_platform.Base.{Bool, true, false, Option, List, String, Uuid, Time}

pub data Status : Type 0 where
  draft queued submitting generated failed_retryable failed_final : Status
  cancel_pending cancelled closed : Status
  not_required needs_information ready preparing portal_file_ready : Status
  awaiting_portal_completion expired : Status

unfoldable pub terminal : Status → Bool
terminal s = elim s [
  | generated ↦ true
  | cancelled ↦ true
  | closed ↦ true
  | failed_final ↦ true
  | not_required ↦ true
  | expired ↦ true
  | _ ↦ false
]

-- The empty string is the mode of a record that names none.
pub data Mode : Type 0 where
  unset_mode free_portal automatic_api : Mode

pub data Source : Type 0 where
  source_api source_manual_portal source_imported_file : Source

-- Another string than the four is `other_role`.
pub data ClosedByRole : Type 0 where
  by_supplier by_recipient by_transporter by_driver : ClosedByRole
  other_role : String → ClosedByRole

pub record PartBUpdate : Type 0 where
  pub at : Time
  pub vehicle_number : String
  pub transporter_id : String
  pub transporter_name : String
  pub reason : String

pub record Party : Type 0 where
  pub legal_name : String
  pub trade_name : String
  pub gstin : String
  pub state_code : String
  pub address_line1 : String
  pub address_line2 : String
  pub city : String
  pub postal_code : String
  pub phone : String

pub record Item (D : Type 0) : Type 0 where
  pub line_ref : String
  pub description : String
  pub hsn_sac_code : String
  pub quantity : D
  pub unit_code : String
  pub taxable_amount : D
  pub gst_rate : D
  pub cgst_rate : D
  pub sgst_rate : D
  pub igst_rate : D
  pub cess_rate : D

pub record TaxTotals (D : Type 0) : Type 0 where
  pub taxable_value : D
  pub cgst : D
  pub sgst : D
  pub igst : D
  pub cess : D
  pub grand_total : D

pub record Transport (D : Type 0) : Type 0 where
  pub mode : String
  pub vehicle_number : String
  pub transporter_id : String
  pub transporter_name : String
  pub distance_km : D

pub record CanonicalEWayBill (D : Type 0) : Type 0 where
  pub sales_document_id : Uuid
  pub invoice_number : String
  pub invoice_date : Time
  pub document_type : String
  pub supply_place_code : String
  pub supplier : Party
  pub recipient : Party
  pub dispatch_from : Party
  pub ship_to : Party
  pub items : List (Item D)
  pub tax : TaxTotals D
  pub transport : Transport D
  pub snapshot_taken_at : Time

unfoldable pub consignment_value : {D : Type 0} → CanonicalEWayBill D → D
consignment_value c = c.tax.grand_total

-- The snapshot is the bill whose JSON the column holds.
pub record Record (D : Type 0) : Type 0 where
  pub id : Uuid
  pub organisation_id : Uuid
  pub sales_document_id : Uuid
  pub einvoice_record_id : Option Uuid
  pub irn : Option String
  pub ewb_number : Option String
  pub status : Status
  pub mode : Mode
  pub source : Option Source
  pub canonical_snapshot : Option (CanonicalEWayBill D)
  pub prepared_file_name : Option String
  pub prepared_at : Option Time
  pub valid_from : Option Time
  pub valid_until : Option Time
  pub ship_to_gstin : Option String
  pub transporter_id : String
  pub transporter_name : String
  pub vehicle_number : String
  pub distance_km : Option D
  pub part_b_history : List PartBUpdate
  pub closed_at : Option Time
  pub closed_by_role : Option ClosedByRole
  pub error_code : Option String
  pub error_message : Option String
  pub correlation_id : Option String
  pub cancelled_at : Option Time
  pub cancel_reason : Option String
  pub created_at : Time
  pub updated_at : Time

pub record UpdateFields (D : Type 0) : Type 0 where
  pub ewb_number : Option String
  pub valid_from : Option Time
  pub valid_until : Option Time
  pub ship_to_gstin : Option String
  pub closed_at : Option Time
  pub closed_by_role : Option ClosedByRole
  pub error_code : Option String
  pub error_message : Option String
  pub correlation_id : Option String
  pub cancelled_at : Option Time
  pub cancel_reason : Option String
  pub source : Option Source
  pub canonical_snapshot : Option (CanonicalEWayBill D)
  pub prepared_file_name : Option String
  pub prepared_at : Option Time
