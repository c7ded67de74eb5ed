-- ===== src/Ewaybill/Generate.antt =====
-- `GenerateForDocument`, `UpdatePartB`, `Close` and `Cancel` of
-- internal/modules/ewaybill/app/service.go.
use billing_platform.Base.{
  Bool, true, false, Option, none, some, String, str_eq, if◌then◌else◌, Result, Error, ok, err,
  not_generated, invalid_close_role, Uuid, Time, [],
}
use billing_platform.Transaction.{Action, Env, ◌>>=◌, ◌>>◌, pure, lift}
use billing_platform.Ewaybill.Types.{
  Status, queued, submitting, generated, failed_retryable, cancelled, closed, terminal, unset_mode,
  ClosedByRole, by_supplier, by_recipient, by_transporter, by_driver, other_role, PartBUpdate,
  Record,
}
use billing_platform.Ewaybill.Records.{
  Ways, create, update_status, append_part_b_history, get_by_sales_document_id, find_record,
  draw_id, no_fields,
}

pub record GenerateParams (D : Type 0) : Type 0 where
  pub sales_document_id : Uuid
  pub irn : String
  pub transporter_id : String
  pub transporter_name : String
  pub transport_mode : String
  pub vehicle_number : String
  pub distance_km : D
  pub ship_to_gstin : String

-- What the provider answers with.
pub record Issued : Type 0 where
  pub ewb_number : String
  pub valid_from : Time
  pub valid_until : Time

-- The two calls of the interface `EInvoiceProvider` that the service makes.
pub record Provider (D : Type 0) : Type 0 where
  pub generate_by_irn : GenerateParams D → Result Issued
  pub cancel_ewaybill : String → String → Result (Unit {0})
  -- `error.Error`
  pub error_text : Error → String

module _ {D : Type 0} (provider : Provider D) (env : Env) where
  abbrev pub new_record : Uuid → Uuid → GenerateParams D → Record D
  new_record org id p = record {
    id = id;
    organisation_id = org;
    sales_document_id = p.sales_document_id;
    einvoice_record_id = none;
    irn = some p.irn;
    ewb_number = none;
    status = queued;
    mode = unset_mode;
    source = none;
    canonical_snapshot = none;
    prepared_file_name = none;
    prepared_at = none;
    valid_from = none;
    valid_until = none;
    ship_to_gstin = if str_eq p.ship_to_gstin "" then none else some p.ship_to_gstin;
    transporter_id = p.transporter_id;
    transporter_name = p.transporter_name;
    vehicle_number = p.vehicle_number;
    distance_km = some p.distance_km;
    part_b_history = [];
    closed_at = none;
    closed_by_role = none;
    error_code = none;
    error_message = none;
    correlation_id = none;
    cancelled_at = none;
    cancel_reason = none;
    created_at = 0;
    updated_at = 0;
  }

  unfoldable pub create_queued : Uuid → GenerateParams D → Action (Ways D) (Record D)
  create_queued org p = do
    id ← draw_id env
    create env (new_record org id p)
    pure (new_record org id p)

  -- What follows the provider's answer: the error it returns is written, and returned.
  unfoldable pub settle : Uuid → Record D → Result Issued → Action (Ways D) (Result (Record D))
  settle org existing (err e) = do
    update_status env org existing.id failed_retryable
        (record no_fields { error_message = some (provider.error_text e) })
    pure (err e)
  settle org existing (ok resp) = do
    update_status env org existing.id generated (record no_fields {
      ewb_number = some resp.ewb_number;
      valid_from = some resp.valid_from;
      valid_until = some resp.valid_until;
    })
    pure (ok (record existing { status = generated; ewb_number = some resp.ewb_number }))

  unfoldable pub submit : Uuid → GenerateParams D → Record D → Action (Ways D) (Result (Record D))
  unfolding settle
  submit org p existing = do
    update_status env org existing.id submitting no_fields
    settle org existing (provider.generate_by_irn p)

  unfoldable pub submit_found :
      Uuid → GenerateParams D → Option (Record D) → Action (Ways D) (Result (Record D))
  unfolding submit create_queued
  submit_found org p none = create_queued org p >>= submit org p
  submit_found org p (some existing) =
      let submitted = submit org p existing in
      if terminal existing.status then pure (ok existing) else submitted

  unfoldable pub generate_for_document :
      Uuid → GenerateParams D → Action (Ways D) (Result (Record D))
  unfolding submit_found
  generate_for_document org p = do
    found ← find_record org p.sales_document_id
    submit_found org p found

  unfoldable pub update_part_b : Uuid → Uuid → PartBUpdate → Action (Ways D) (Unit {0})
  unfolding append_part_b_history
  update_part_b org id change = append_part_b_history env org id (record change { at = env.now })

  abbrev is_close_role : ClosedByRole → Bool
  is_close_role (other_role text) = false
  is_close_role by_supplier = true
  is_close_role by_recipient = true
  is_close_role by_transporter = true
  is_close_role by_driver = true

  unfoldable pub close : Uuid → Uuid → ClosedByRole → Action (Ways D) (Unit {0})
  unfolding update_status
  close org id role =
      if is_close_role role
      then update_status env org id closed
          (record no_fields { closed_at = some env.now; closed_by_role = some role })
      else lift (err invalid_close_role)

  abbrev is_generated : Status → Bool
  is_generated s = elim s [ generated ↦ true | _ ↦ false ]

  unfoldable pub cancel_record : String → Record D → Action (Ways D) (Unit {0})
  cancel_record reason rec = elim rec.ewb_number [
    | none ↦ lift (err not_generated)
    | some number ↦
        if is_generated rec.status
        then (do
          lift (provider.cancel_ewaybill number reason)
          update_status env rec.organisation_id rec.id cancelled
              (record no_fields { cancelled_at = some env.now; cancel_reason = some reason }))
        else lift (err not_generated)
  ]

  unfoldable pub cancel : Uuid → Uuid → String → Action (Ways D) (Unit {0})
  unfolding cancel_record
  cancel org doc reason = do rec ← get_by_sales_document_id org doc; cancel_record reason rec
