-- ===== src/Ewaybill/Portal.antt =====
-- The FREE_PORTAL operations of internal/modules/ewaybill/app/service.go.
use billing_platform.Base.{
  ◌&&◌, not, Bool, true, false, Option, none, some, String, str_eq, if◌then◌else◌, Result, Error,
  ok, err, result_mismatch, not_eligible, missing_information, invalid_amount, Uuid, Time, ◌==◌, [],
  List,
}
use billing_platform.Decimal.{Decimal}
use billing_platform.Transaction.{Action, Env, ◌>>=◌, ◌>>◌, pure, lift}
use billing_platform.Ewaybill.Types.{
  Status, generated, not_required, ready, needs_information, preparing, awaiting_portal_completion,
  terminal, Mode, free_portal, unset_mode, automatic_api, Source, source_manual_portal,
  source_imported_file, CanonicalEWayBill, Record,
}
use billing_platform.Ewaybill.Eligibility.{
  Rule, Requirement, req_not_required, req_ready, req_needs_information, req_required, MissingInfo,
  evaluate,
}
use billing_platform.Ewaybill.Records.{
  Ways, create, update_status, get_by_sales_document_id, find_record, draw_id, record_audit,
  no_fields, attempt,
}

pub record EligibilityResult : Type 0 where
  pub requirement : Requirement
  pub missing : List MissingInfo
  pub record_id : Uuid

pub record TransportInfoParams (D : Type 0) : Type 0 where
  pub vehicle_number : Option String
  pub transporter_id : Option String
  pub transporter_name : Option String
  pub distance_km : Option D

pub record ManualResultParams : Type 0 where
  pub ewb_number : String
  pub valid_from : Time
  pub valid_until : Time

pub record ImportedResultParams : Type 0 where
  pub result : ManualResultParams
  pub claimed_invoice_number : String
  pub claimed_invoice_date : Time
  pub claimed_supplier_gstin : String
  pub claimed_document_type : String

pub record PreparedFile : Type 0 where
  pub file_name : String
  pub content : String

-- What the service is given: the bill built from the invoice of a document, the rules, the
-- exporter, and the texts of errors.
pub record Portal (D : Type 0) : Type 0 where
  pub live_bill : Uuid → Uuid → Result (CanonicalEWayBill D)
  pub rules : List (Rule D)
  pub prepare_upload : CanonicalEWayBill D → Result PreparedFile
  pub error_text : Error → String

-- `json.Unmarshal` of the stored snapshot, which fails where there is none.
abbrev pub stored_bill : {D : Type 0} → Record D → Result (CanonicalEWayBill D)
stored_bill rec = elim rec.canonical_snapshot [ none ↦ err invalid_amount | some bill ↦ ok bill ]

abbrev pub is_free_portal : Mode → Bool
is_free_portal free_portal = true
is_free_portal unset_mode = false
is_free_portal automatic_api = false

abbrev pub given : {A : Type 0} → Option A → A → A
given none old = old
given (some new) old = new

-- The status of a requirement.
unfoldable pub status_of : Requirement → Status
status_of req_ready = ready
status_of req_needs_information = needs_information
status_of req_required = needs_information
status_of req_not_required = not_required

abbrev pub is_settled : Status → Bool
is_settled s = terminal s && not (elim s [ not_required ↦ true | _ ↦ false ])

module _ {D : Type 0} (portal : Portal D) (env : Env) where
  abbrev pub new_record : Uuid → Uuid → Uuid → CanonicalEWayBill D → Record D
  new_record org doc id bill = record {
    id = id;
    organisation_id = org;
    sales_document_id = doc;
    einvoice_record_id = none;
    irn = none;
    ewb_number = none;
    status = not_required;
    mode = free_portal;
    source = none;
    canonical_snapshot = none;
    prepared_file_name = none;
    prepared_at = none;
    valid_from = none;
    valid_until = none;
    ship_to_gstin = none;
    transporter_id = bill.transport.transporter_id;
    transporter_name = bill.transport.transporter_name;
    vehicle_number = bill.transport.vehicle_number;
    distance_km = none;
    part_b_history = [];
    closed_at = none;
    closed_by_role = none;
    error_code = none;
    error_message = none;
    correlation_id = none;
    cancelled_at = none;
    cancel_reason = none;
    created_at = 0;
    updated_at = 0;
  }

  -- The second half of `getOrCreateFreePortalRecord`.
  unfoldable pub capture : Uuid → Uuid → Action (Ways D) (Record D × CanonicalEWayBill D)
  capture org doc = do
    bill ← lift (portal.live_bill org doc)
    id ← draw_id env
    create env (new_record org doc id bill)
    update_status env org id not_required (record no_fields { canonical_snapshot = some bill })
    pure (record (new_record org doc id bill) { canonical_snapshot = some bill }, bill)

  unfoldable pub reuse_or_capture :
      Uuid → Uuid → Option (Record D) → Action (Ways D) (Record D × CanonicalEWayBill D)
  unfolding capture
  reuse_or_capture org doc none = capture org doc
  reuse_or_capture org doc (some existing) =
      let fresh = capture org doc in
      if is_free_portal existing.mode
      then elim existing.canonical_snapshot [ none ↦ fresh | some bill ↦ pure (existing, bill) ]
      else fresh

  unfoldable pub get_or_create_free_portal_record :
      Uuid → Uuid → Action (Ways D) (Record D × CanonicalEWayBill D)
  unfolding reuse_or_capture
  get_or_create_free_portal_record org doc = do
    existing ← find_record org doc
    reuse_or_capture org doc existing

module _ {D : Type 0} ⦃d : Decimal D⦄ (portal : Portal D) (env : Env) where
  -- `!rec.Status.Terminal() || rec.Status == domain.StatusNotRequired`
  unfoldable pub write_status : Uuid → Record D → Status → Action (Ways D) (Unit {0})
  write_status org rec status =
      if is_settled rec.status then pure tt else update_status env org rec.id status no_fields

  -- The second half of `EvaluateEligibility`.
  unfoldable pub write_evaluated :
      Uuid → Record D × CanonicalEWayBill D → Action (Ways D) EligibilityResult
  unfolding evaluate status_of write_status
  write_evaluated org (rec, bill) = do
    let (req, missing) = evaluate portal.rules bill env.now
    write_status org rec (status_of req)
    record_audit "ewaybill.eligibility_evaluated" rec.id
    pure (record { requirement = req; missing = missing; record_id = rec.id })

  unfoldable pub evaluate_eligibility : Uuid → Uuid → Action (Ways D) EligibilityResult
  unfolding write_evaluated
  evaluate_eligibility org doc = do
    found ← get_or_create_free_portal_record portal env org doc
    write_evaluated org found

  abbrev pub patched : TransportInfoParams D → CanonicalEWayBill D → CanonicalEWayBill D
  patched p bill = record bill {
    transport = record bill.transport {
      vehicle_number = given p.vehicle_number bill.transport.vehicle_number;
      transporter_id = given p.transporter_id bill.transport.transporter_id;
      transporter_name = given p.transporter_name bill.transport.transporter_name;
      distance_km = given p.distance_km bill.transport.distance_km;
    };
  }

  unfoldable pub update_transport_info :
      Uuid → Uuid → TransportInfoParams D → Action (Ways D) EligibilityResult
  unfolding evaluate_eligibility
  update_transport_info org doc p = do
    rec ← get_by_sales_document_id org doc
    bill ← lift (stored_bill rec)
    update_status env org rec.id rec.status
        (record no_fields { canonical_snapshot = some (patched p bill) })
    evaluate_eligibility org doc

  -- What follows the exporter's answer.
  unfoldable pub finish_upload :
      Uuid → Record D → Result PreparedFile → Action (Ways D) (Result (PreparedFile × Record D))
  finish_upload org rec (err e) = do
    attempt (
        update_status env org rec.id needs_information
          (record no_fields { error_message = some (portal.error_text e) }))
    pure (err e)
  finish_upload org rec (ok file) = do
    update_status env org rec.id awaiting_portal_completion
        (record no_fields { prepared_file_name = some file.file_name; prepared_at = some env.now })
    record_audit "ewaybill.portal_upload_prepared" rec.id
    pure (
        ok (
          file,
          record rec {
            status = awaiting_portal_completion;
            prepared_file_name = some file.file_name;
          },
        ))

  unfoldable pub upload : Uuid → Uuid → Action (Ways D) (Result (PreparedFile × Record D))
  unfolding finish_upload
  upload org doc = do
    rec ← get_by_sales_document_id org doc
    bill ← lift (stored_bill rec)
    update_status env org rec.id preparing no_fields
    finish_upload org rec (portal.prepare_upload bill)

  unfoldable pub upload_if_ready :
      Uuid → Uuid → EligibilityResult → Action (Ways D) (Result (PreparedFile × Record D))
  unfolding upload
  upload_if_ready org doc elig = elim elig.requirement [
    | req_not_required ↦ pure (err not_eligible)
    | req_ready ↦ upload org doc
    | req_needs_information ↦ pure (err missing_information)
    | req_required ↦ pure (err missing_information)
  ]

  unfoldable pub prepare_free_portal_upload :
      Uuid → Uuid → Action (Ways D) (Result (PreparedFile × Record D))
  unfolding upload_if_ready
  prepare_free_portal_upload org doc = do
    elig ← evaluate_eligibility org doc
    upload_if_ready org doc elig

module _ {D : Type 0} (env : Env) where
  -- The update and the audit entry of a result that is linked.
  unfoldable pub link_result :
      Uuid → Record D → ManualResultParams → Source → String → Action (Ways D) (Record D)
  link_result org rec p source action = do
    update_status env org rec.id generated (record no_fields {
      ewb_number = some p.ewb_number;
      valid_from = some p.valid_from;
      valid_until = some p.valid_until;
      source = some source;
    })
    record_audit action rec.id
    pure (record rec {
      status = generated;
      ewb_number = some p.ewb_number;
      valid_from = some p.valid_from;
      valid_until = some p.valid_until;
      source = some source;
    })

  unfoldable pub record_manual_result :
      Uuid → Uuid → ManualResultParams → Action (Ways D) (Record D)
  unfolding link_result
  record_manual_result org doc p = do
    rec ← get_by_sales_document_id org doc
    link_result org rec p source_manual_portal "ewaybill.manual_result_recorded"

  unfoldable pub matches : ImportedResultParams → CanonicalEWayBill D → Bool
  matches p bill =
      str_eq p.claimed_invoice_number bill.invoice_number
      && (p.claimed_invoice_date == bill.invoice_date)
      && str_eq p.claimed_supplier_gstin bill.supplier.gstin
      && str_eq p.claimed_document_type bill.document_type

  unfoldable pub link_if_matching :
      Uuid
      → ImportedResultParams
      → Record D
      → CanonicalEWayBill D
      → Action (Ways D) (Result (Record D))
  unfolding matches
  link_if_matching org p rec bill =
      if matches p bill
      then (do
        linked ← link_result org rec p.result source_imported_file "ewaybill.import_result_linked"
        pure (ok linked))
      else (do
        record_audit "ewaybill.import_result_mismatch_rejected" rec.id
        pure (err result_mismatch))

  unfoldable pub import_and_verify_result :
      Uuid → Uuid → ImportedResultParams → Action (Ways D) (Result (Record D))
  unfolding link_if_matching
  import_and_verify_result org doc p = do
    rec ← get_by_sales_document_id org doc
    bill ← lift (stored_bill rec)
    link_if_matching org p rec bill
