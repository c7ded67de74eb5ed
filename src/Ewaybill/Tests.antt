-- ===== src/Ewaybill/Tests.antt =====
-- A document's e-Way Bill on the fixed decimals, and the theorems at it.
use billing_platform.Base.{
  ◌+◌, ◌≡◌, ◌↔◌, ◌⊎◌, refl, true, false, none, some, List, [], ◌∷◌, ok, err, Result, Error,
  forbidden, String, IsAmong,
}
use billing_platform.Base.Int.{ℤ, pos}
use billing_platform.Decimal.{Decimal}
use billing_platform.Decimal.Fixed.{fixed}
use billing_platform.Transaction.{Env, ◌>>=◌, state_of}
use billing_platform.Ewaybill.Types.{
  unset_mode, awaiting_portal_completion, generated, terminal, Party, Item, CanonicalEWayBill,
  consignment_value, Record, Status,
}
use billing_platform.Ewaybill.Eligibility.{
  Rule, MissingInfo, req_ready, applies_on, is_of_state, is_national, match_rules, select_rule,
  missing_codes, missing_of, evaluate,
}
use billing_platform.Ewaybill.Records.{
  Ways, latest, create, has_id, update_rows, has_row, update, update_status, find_record,
  get_by_sales_document_id, draw_id, record_audit,
}
use billing_platform.Ewaybill.Generate.{
  GenerateParams, Provider, create_queued, settle, submit, submit_found, generate_for_document,
}
use billing_platform.Ewaybill.Portal.{
  Portal, EligibilityResult, ManualResultParams, capture, reuse_or_capture,
  get_or_create_free_portal_record, write_status, write_evaluated, status_of, evaluate_eligibility,
  finish_upload, upload, upload_if_ready, prepare_free_portal_upload, link_result,
  record_manual_result,
}
use billing_platform.Ewaybill.Checks.{IsComplete, evaluate-ready_iff, select_rule-fits}
use billing_platform.Ewaybill.Frozen.{evaluate_eligibility-frozen}
use billing_platform.Ewaybill.Issued.{generate_for_document-once}

abbrev party : Party
party = record {
  legal_name = "A";
  trade_name = "";
  gstin = "29AAA";
  state_code = "29";
  address_line1 = "";
  address_line2 = "";
  city = "";
  postal_code = "";
  phone = "";
}

abbrev item : Item ℤ
item = record {
  line_ref = "1";
  description = "";
  hsn_sac_code = "8471";
  quantity = pos 1;
  unit_code = "";
  taxable_amount = pos 90;
  gst_rate = pos 18;
  cgst_rate = pos 9;
  sgst_rate = pos 9;
  igst_rate = pos 0;
  cess_rate = pos 0;
}

abbrev bill : CanonicalEWayBill ℤ
bill = record {
  sales_document_id = 4;
  invoice_number = "INV/1";
  invoice_date = 90;
  document_type = "INV";
  supply_place_code = "29";
  supplier = party;
  recipient = party;
  dispatch_from = party;
  ship_to = party;
  items = item ∷ [];
  tax = record {
    taxable_value = pos 90;
    cgst = pos 5;
    sgst = pos 5;
    igst = pos 0;
    cess = pos 0;
    grand_total = pos 100;
  };
  transport = record {
    mode = "";
    vehicle_number = "KA01";
    transporter_id = "";
    transporter_name = "";
    distance_km = pos 12;
  };
  snapshot_taken_at = 95;
}

abbrev national_rule : Rule ℤ
national_rule = record {
  state_code = none;
  min_consignment_value = pos 500;
  valid_from = 0;
  valid_until = none;
}

abbrev state_rule : Rule ℤ
state_rule = record national_rule { state_code = some "29"; min_consignment_value = pos 50 }

abbrev rules : List (Rule ℤ)
rules = state_rule ∷ national_rule ∷ []

abbrev env : Env
env = record {
  now = 100;
  new_id = λ n. ok (1000 + n);
  require = λ principal code. ok tt;
  uuid_text = λ id. "";
  pick = λ n. 0;
}

abbrev nothing : Ways ℤ
nothing = record { rows = []; traces = []; drawn = 0 }

abbrev text : Error → String
text e = "error"

abbrev portal : Portal ℤ
portal = record {
  live_bill = λ org doc. ok bill;
  rules = rules;
  prepare_upload = λ b. ok (record { file_name = "bill.json"; content = "{}" });
  error_text = text;
}

-- The portal on a day when the customer's data are gone.
abbrev later : Portal ℤ
later = record portal { live_bill = λ org doc. err forbidden }

chosen : select_rule rules "29" 90 ≡ some state_rule
unfolding select_rule match_rules applies_on
chosen = refl

select_rule-fits_example :
    (applies_on state_rule 90 ≡ true)
    × ((is_of_state "29" state_rule ≡ true) ⊎ (is_national state_rule ≡ true))
    × ((x : Rule ℤ)
        → IsAmong x rules
        → applies_on x 90 ≡ true
        → is_of_state "29" x ≡ true
        → is_of_state "29" state_rule ≡ true)
select_rule-fits_example = select_rule-fits "29" 90 rules state_rule chosen

evaluate-ready_iff_example : ((evaluate rules bill 100).0 ≡ req_ready) ↔ (
    (rule : Rule ℤ) × (select_rule rules "29" 90 ≡ some rule)
    × (Decimal.less_than fixed (pos 100) rule.min_consignment_value ≡ false)
    × IsComplete bill 100)
evaluate-ready_iff_example = evaluate-ready_iff rules bill 100

abbrev params : GenerateParams ℤ
params = record {
  sales_document_id = 4;
  irn = "irn";
  transporter_id = "";
  transporter_name = "";
  transport_mode = "";
  vehicle_number = "KA01";
  distance_km = pos 12;
  ship_to_gstin = "URP";
}

abbrev provider : Provider ℤ
provider = record {
  generate_by_irn = λ p. ok (record { ewb_number = "E1"; valid_from = 100; valid_until = 200 });
  cancel_ewaybill = λ number reason. ok tt;
  error_text = text;
}

-- A provider that would issue another number.
abbrev other_provider : Provider ℤ
other_provider = record provider {
  generate_by_irn = λ p. ok (record { ewb_number = "E2"; valid_from = 100; valid_until = 200 });
}

abbrev after : {A : Type 0} → Result (A × Ways ℤ) → Ways ℤ
after r = state_of nothing r

abbrev issued : Ways ℤ
issued = after (generate_for_document provider env 7 params nothing)

abbrev issued_record : Record ℤ
issued_record = record {
  id = 1000;
  organisation_id = 7;
  sales_document_id = 4;
  einvoice_record_id = none;
  irn = some "irn";
  ewb_number = some "E1";
  status = generated;
  mode = unset_mode;
  source = none;
  canonical_snapshot = none;
  prepared_file_name = none;
  prepared_at = none;
  valid_from = none;
  valid_until = none;
  ship_to_gstin = some "URP";
  transporter_id = "";
  transporter_name = "";
  vehicle_number = "KA01";
  distance_km = some (pos 12);
  part_b_history = [];
  closed_at = none;
  closed_by_role = none;
  error_code = none;
  error_message = none;
  correlation_id = none;
  cancelled_at = none;
  cancel_reason = none;
  created_at = 0;
  updated_at = 0;
}

issues : generate_for_document provider env 7 params nothing ≡ ok (ok issued_record, issued)
unfolding generate_for_document submit_found create_queued submit settle find_record latest draw_id
    create has_id update_status update has_row update_rows ◌>>=◌
issues = refl

generate_for_document-once_example :
    (r : Record ℤ) × (generate_for_document other_provider env 7 params issued ≡ ok (ok r, issued))
generate_for_document-once_example =
    generate_for_document-once provider other_provider env env 7 params params nothing issued
      issued_record tt refl issues

abbrev evaluated : Ways ℤ
evaluated = after (evaluate_eligibility portal env 7 4 nothing)

abbrev evaluated_again : Ways ℤ
evaluated_again = after (evaluate_eligibility later env 7 4 evaluated)

abbrev is_ready : EligibilityResult
is_ready = record { requirement = req_ready; missing = []; record_id = 1000 }

evaluates : evaluate_eligibility portal env 7 4 nothing ≡ ok (is_ready, evaluated)
unfolding evaluate_eligibility write_evaluated write_status status_of
    get_or_create_free_portal_record reuse_or_capture capture evaluate select_rule match_rules
    applies_on missing_of missing_codes consignment_value find_record latest draw_id create has_id
    update_status update has_row update_rows record_audit terminal ◌>>=◌
evaluates = refl

evaluates_again : evaluate_eligibility later env 7 4 evaluated ≡ ok (is_ready, evaluated_again)
unfolding evaluate_eligibility write_evaluated write_status status_of
    get_or_create_free_portal_record reuse_or_capture capture evaluate select_rule match_rules
    applies_on missing_of missing_codes consignment_value find_record latest draw_id create has_id
    update_status update has_row update_rows record_audit terminal ◌>>=◌
evaluates_again = refl

evaluate_eligibility-frozen_example : (req_ready ≡ req_ready) × (Path (List MissingInfo) [] [])
evaluate_eligibility-frozen_example =
    evaluate_eligibility-frozen portal later env env 7 4 nothing evaluated evaluated_again is_ready
      is_ready tt refl refl evaluates evaluates_again

-- A bill whose number was recorded, and whose upload is prepared once more, waits for the portal
-- again.
abbrev manual : ManualResultParams
manual = record { ewb_number = "E9"; valid_from = 100; valid_until = 200 }

abbrev linked : Ways ℤ
linked = after (record_manual_result env 7 4 manual evaluated)

abbrev status_after : List (Record ℤ) → Status
status_after [] = generated
status_after (r ∷ rows) = r.status

linked_status : status_after linked.rows ≡ generated
unfolding record_manual_result link_result get_by_sales_document_id evaluate_eligibility
    write_evaluated write_status status_of get_or_create_free_portal_record reuse_or_capture capture
    evaluate select_rule match_rules applies_on missing_of missing_codes consignment_value
    find_record latest draw_id create has_id update_status update has_row update_rows record_audit
    terminal ◌>>=◌
linked_status = refl

reset_by_upload :
    status_after (after (prepare_free_portal_upload portal env 7 4 linked)).rows
    ≡ awaiting_portal_completion
unfolding prepare_free_portal_upload upload_if_ready upload finish_upload record_manual_result
    link_result get_by_sales_document_id evaluate_eligibility write_evaluated write_status status_of
    get_or_create_free_portal_record reuse_or_capture capture evaluate select_rule match_rules
    applies_on missing_of missing_codes consignment_value find_record latest draw_id create has_id
    update_status update has_row update_rows record_audit terminal ◌>>=◌
reset_by_upload = refl
