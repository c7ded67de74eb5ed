-- ===== src/Ewaybill/Records.antt =====
-- The repository of internal/modules/ewaybill/pg/pg.go, and the service's audit trail.
use billing_platform.Base.{
  ◌&&◌, Bool, true, false, Option, none, some, List, [], ◌∷◌, ◌++◌, String, if◌then◌else◌, Result,
  ok, err, external, not_found, Uuid, Time, ◌==◌, leb, ℕ, suc,
}
use billing_platform.Transaction.{Action, Env}
use billing_platform.Ewaybill.Types.{
  Status, Mode, unset_mode, free_portal, automatic_api, PartBUpdate, Record, UpdateFields,
}

-- An audit entry, less its JSON state: the action and the record.
abbrev pub Trace : Type 0
Trace = String × Uuid

-- The table ewaybill_records, the audit trail, and how many identifiers were drawn.
pub record Ways (D : Type 0) : Type 0 where
  pub rows : List (Record D)
  pub traces : List Trace
  pub drawn : ℕ

abbrev pub coalesce : {A : Type 0} → Option A → Option A → Option A
coalesce none old = old
coalesce (some new) old = some new

abbrev pub stored_mode : Mode → Mode
stored_mode unset_mode = automatic_api
stored_mode free_portal = free_portal
stored_mode automatic_api = automatic_api

module _ {D : Type 0} where
  -- `ORDER BY created_at DESC LIMIT 1`. The query leaves open which of two rows of one time it
  -- returns; here it is the one that was inserted later.
  unfoldable pub latest : Uuid → Uuid → List (Record D) → Option (Record D)
  latest org doc [] = none
  latest org doc (r ∷ rows) =
      let rest = latest org doc rows in
      if (r.organisation_id == org) && (r.sales_document_id == doc)
      then elim rest [
        | none ↦ some r
        | some x ↦ if leb r.created_at x.created_at then some x else some r
      ]
      else rest

  -- The columns of the INSERT; the others have their defaults.
  abbrev pub inserted : Time → Record D → Record D
  inserted now r = record r {
    ewb_number = none;
    mode = stored_mode r.mode;
    source = none;
    canonical_snapshot = none;
    prepared_file_name = none;
    prepared_at = none;
    valid_from = none;
    valid_until = none;
    part_b_history = [];
    closed_at = none;
    closed_by_role = none;
    error_code = none;
    error_message = none;
    correlation_id = none;
    cancelled_at = none;
    cancel_reason = none;
    created_at = now;
    updated_at = now;
  }

  -- A row with an identifier that stands breaks the primary key.
  unfoldable pub has_id : Uuid → List (Record D) → Bool
  has_id id [] = false
  has_id id (r ∷ rows) = let rest = has_id id rows in if r.id == id then true else rest

  unfoldable pub create : Env → Record D → Action (Ways D) (Unit {0})
  unfolding has_id
  create env r w =
      if has_id r.id w.rows
      then err (external "unique violation")
      else ok (tt, record w { rows = w.rows ++ (inserted env.now r ∷ []) })

  abbrev pub written : Time → Status → UpdateFields D → Record D → Record D
  written now status f r = record r {
    status = status;
    ewb_number = coalesce f.ewb_number r.ewb_number;
    valid_from = coalesce f.valid_from r.valid_from;
    valid_until = coalesce f.valid_until r.valid_until;
    ship_to_gstin = coalesce f.ship_to_gstin r.ship_to_gstin;
    closed_at = coalesce f.closed_at r.closed_at;
    closed_by_role = coalesce f.closed_by_role r.closed_by_role;
    error_code = coalesce f.error_code r.error_code;
    error_message = coalesce f.error_message r.error_message;
    correlation_id = coalesce f.correlation_id r.correlation_id;
    cancelled_at = coalesce f.cancelled_at r.cancelled_at;
    cancel_reason = coalesce f.cancel_reason r.cancel_reason;
    source = coalesce f.source r.source;
    canonical_snapshot = coalesce f.canonical_snapshot r.canonical_snapshot;
    prepared_file_name = coalesce f.prepared_file_name r.prepared_file_name;
    prepared_at = coalesce f.prepared_at r.prepared_at;
    updated_at = now;
  }

  unfoldable pub update_rows :
      Uuid → Uuid → (Record D → Record D) → List (Record D) → List (Record D)
  update_rows org id change [] = []
  update_rows org id change (r ∷ rows) =
      (if (r.id == id) && (r.organisation_id == org) then change r else r)
      ∷ update_rows org id change rows

  unfoldable pub has_row : Uuid → Uuid → List (Record D) → Bool
  has_row org id [] = false
  has_row org id (r ∷ rows) =
      let rest = has_row org id rows in
      if (r.id == id) && (r.organisation_id == org) then true else rest

  -- An UPDATE, with the error that the repository makes of no rows.
  unfoldable pub update : Uuid → Uuid → (Record D → Record D) → Action (Ways D) (Unit {0})
  unfolding has_row update_rows
  update org id change w =
      if has_row org id w.rows
      then ok (tt, record w { rows = update_rows org id change w.rows })
      else err not_found

  unfoldable pub update_status :
      Env → Uuid → Uuid → Status → UpdateFields D → Action (Ways D) (Unit {0})
  unfolding update
  update_status env org id status f = update org id (written env.now status f)

  unfoldable pub append_part_b_history :
      Env → Uuid → Uuid → PartBUpdate → Action (Ways D) (Unit {0})
  unfolding update
  append_part_b_history env org id entry =
      update org id
        (λ r. record r { part_b_history = r.part_b_history ++ (entry ∷ []); updated_at = env.now })

  -- `GetBySalesDocumentID`, with its error for no row.
  unfoldable pub get_by_sales_document_id : Uuid → Uuid → Action (Ways D) (Record D)
  unfolding latest
  get_by_sales_document_id org doc w = elim (latest org doc w.rows) [
    | none ↦ err not_found
    | some r ↦ ok (r, w)
  ]

  -- The same where the caller goes on without a row.
  unfoldable pub find_record : Uuid → Uuid → Action (Ways D) (Option (Record D))
  unfolding latest
  find_record org doc w = ok (latest org doc w.rows, w)

  unfoldable pub draw_id : Env → Action (Ways D) Uuid
  draw_id env w = elim (env.new_id w.drawn) [
    | ok id ↦ ok (id, record w { drawn = suc w.drawn })
    | err e ↦ err e
  ]

  -- `recordAudit`, which never fails.
  unfoldable pub record_audit : String → Uuid → Action (Ways D) (Unit {0})
  record_audit action id w = ok (tt, record w { traces = w.traces ++ ((action, id) ∷ []) })

  abbrev pub no_fields : UpdateFields D
  no_fields = record {
    ewb_number = none;
    valid_from = none;
    valid_until = none;
    ship_to_gstin = none;
    closed_at = none;
    closed_by_role = none;
    error_code = none;
    error_message = none;
    correlation_id = none;
    cancelled_at = none;
    cancel_reason = none;
    source = none;
    canonical_snapshot = none;
    prepared_file_name = none;
    prepared_at = none;
  }

  -- The caller's transaction: an error that the service returned loses what it wrote.
  unfoldable pub run_scoped : {A : Type 0} → Action (Ways D) (Result A) → Action (Ways D) A
  run_scoped m w = elim (m w) [
    | err e ↦ err e
    | ok (outcome, w') ↦ elim outcome [ ok a ↦ ok (a, w') | err e ↦ err e ]
  ]

  -- `_ = step`: its error is dropped.
  unfoldable pub attempt : Action (Ways D) (Unit {0}) → Action (Ways D) (Unit {0})
  attempt m w = elim (m w) [ ok (u, w') ↦ ok (tt, w') | err e ↦ ok (tt, w) ]
