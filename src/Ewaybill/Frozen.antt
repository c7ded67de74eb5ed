-- ===== src/Ewaybill/Frozen.antt =====
-- The bill that is captured for a document stays the one that is evaluated.
use mathlib.Core.Path.{subst, ap₂}
use billing_platform.Base.{
  ℕ, ◌≡◌, refl, sym, ap, ◌∙◌, ◌&&◌, inl, inr, true, none, some, List, [], ◌∷◌, ◌++◌, if◌then◌else◌,
  Result, ok, err, Uuid, Time, ◌==◌, leb, All, arith, Bool-cases, Option-cases, Result-cases,
  String,
}
use billing_platform.Decimal.{Decimal}
use billing_platform.Transaction.{
  Env, ◌>>=◌, bind_ok, lift_ok, read_ok, state_of, pure, Keeps, Keeps-pure,
}
use billing_platform.Ewaybill.Types.{
  Status, not_required, Mode, free_portal, unset_mode, automatic_api, CanonicalEWayBill, Record,
}
use billing_platform.Ewaybill.Eligibility.{evaluate}
use billing_platform.Ewaybill.Records.{
  Ways, latest, written, update_rows, has_row, update, update_status, inserted, has_id, create,
  draw_id, find_record, record_audit, no_fields,
}
use billing_platform.Ewaybill.Portal.{
  Portal, EligibilityResult, capture, reuse_or_capture, get_or_create_free_portal_record,
  write_status, write_evaluated, evaluate_eligibility, new_record, is_free_portal, is_settled,
}
use billing_platform.Ewaybill.Snapshot.{latest-update_rows, changed_if, mapped}

pub eq_self : (a : ℕ) → (a == a) ≡ true
eq_self a = ground arith

is_free_portal_ok : (mode : Mode) → is_free_portal mode ≡ true → mode ≡ free_portal
is_free_portal_ok free_portal h = refl
is_free_portal_ok unset_mode h = absurd (cc h)
is_free_portal_ok automatic_api h = absurd (cc h)

module _ {D : Type 0} where
  abbrev pub rows_of : Ways D → List (Record D)
  rows_of w = w.rows

  pub update_ok :
      (org id : Uuid) (change : Record D → Record D) (w w' : Ways D) (u : Unit {0})
      → update org id change w ≡ ok (u, w')
      → w'.rows ≡ update_rows org id change w.rows
  unfolding update
  update_ok org id change w w' u h = elim (Bool-cases (has_row org id w.rows)) [
    | inl e ↦ sym (ap (λ r. (state_of w r).rows) (rw (update, e) at h))
    | inr e ↦ absurd (cc (rw (update, e) at h))
  ]

  pub create_ok :
      (env : Env) (r : Record D) (w w' : Ways D) (u : Unit {0})
      → create env r w ≡ ok (u, w')
      → w'.rows ≡ w.rows ++ (inserted env.now r ∷ [])
  unfolding create
  create_ok env r w w' u h = elim (Bool-cases (has_id r.id w.rows)) [
    | inl e ↦ absurd (cc (rw (create, e) at h))
    | inr e ↦ sym (ap (λ o. (state_of w o).rows) (rw (create, e) at h))
  ]

  pub draw_id-rows : (env : Env) → Keeps rows_of (draw_id {D = D} env)
  unfolding draw_id
  draw_id-rows env w w' id h = elim (Result-cases (env.new_id w.drawn)) [
    | inr (x, e) ↦ absurd (cc (rw (e, draw_id) at h))
    | inl (fresh, e) ↦ sym (ap (λ r. (state_of w r).rows) (rw (e, draw_id) at h))
  ]

  record_audit-rows : (action : String) (id : Uuid) → Keeps rows_of (record_audit {D = D} action id)
  unfolding record_audit
  record_audit-rows action id w w' u h = sym (ap (λ r. (state_of w r).rows) h)

  -- A row that was created last is the one that is found.
  pub latest-append :
      (org doc : Uuid) (rows : List (Record D)) (new : Record D)
      → (new.organisation_id == org) ≡ true
      → (new.sales_document_id == doc) ≡ true
      → All (λ r. leb r.created_at new.created_at ≡ true) rows
      → latest org doc (rows ++ (new ∷ [])) ≡ some new
  unfolding latest
  latest-append org doc [] new own of_doc older = rw (latest, own, of_doc) refl
  latest-append org doc (r ∷ rows) new own of_doc older =
      let rest = latest-append org doc rows new own of_doc older.1 in
      elim (Bool-cases ((r.organisation_id == org) && (r.sales_document_id == doc))) [
        | inl e ↦ rw (latest, e, rest, older.0) refl
        | inr e ↦ rw (latest, e) rest
      ]

  -- The document's row holds this bill.
  pub record Holds (org doc : Uuid) (bill : CanonicalEWayBill D) (rows : List (Record D))
      : Type 0 where
    pub row : Record D
    pub found : latest org doc rows ≡ some row
    pub by_portal : row.mode ≡ free_portal
    pub captured : row.canonical_snapshot ≡ some bill

  written-Holds :
      (org doc id : Uuid) (now : Time) (status : Status) (bill : CanonicalEWayBill D)
      (rows : List (Record D))
      → Holds org doc bill rows
      → Holds org doc bill (update_rows org id (written now status no_fields) rows)
  written-Holds org doc id now status bill rows h =
      let change = written {D = D} now status no_fields in
      let found =
        latest-update_rows org id doc change rows (λ r. (refl, refl, refl))
        ∙ ap (mapped (changed_if org id change)) h.found in
      elim (Bool-cases ((h.row.id == id) && (h.row.organisation_id == org))) [
        | inl e ↦ record {
          row = change h.row;
          found = found ∙ ap (λ t. some (if t then change h.row else h.row)) e;
          by_portal = h.by_portal;
          captured = h.captured;
        }
        | inr e ↦ record {
          row = h.row;
          found = found ∙ ap (λ t. some (if t then change h.row else h.row)) e;
          by_portal = h.by_portal;
          captured = h.captured;
        }
      ]

abbrev pub value_of : {A S : Type 0} → A → Result (A × S) → A
value_of other (ok (a, s)) = a
value_of other (err e) = other

abbrev bill_of :
    {D : Type 0}
    → CanonicalEWayBill D
    → Result ((Record D × CanonicalEWayBill D) × Ways D)
    → CanonicalEWayBill D
bill_of other (ok (found, w)) = found.1
bill_of other (err e) = other

module _ {D : Type 0} (portal : Portal D) (env : Env) where
  abbrev IsOlder : List (Record D) → Type 0
  IsOlder = All (λ r. leb r.created_at env.now ≡ true)

  capture-Holds :
      (org doc : Uuid) (w w' : Ways D) (rec : Record D) (bill : CanonicalEWayBill D)
      → IsOlder w.rows
      → capture portal env org doc w ≡ ok ((rec, bill), w')
      → Holds org doc bill w'.rows
  unfolding capture update_status
  capture-Holds org doc w w' rec bill older h =
      let (b, w1, e1, h1) = bind_ok _ _ w h in
      let (id, w2, e2, h2) = bind_ok _ _ w1 h1 in
      let (u3, w3, e3, h3) = bind_ok _ _ w2 h2 in
      let (u4, w4, e4, h4) = bind_ok _ _ w3 h3 in
      let made : Record D = inserted env.now (new_record portal env org doc id b) in
      let change : Record D → Record D =
        written env.now not_required (record no_fields { canonical_snapshot = some b }) in
      let before : w2.rows ≡ w.rows =
        draw_id-rows env w1 w2 id e2 ∙ ap rows_of (lift_ok _ w e1).1 in
      let listed : latest org doc w3.rows ≡ some made =
        ap (latest org doc) (create_ok env _ w2 w3 u3 e3 ∙ ap (λ rows. rows ++ (made ∷ [])) before)
        ∙ latest-append org doc w.rows made (eq_self org) (eq_self doc) older in
      let same_bill : b ≡ bill = ap (bill_of b) h4 in
      record {
        row = change made;
        found =
            ap (latest org doc)
              (Keeps-pure rows_of _ w4 w' _ h4 ∙ update_ok org id change w3 w4 u4 e4)
            ∙ latest-update_rows org id doc change w3.rows (λ r. (refl, refl, refl))
            ∙ ap (mapped (changed_if org id change)) listed
            ∙ ap (λ t. some (if t then change made else made))
                (ap₂ (λ s t. s && t) (eq_self id) (eq_self org));
        by_portal = refl;
        captured = ap some same_bill;
      }

  reuse_or_capture-Holds :
      (org doc : Uuid) (w w' : Ways D) (rec : Record D) (bill : CanonicalEWayBill D)
      → IsOlder w.rows
      → reuse_or_capture portal env org doc (latest org doc w.rows) w ≡ ok ((rec, bill), w')
      → Holds org doc bill w'.rows
  unfolding reuse_or_capture
  reuse_or_capture-Holds org doc w w' rec bill older h =
      elim (Option-cases (latest org doc w.rows)) [
        | inl n ↦ capture-Holds org doc w w' rec bill older (rw (n, reuse_or_capture) at h)
        | inr (r, e) ↦ elim (Bool-cases (is_free_portal r.mode)) [
          | inr m ↦ capture-Holds org doc w w' rec bill older (rw (e, reuse_or_capture, m) at h)
          | inl m ↦ elim (Option-cases r.canonical_snapshot) [
            | inl n ↦
                capture-Holds org doc w w' rec bill older (rw (e, reuse_or_capture, m, n) at h)
            | inr (b, s) ↦
                let k : pure (r, b) w ≡ ok ((rec, bill), w') =
                  rw (e, reuse_or_capture, m, s) at h in
                let same : b ≡ bill = ap (bill_of b) k in
                record {
                  row = r;
                  found = ap (latest org doc) (Keeps-pure rows_of _ w w' _ k) ∙ e;
                  by_portal = is_free_portal_ok r.mode m;
                  captured = s ∙ ap some same;
                }
          ]
        ]
      ]

  get_or_create-Holds :
      (org doc : Uuid) (w w' : Ways D) (rec : Record D) (bill : CanonicalEWayBill D)
      → IsOlder w.rows
      → get_or_create_free_portal_record portal env org doc w ≡ ok ((rec, bill), w')
      → Holds org doc bill w'.rows
  unfolding get_or_create_free_portal_record find_record
  get_or_create-Holds org doc w w' rec bill older h =
      let (found, w1, e1, h1) = bind_ok _ _ w h in
      let (is_found, is_w) = read_ok (latest org doc w.rows) w e1 in
      reuse_or_capture-Holds org doc w w' rec bill older (
        subst (λ f. reuse_or_capture portal env org doc f w ≡ ok ((rec, bill), w')) is_found
          (subst (λ v. reuse_or_capture portal env org doc found v ≡ ok ((rec, bill), w')) is_w h1))

  -- A row that holds a bill is found again, with that bill, whatever the live data are.
  Holds-reused :
      (org doc : Uuid) (w : Ways D) (bill : CanonicalEWayBill D)
      → Holds org doc bill w.rows
      → (rec : Record D) × (get_or_create_free_portal_record portal env org doc w
          ≡ ok ((rec, bill), w))
  unfolding get_or_create_free_portal_record find_record reuse_or_capture ◌>>=◌
  Holds-reused org doc w bill h = (
    h.row,
    ap (λ o. reuse_or_capture portal env org doc o w) h.found
        ∙ ap₂
            (λ m s.
              (if is_free_portal m
                  then elim s [ none ↦ capture portal env org doc | some b ↦ pure (h.row, b) ]
                  else capture portal env org doc)
                w)
            h.by_portal h.captured,
  )

module _ {D : Type 0} ⦃d : Decimal D⦄ (portal : Portal D) (env : Env) where
  write_status-Holds :
      (org doc : Uuid) (rec : Record D) (status : Status) (bill : CanonicalEWayBill D)
      (w w' : Ways D) (u : Unit {0})
      → write_status portal env org rec status w ≡ ok (u, w')
      → Holds org doc bill w.rows
      → Holds org doc bill w'.rows
  unfolding write_status update_status
  write_status-Holds org doc rec status bill w w' u h v =
      elim (Bool-cases (is_settled rec.status)) [
        | inl e ↦
            subst (Holds org doc bill) (ap (λ r. (state_of w r).rows) (rw (write_status, e) at h)) v
        | inr e ↦
            subst (Holds org doc bill)
              (sym (update_ok org rec.id _ w w' u (rw (write_status, e) at h)))
              (written-Holds org doc rec.id env.now status bill w.rows v)
      ]

  -- What an evaluation leaves, and what it was of.
  evaluate_eligibility-Holds :
      (org doc : Uuid) (w w' : Ways D) (r : EligibilityResult)
      → IsOlder portal env w.rows
      → evaluate_eligibility portal env org doc w ≡ ok (r, w')
      → (bill : CanonicalEWayBill D) × Holds org doc bill w'.rows
        × (r.requirement ≡ (evaluate portal.rules bill env.now).0)
        × (r.missing ≡ (evaluate portal.rules bill env.now).1)
  unfolding evaluate_eligibility write_evaluated
  evaluate_eligibility-Holds org doc w w' r older h =
      let ((rec, bill), w1, e1, h1) = bind_ok _ _ w h in
      let (u2, w2, e2, h2) = bind_ok _ _ w1 h1 in
      let (u3, w3, e3, h3) = bind_ok _ _ w2 h2 in
      let held = get_or_create-Holds portal env org doc w w1 rec bill older e1 in
      let rows_kept : w'.rows ≡ w2.rows =
        Keeps-pure rows_of _ w3 w' r h3 ∙ record_audit-rows _ _ w2 w3 u3 e3 in
      (
        bill,
        subst (Holds org doc bill) (sym rows_kept)
            (write_status-Holds org doc rec _ bill w1 w2 u2 e2 held),
        sym (ap (λ o. (value_of r o).requirement) h3),
        sym (ap (λ o. (value_of r o).missing) h3),
      )

  -- An evaluation of a document that holds a bill is of that bill.
  evaluate_eligibility-reuse :
      (org doc : Uuid) (w w' : Ways D) (r : EligibilityResult) (bill : CanonicalEWayBill D)
      → Holds org doc bill w.rows
      → evaluate_eligibility portal env org doc w ≡ ok (r, w')
      → (r.requirement ≡ (evaluate portal.rules bill env.now).0)
        × (r.missing ≡ (evaluate portal.rules bill env.now).1)
  unfolding evaluate_eligibility write_evaluated
  evaluate_eligibility-reuse org doc w w' r bill held h =
      let ((rec, other), w1, e1, h1) = bind_ok _ _ w h in
      let (u2, w2, e2, h2) = bind_ok _ _ w1 h1 in
      let (u3, w3, e3, h3) = bind_ok _ _ w2 h2 in
      let (found, again) = Holds-reused portal env org doc w bill held in
      let same : other ≡ bill = ap (bill_of bill) (sym e1 ∙ again) in
      (
        sym (ap (λ o. (value_of r o).requirement) h3)
            ∙ ap (λ b. (evaluate portal.rules b env.now).0) same,
        sym (ap (λ o. (value_of r o).missing) h3)
            ∙ ap (λ b. (evaluate portal.rules b env.now).1) same,
      )

-- Where no row of the table was created after the present, an evaluation of a document that
-- succeeded is followed by one with the same outcome, requirement and missing fields, at the same
-- time and by the same rules, whatever the live invoice data are by then.
pub evaluate_eligibility-frozen :
    {D : Type 0} ⦃d : Decimal D⦄ (portal later : Portal D) (env env' : Env) (org doc : Uuid)
    (w w' w'' : Ways D) (r r' : EligibilityResult)
    → IsOlder portal env w.rows
    → later.rules ≡ portal.rules
    → env'.now ≡ env.now
    → evaluate_eligibility portal env org doc w ≡ ok (r, w')
    → evaluate_eligibility later env' org doc w' ≡ ok (r', w'')
    → (r'.requirement ≡ r.requirement) × (r'.missing ≡ r.missing)
evaluate_eligibility-frozen portal later env env' org doc w w' w'' r r' older rules now h k =
    let (bill, held, req, missing) = evaluate_eligibility-Holds portal env org doc w w' r older h in
    let (req', missing') = evaluate_eligibility-reuse later env' org doc w' w'' r' bill held k in
    (
      req' ∙ ap₂ (λ rs t. (evaluate rs bill t).0) rules now ∙ sym req,
      missing' ∙ ap₂ (λ rs t. (evaluate rs bill t).1) rules now ∙ sym missing,
    )
