-- ===== src/Ewaybill/Issued.antt =====
-- A document whose e-Way Bill was generated is not submitted again.
use mathlib.Core.Path.{subst, ap₂}
use billing_platform.Base.{
  ◌≡◌, refl, sym, ap, ◌∙◌, ◌&&◌, inl, inr, Bool, true, false, some, List, [], ◌∷◌, ◌++◌,
  if◌then◌else◌, Result, Error, ok, err, Uuid, ◌==◌, leb, All, Bool-cases, Option-cases,
}
use billing_platform.Transaction.{Env, ◌>>=◌, bind_ok, read_ok, pure, Keeps-pure}
use billing_platform.Ewaybill.Types.{Status, submitting, generated, terminal, Record, UpdateFields}
use billing_platform.Ewaybill.Records.{Ways, latest, written, update_status, inserted, find_record}
use billing_platform.Ewaybill.Generate.{
  GenerateParams, Issued, Provider, new_record, create_queued, settle, submit, submit_found,
  generate_for_document,
}
use billing_platform.Ewaybill.Snapshot.{latest-update_rows, changed_if, mapped}
use billing_platform.Ewaybill.Frozen.{
  update_ok, create_ok, draw_id-rows, latest-append, rows_of, eq_self, value_of,
}

first_true : (a b : Bool) → (a && b) ≡ true → a ≡ true
first_true true b h = refl
first_true false b h = absurd (cc h)

err_not_ok : {A : Type 0} (e : Error) (a : A) → Path (Result A) (err e) (ok a) → ⊥
err_not_ok e a h = cc

module _ {D : Type 0} where
  latest-org :
      (org doc : Uuid) (rows : List (Record D)) {r : Record D}
      → latest org doc rows ≡ some r
      → (r.organisation_id == org) ≡ true
  unfolding latest
  latest-org org doc [] h = absurd (cc h)
  latest-org org doc (x ∷ rows) {r} h =
      elim (Bool-cases ((x.organisation_id == org) && (x.sales_document_id == doc))) [
        | inr e ↦ latest-org org doc rows (rw (latest, e) at h)
        | inl e ↦
            let own : (x.organisation_id == org) ≡ true = first_true _ _ e in
            elim (Option-cases (latest org doc rows)) [
              | inl n ↦
                  let same : x ≡ r = cc (rw (latest, e, n) at h) in
                  ap (λ (y : Record D). y.organisation_id == org) (sym same) ∙ own
              | inr (y, s) ↦ elim (Bool-cases (leb x.created_at y.created_at)) [
                | inl l ↦
                    let same : y ≡ r = cc (rw (latest, e, s, l) at h) in
                    latest-org org doc rows (s ∙ ap some same)
                | inr l ↦
                    let same : x ≡ r = cc (rw (latest, e, s, l) at h) in
                    ap (λ (z : Record D). z.organisation_id == org) (sym same) ∙ own
              ]
            ]
      ]

  -- The document's row, with this identifier.
  abbrev Finds : Uuid → Uuid → Uuid → List (Record D) → Type 0
  Finds org doc id rows = (r : Record D) × (latest org doc rows ≡ some r) × ((r.id == id) ≡ true)

  -- The status that an update by the identifier leaves.
  update-status :
      (env : Env) (org doc id : Uuid) (status : Status) (f : UpdateFields D) (w w' : Ways D)
      (u : Unit {0})
      → Finds org doc id w.rows
      → update_status env org id status f w ≡ ok (u, w')
      → (r : Record D) × (latest org doc w'.rows ≡ some r)
        × ((r.id == id) ≡ true)
        × (r.status ≡ status)
  unfolding update_status
  update-status env org doc id status f w w' u (r, found, is_id) h =
      let change = written env.now status f in
      (
        change r,
        ap (latest org doc) (update_ok org id change w w' u h)
            ∙ latest-update_rows org id doc change w.rows (λ x. (refl, refl, refl))
            ∙ ap (mapped (changed_if org id change)) found
            ∙ ap (λ t. some (if t then change r else r))
                (ap₂ (λ s t. s && t) is_id (latest-org org doc w.rows found)),
        is_id,
        refl,
      )

  -- A row from which `GenerateForDocument` does not go on.
  abbrev IsFinal : Uuid → Uuid → List (Record D) → Type 0
  IsFinal org doc rows =
      (r : Record D) × (latest org doc rows ≡ some r) × (terminal r.status ≡ true)

module _ {D : Type 0} (provider : Provider D) (env : Env) where
  settle-IsFinal :
      (org doc : Uuid) (existing : Record D) (answer : Result Issued) (w w' : Ways D)
      (rec : Record D)
      → Finds org doc existing.id w.rows
      → settle provider env org existing answer w ≡ ok (ok rec, w')
      → IsFinal org doc w'.rows
  unfolding settle terminal
  settle-IsFinal org doc existing (err e) w w' rec finds h =
      let (u, w1, e1, h1) = bind_ok _ _ w h in absurd (err_not_ok e rec (ap (value_of (err e)) h1))
  settle-IsFinal org doc existing (ok resp) w w' rec finds h =
      let (u, w1, e1, h1) = bind_ok _ _ w h in
      let (row, found, is_id, status) =
        update-status env org doc existing.id generated _ w w1 u finds e1 in
      (row, ap (latest org doc) (Keeps-pure rows_of _ w1 w' _ h1) ∙ found, ap terminal status)

  submit-IsFinal :
      (org : Uuid) (p : GenerateParams D) (existing : Record D) (w w' : Ways D) (rec : Record D)
      → Finds org p.sales_document_id existing.id w.rows
      → submit provider env org p existing w ≡ ok (ok rec, w')
      → IsFinal org p.sales_document_id w'.rows
  unfolding submit
  submit-IsFinal org p existing w w' rec finds h =
      let (u, w1, e1, h1) = bind_ok _ _ w h in
      let (row, found, is_id, status) =
        update-status env org p.sales_document_id existing.id submitting _ w w1 u finds e1 in
      settle-IsFinal org p.sales_document_id existing (provider.generate_by_irn p) w1 w' rec
        (row, found, is_id) h1

  create_queued-Finds :
      (org : Uuid) (p : GenerateParams D) (w w' : Ways D) (rec : Record D)
      → All (λ r. leb r.created_at env.now ≡ true) w.rows
      → create_queued provider env org p w ≡ ok (rec, w')
      → Finds org p.sales_document_id rec.id w'.rows
  unfolding create_queued
  create_queued-Finds org p w w' rec older h =
      let (id, w1, e1, h1) = bind_ok _ _ w h in
      let (u, w2, e2, h2) = bind_ok _ _ w1 h1 in
      let made : Record D = inserted env.now (new_record provider env org id p) in
      let same_id : id ≡ rec.id = ap (λ o. (value_of (new_record provider env org id p) o).id) h2 in
      (
        made,
        ap (latest org p.sales_document_id) (
              Keeps-pure rows_of _ w2 w' _ h2
              ∙ create_ok env _ w1 w2 u e2
              ∙ ap (λ rows. rows ++ (made ∷ [])) (draw_id-rows env w w1 id e1))
            ∙ latest-append org p.sales_document_id w.rows made (eq_self org)
                (eq_self p.sales_document_id) older,
        ap (λ i. id == i) (sym same_id) ∙ eq_self id,
      )

  submit_found-IsFinal :
      (org : Uuid) (p : GenerateParams D) (w w' : Ways D) (rec : Record D)
      → All (λ r. leb r.created_at env.now ≡ true) w.rows
      → submit_found provider env org p (latest org p.sales_document_id w.rows) w ≡ ok (ok rec, w')
      → IsFinal org p.sales_document_id w'.rows
  unfolding submit_found
  submit_found-IsFinal org p w w' rec older h =
      let doc = p.sales_document_id in
      elim (Option-cases (latest org doc w.rows)) [
        | inl n ↦
            let (made, w1, e1, h1) =
              bind_ok (create_queued provider env org p) (submit provider env org p) w
                (rw (n, submit_found) at h) in
            submit-IsFinal org p made w1 w' rec (create_queued-Finds org p w w1 made older e1) h1
        | inr (existing, e) ↦ elim (Bool-cases (terminal existing.status)) [
          | inl t ↦
              let k : pure (ok existing) w ≡ ok (ok rec, w') = rw (e, submit_found, t) at h in
              (existing, ap (latest org doc) (Keeps-pure rows_of _ w w' _ k) ∙ e, t)
          | inr t ↦
              submit-IsFinal org p existing w w' rec (existing, e, eq_self existing.id)
                (rw (e, submit_found, t) at h)
        ]
      ]

  generate_for_document-IsFinal :
      (org : Uuid) (p : GenerateParams D) (w w' : Ways D) (rec : Record D)
      → All (λ r. leb r.created_at env.now ≡ true) w.rows
      → generate_for_document provider env org p w ≡ ok (ok rec, w')
      → IsFinal org p.sales_document_id w'.rows
  unfolding generate_for_document find_record
  generate_for_document-IsFinal org p w w' rec older h =
      let (found, w1, e1, h1) = bind_ok _ _ w h in
      let (is_found, is_w) = read_ok (latest org p.sales_document_id w.rows) w e1 in
      submit_found-IsFinal org p w w' rec older (
        subst (λ f. submit_found provider env org p f w ≡ ok (ok rec, w')) is_found
          (subst (λ v. submit_found provider env org p found v ≡ ok (ok rec, w')) is_w h1))

  -- A document whose latest row is final is left alone, and its row is returned.
  IsFinal-kept :
      (org : Uuid) (p : GenerateParams D) (w : Ways D)
      → IsFinal org p.sales_document_id w.rows
      → (r : Record D) × (generate_for_document provider env org p w ≡ ok (ok r, w))
  unfolding generate_for_document find_record submit_found ◌>>=◌
  IsFinal-kept org p w (r, found, final) = (
    r,
    ap (λ o. submit_found provider env org p o w) found
        ∙ ap (λ t. (if t then pure (ok r) else submit provider env org p r) w) final,
  )

-- Where no row of the table was created after the present, a call of GenerateForDocument that
-- returned a record is followed by calls for the same document that return a record and leave the
-- tables as they are, whatever provider they are given.
pub generate_for_document-once :
    {D : Type 0} (provider again : Provider D) (env env' : Env) (org : Uuid)
    (p p' : GenerateParams D) (w w' : Ways D) (rec : Record D)
    → All (λ r. leb r.created_at env.now ≡ true) w.rows
    → p'.sales_document_id ≡ p.sales_document_id
    → generate_for_document provider env org p w ≡ ok (ok rec, w')
    → (r : Record D) × (generate_for_document again env' org p' w' ≡ ok (ok r, w'))
generate_for_document-once provider again env env' org p p' w w' rec older same h =
    IsFinal-kept again env' org p' w' (
      subst (λ doc. IsFinal org doc w'.rows) (sym same)
        (generate_for_document-IsFinal provider env org p w w' rec older h))
