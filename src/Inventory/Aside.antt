-- ===== src/Inventory/Aside.antt =====
-- The steps of `recordMovement` beside the ledger: batches and serial numbers.
use mathlib.Core.Path.{subst}
use billing_platform.Base.{
  ℕ, ◌≡◌, refl, ap, ◌∙◌, Option, String, str_eq, ok, Uuid, arith, Result-cases, Option-cases,
  Bool-cases, inl, inr,
}
use billing_platform.Decimal.{Decimal}
use billing_platform.Transaction.{AuditEntry, Env, bind_ok, state_of}
use billing_platform.Inventory.Types.{
  Direction, direction_in, direction_out, RecordMovementParams, StockBatch, SerialNumber,
  StockAdjustment, StockTransfer,
}
use billing_platform.Inventory.Stock.{
  Stock, find_batch, find_serial, draw_id, get_or_create, create_serial, get_by_code, record_audit,
  create_adjustment, create_transfer,
}
use billing_platform.Inventory.Movement.{resolve_batch, resolve_serial, resolve_serial_code}

module _ {D : Type 0} ⦃d : Decimal D⦄ where
  -- A step beside the ledger: movements, balances, reservations and policies stand.
  pub record IsAside (s s' : Stock D) : Type 0 where
    pub same_movements : s'.movements ≡ s.movements
    pub same_balances : s'.balances ≡ s.balances
    pub same_reservations : s'.reservations ≡ s.reservations
    pub same_policies : s'.policies ≡ s.policies

  pub IsAside-refl : (s : Stock D) → IsAside s s
  IsAside-refl s = record {
    same_movements = refl;
    same_balances = refl;
    same_reservations = refl;
    same_policies = refl;
  }

  pub IsAside-trans : {s t u : Stock D} → IsAside s t → IsAside t u → IsAside s u
  IsAside-trans h k = record {
    same_movements = k.same_movements ∙ h.same_movements;
    same_balances = k.same_balances ∙ h.same_balances;
    same_reservations = k.same_reservations ∙ h.same_reservations;
    same_policies = k.same_policies ∙ h.same_policies;
  }

  pub draw_id-IsAside :
      (env : Env) (s : Stock D) {id : Uuid} {s' : Stock D}
      → draw_id env s ≡ ok (id, s')
      → IsAside s s'
  unfolding draw_id
  draw_id-IsAside env s {id} {s'} h = elim (Result-cases (env.new_id s.drawn)) [
    | inr (x, e) ↦ absurd (cc (rw (e, draw_id) at h))
    | inl (fresh, e) ↦
        let h1 = rw (e, draw_id) at h in
        record {
          same_movements = ground arith;
          same_balances = ground arith;
          same_reservations = ground arith;
          same_policies = ground arith;
        }
  ]

  get_or_create-IsAside :
      (env : Env) (org variant : Uuid) (code : String) (made expires : Option ℕ) (s : Stock D)
      {b : StockBatch} {s' : Stock D}
      → get_or_create env org variant code made expires s ≡ ok (b, s')
      → IsAside s s'
  unfolding get_or_create
  get_or_create-IsAside env org variant code made expires s {b} {s'} h =
      elim (Result-cases (draw_id env s)) [
        | inr (x, e) ↦ absurd (cc (rw (get_or_create, e) at h))
        | inl ((id, t), e) ↦
            let h1 = rw (get_or_create, e) at h in
            let drawn = draw_id-IsAside env s e in
            elim (Option-cases (find_batch org variant code s.batches)) [
              | inl e1 ↦
                  let h2 = rw e1 at h1 in
                  IsAside-trans drawn (record {
                    same_movements = ground arith;
                    same_balances = ground arith;
                    same_reservations = ground arith;
                    same_policies = ground arith;
                  })
              | inr (found, e1) ↦
                  let h2 = rw e1 at h1 in
                  let same : t ≡ s' = ground arith in subst (IsAside s) same drawn
            ]
      ]

  create_serial-IsAside :
      (n : SerialNumber) (s : Stock D) {u : Unit {0}} {s' : Stock D}
      → create_serial n s ≡ ok (u, s')
      → IsAside s s'
  unfolding create_serial
  create_serial-IsAside n s {u} {s'} h =
      elim (Option-cases
        (find_serial n.organisation_id n.product_variant_id n.serial_code s.serials)) [
          | inr (x, e) ↦ absurd (cc (rw (create_serial, e) at h))
          | inl e ↦
              let h1 = rw (create_serial, e) at h in
              record {
                same_movements = ground arith;
                same_balances = ground arith;
                same_reservations = ground arith;
                same_policies = ground arith;
              }
        ]

  get_by_code-same :
      (org variant : Uuid) (code : String) (s : Stock D) {n : SerialNumber} {s' : Stock D}
      → get_by_code org variant code s ≡ ok (n, s')
      → s' ≡ s
  unfolding get_by_code
  get_by_code-same org variant code s {n} {s'} h =
      elim (Option-cases (find_serial org variant code s.serials)) [
        | inl e ↦ absurd (cc (rw (get_by_code, e) at h))
        | inr (sn, e) ↦ let h1 = rw (get_by_code, e) at h in ground arith
      ]

  resolve_serial-IsAside :
      (env : Env) (org variant warehouse : Uuid) (code : String) (direction : Direction)
      (s : Stock D) {id : Uuid} {s' : Stock D}
      → resolve_serial env org variant warehouse code direction s ≡ ok (id, s')
      → IsAside s s'
  unfolding resolve_serial
  resolve_serial-IsAside env org variant warehouse code direction_in s {id} {s'} h =
      let (fresh, t, e1, h1) = bind_ok _ _ s h in
      let (u, t1, e2, h2) = bind_ok _ _ t h1 in
      let same : t1 ≡ s' = ground arith in
      subst (IsAside s) same
        (IsAside-trans (draw_id-IsAside env s e1) (create_serial-IsAside _ t e2))
  resolve_serial-IsAside env org variant warehouse code direction_out s {id} {s'} h =
      let (sn, t, e1, h1) = bind_ok _ _ s h in
      let (u, t1, e2, h2) = bind_ok _ _ t h1 in
      let same : t ≡ s = get_by_code-same org variant code s e1 in
      let returned : t1 ≡ s' = ground arith in
      subst (λ r. IsAside r s') same
        (subst (IsAside t) returned (record {
          same_movements = ground arith;
          same_balances = ground arith;
          same_reservations = ground arith;
          same_policies = ground arith;
        }))

  pub create_adjustment-IsAside :
      (x : StockAdjustment) (s : Stock D) {u : Unit {0}} {s' : Stock D}
      → create_adjustment x s ≡ ok (u, s')
      → IsAside s s'
  unfolding create_adjustment
  create_adjustment-IsAside x s {u} {s'} h = record {
    same_movements = ground arith;
    same_balances = ground arith;
    same_reservations = ground arith;
    same_policies = ground arith;
  }

  pub create_transfer-IsAside :
      (x : StockTransfer) (s : Stock D) {u : Unit {0}} {s' : Stock D}
      → create_transfer x s ≡ ok (u, s')
      → IsAside s s'
  unfolding create_transfer
  create_transfer-IsAside x s {u} {s'} h = record {
    same_movements = ground arith;
    same_balances = ground arith;
    same_reservations = ground arith;
    same_policies = ground arith;
  }

  pub record_audit-IsAside :
      (x : AuditEntry) (s : Stock D) {u : Unit {0}} {s' : Stock D}
      → record_audit x s ≡ ok (u, s')
      → IsAside s s'
  unfolding record_audit
  record_audit-IsAside x s {u} {s'} h = record {
    same_movements = ground arith;
    same_balances = ground arith;
    same_reservations = ground arith;
    same_policies = ground arith;
  }

  module _ (env : Env) (org : Uuid) (p : RecordMovementParams D) where
    pub resolve_batch-IsAside :
        (s : Stock D) {id : Option Uuid} {s' : Stock D}
        → resolve_batch env org p s ≡ ok (id, s')
        → IsAside s s'
    unfolding resolve_batch
    resolve_batch-IsAside s {id} {s'} h = elim (Option-cases p.batch_code) [
      | inl e ↦
          let same : s ≡ s' = ap (λ r. state_of s r) (rw (resolve_batch, e) at h) in
          subst (IsAside s) same (IsAside-refl s)
      | inr (code, e) ↦ elim (Bool-cases (str_eq code "")) [
        | inl e1 ↦
            let same : s ≡ s' = ap (λ r. state_of s r) (rw (resolve_batch, e, e1) at h) in
            subst (IsAside s) same (IsAside-refl s)
        | inr e1 ↦
            elim (Result-cases (
              get_or_create env org p.product_variant_id code p.manufacture_date p.expiry_date s)) [
                | inr (x, e2) ↦ absurd (cc (rw (resolve_batch, e, e1, e2) at h))
                | inl ((b, t), e2) ↦
                    let same : t ≡ s' =
                      ap (λ r. state_of s r) (rw (resolve_batch, e, e1, e2) at h) in
                    subst (IsAside s) same (
                      get_or_create-IsAside env org p.product_variant_id code p.manufacture_date
                        p.expiry_date s e2)
              ]
      ]
    ]

    pub resolve_serial_code-IsAside :
        (direction : Direction) (s : Stock D) {id : Option Uuid} {s' : Stock D}
        → resolve_serial_code env org p direction s ≡ ok (id, s')
        → IsAside s s'
    unfolding resolve_serial_code
    resolve_serial_code-IsAside direction s {id} {s'} h = elim (Option-cases p.serial_code) [
      | inl e ↦
          let same : s ≡ s' = ap (λ r. state_of s r) (rw (resolve_serial_code, e) at h) in
          subst (IsAside s) same (IsAside-refl s)
      | inr (code, e) ↦ elim (Bool-cases (str_eq code "")) [
        | inl e1 ↦
            let same : s ≡ s' = ap (λ r. state_of s r) (rw (resolve_serial_code, e, e1) at h) in
            subst (IsAside s) same (IsAside-refl s)
        | inr e1 ↦
            elim (Result-cases
              (resolve_serial env org p.product_variant_id p.warehouse_id code direction s)) [
                | inr (x, e2) ↦ absurd (cc (rw (resolve_serial_code, e, e1, e2) at h))
                | inl ((n, t), e2) ↦
                    let same : t ≡ s' =
                      ap (λ r. state_of s r) (rw (resolve_serial_code, e, e1, e2) at h) in
                    subst (IsAside s) same (
                      resolve_serial-IsAside env org p.product_variant_id p.warehouse_id code
                        direction s e2)
              ]
      ]
    ]
