-- ===== src/Inventory/Steps.antt =====
-- The operations of the service as sequences of changes.
use mathlib.Core.Path.{subst}
use billing_platform.Base.{
  ◌≡◌, sym, ap, ◌∙◌, true, List, [], ◌∷◌, ◌++◌, Uuid, arith, Bool-cases, inl, inr, ok, Option-cases,
}
use billing_platform.Decimal.{Decimal, IsGroup, is_positive}
use billing_platform.Transaction.{Env, Principal, bind_ok, lift_ok, require_ok, read_ok, state_of}
use billing_platform.Inventory.Types.{
  StockMovement, StockBalance, StockReservation, StockTransfer, StockAdjustment,
  RecordMovementParams, AdjustmentLineParams, RecordAdjustmentParams, RecordTransferParams,
  ReserveParams,
}
use billing_platform.Inventory.Stock.{
  Stock, Catalogue, get_balance, is_key, upsert, create_reservation, upsert_balance, release,
  release_row,
}
use billing_platform.Inventory.Movement.{record_movement}
use billing_platform.Inventory.Operations.{
  record_opening_stock, record_lines, record_adjustment, record_leg, record_transfer, reserve,
  release_reservation,
}
use billing_platform.Inventory.Ledger.{get_balance-is_key}
use billing_platform.Inventory.Aside.{
  draw_id-IsAside, create_adjustment-IsAside, create_transfer-IsAside, record_audit-IsAside,
}
use billing_platform.Inventory.Effect.{record_movement-IsMoved}
use billing_platform.Inventory.Trail.{
  IsReserved, IsHeld, Trail, start, aside, moved, held, reserved, Trail-trans,
}

module _ {D : Type 0} ⦃d : Decimal D⦄ (group : IsGroup D) (env : Env) where
  module _ (catalogue : Catalogue D) where
    pub record_movement-Trail :
        (org actor : Uuid) (p : RecordMovementParams D) (s : Stock D) {mv : StockMovement D}
        {s' : Stock D}
        → record_movement env catalogue org actor p s ≡ ok (mv, s')
        → Trail s s'
    record_movement-Trail org actor p s h =
        let (factor, found, base, m) =
          record_movement-IsMoved group env org actor p catalogue s h in
        moved start m

    pub record_opening_stock-Trail :
        (principal : Principal) (p : RecordMovementParams D) (s : Stock D) {mv : StockMovement D}
        {s' : Stock D}
        → record_opening_stock env catalogue principal p s ≡ ok (mv, s')
        → Trail s s'
    unfolding record_opening_stock
    record_opening_stock-Trail principal p s {mv} {s'} h =
        let (u, s1, e1, h1) = bind_ok _ _ s h in
        let (granted, same) = lift_ok (env.require principal "inventory.manage") s e1 in
        subst (λ t. Trail t s') same (record_movement-Trail _ _ _ s1 h1)

    record_lines-Trail :
        (principal : Principal) (adj : StockAdjustment) (lines : List (AdjustmentLineParams D))
        (s : Stock D) {mvs : List (StockMovement D)} {s' : Stock D}
        → record_lines env catalogue principal adj lines s ≡ ok (mvs, s')
        → Trail s s'
    unfolding record_lines
    record_lines-Trail principal adj [] s {mvs} {s'} h =
        let same : s ≡ s' = ap (state_of s) h in subst (Trail s) same start
    record_lines-Trail principal adj (l ∷ lines) s {mvs} {s'} h =
        let (mv, s1, e1, h1) = bind_ok _ _ s h in
        let (rest, s2, e2, h2) = bind_ok _ _ s1 h1 in
        let same : s2 ≡ s' = ap (state_of s) h2 in
        subst (Trail s) same (
          Trail-trans (record_movement-Trail _ _ _ s e1)
            (record_lines-Trail principal adj lines s1 e2))

    pub record_adjustment-Trail :
        (principal : Principal) (p : RecordAdjustmentParams D) (s : Stock D)
        {r : StockAdjustment × List (StockMovement D)} {s' : Stock D}
        → record_adjustment env catalogue principal p s ≡ ok (r, s')
        → Trail s s'
    unfolding record_adjustment
    record_adjustment-Trail principal p s {r} {s'} h =
        let (u1, s1, e1, h1) = bind_ok _ _ s h in
        let (u2, s2, e2, h2) = bind_ok _ _ s1 h1 in
        let (u3, s3, e3, h3) = bind_ok _ _ s2 h2 in
        let (id, s4, e4, h4) = bind_ok _ _ s3 h3 in
        let (u5, s5, e5, h5) = bind_ok _ _ s4 h4 in
        let (mvs, s6, e6, h6) = bind_ok _ _ s5 h5 in
        let (u7, s7, e7, h7) = bind_ok _ _ s6 h6 in
        let (granted, same1) = lift_ok (env.require principal "inventory.adjust") s e1 in
        let (some_lines, same2) = require_ok _ _ s1 e2 in
        let (all_adjust, same3) = require_ok _ _ s2 e3 in
        let created = create_adjustment-IsAside _ s4 e5 in
        let audited = record_audit-IsAside _ s6 e7 in
        let left : s7 ≡ s' = ap (state_of s) h7 in
        subst (λ t. Trail t s') (same3 ∙ same2 ∙ same1)
          (subst (Trail s3) left (
            aside
              (Trail-trans (aside (aside start (draw_id-IsAside env s3 e4)) created)
                (record_lines-Trail _ _ _ s5 e6))
              audited))

    pub record_transfer-Trail :
        (principal : Principal) (p : RecordTransferParams D) (s : Stock D) {t : StockTransfer}
        {s' : Stock D}
        → record_transfer env catalogue principal p s ≡ ok (t, s')
        → Trail s s'
    unfolding record_transfer record_leg
    record_transfer-Trail principal p s {t} {s'} h =
        let (u1, s1, e1, h1) = bind_ok _ _ s h in
        let (u2, s2, e2, h2) = bind_ok _ _ s1 h1 in
        let (id, s3, e3, h3) = bind_ok _ _ s2 h2 in
        let (u4, s4, e4, h4) = bind_ok _ _ s3 h3 in
        let (out, s5, e5, h5) = bind_ok _ _ s4 h4 in
        let (into, s6, e6, h6) = bind_ok _ _ s5 h5 in
        let (u7, s7, e7, h7) = bind_ok _ _ s6 h6 in
        let (granted, same1) = lift_ok (env.require principal "inventory.transfer") s e1 in
        let (apart, same2) = require_ok _ _ s1 e2 in
        let begun =
          aside (aside start (draw_id-IsAside env s2 e3)) (create_transfer-IsAside _ s3 e4) in
        let legs =
          Trail-trans (record_movement-Trail _ _ _ s4 e5) (record_movement-Trail _ _ _ s5 e6) in
        let left : s7 ≡ s' = ap (state_of s) h7 in
        subst (λ r. Trail r s') (same2 ∙ same1)
          (subst (Trail s2) left (aside (Trail-trans begun legs) (record_audit-IsAside _ s6 e7)))

  reservations-IsHeld :
      (s t u : Stock D) (rows : List (StockReservation D))
      → t ≡ s
      → u ≡ record t { reservations = rows }
      → IsHeld s u
  reservations-IsHeld s t u rows e h = record {
    same_movements = ap (λ (r : Stock D). r.movements) h ∙ ap (λ (r : Stock D). r.movements) e;
    same_balances = ap (λ (r : Stock D). r.balances) h ∙ ap (λ (r : Stock D). r.balances) e;
    same_policies = ap (λ (r : Stock D). r.policies) h ∙ ap (λ (r : Stock D). r.policies) e;
  }

  create_reservation_ok :
      (r : StockReservation D) (s : Stock D) {u : Unit {0}} {s' : Stock D}
      → create_reservation r s ≡ ok (u, s')
      → s' ≡ record s { reservations = s.reservations ++ (r ∷ []) }
  unfolding create_reservation
  create_reservation_ok r s {u} {s'} h = elim (Bool-cases (is_positive r.quantity)) [
    | inl e ↦ sym (ap (state_of s) (rw (create_reservation, e) at h))
    | inr e ↦ absurd (cc (rw (create_reservation, e) at h))
  ]

  release-IsHeld :
      (org id : Uuid) (s : Stock D) {u : Unit {0}} {s' : Stock D}
      → release env org id s ≡ ok (u, s')
      → IsHeld s s'
  unfolding release
  release-IsHeld org id s {u} {s'} h =
      elim (Option-cases (release_row org id env.now s.reservations)) [
        | inl e ↦ absurd (cc (rw (release, e) at h))
        | inr (rows, e) ↦
            let h1 = rw (release, e) at h in
            let is : record s { reservations = rows } ≡ s' = ap (state_of s) h1 in
            record {
              same_movements = sym (ap (λ (t : Stock D). t.movements) is);
              same_balances = sym (ap (λ (t : Stock D). t.balances) is);
              same_policies = sym (ap (λ (t : Stock D). t.policies) is);
            }
      ]

  -- The balance that stands, written back with another reserved quantity.
  upsert_balance-IsReserved :
      (org warehouse variant : Uuid) (before : StockBalance D) (sum : D) (s : Stock D)
      {u : Unit {0}} {s' : Stock D}
      → before ≡ get_balance org warehouse variant s.balances
      → upsert_balance (record before { quantity_reserved = sum }) s ≡ ok (u, s')
      → IsReserved s s'
  unfolding upsert_balance
  upsert_balance-IsReserved org warehouse variant before sum s {u} {s'} stood h =
      let after : StockBalance D = record before { quantity_reserved = sum } in
      let key : is_key org warehouse variant before ≡ true =
        rw stood (get_balance-is_key org warehouse variant s.balances) in
      let (o_is, w_is, v_is) : (before.organisation_id ≡ org)
          × (before.warehouse_id ≡ warehouse)
          × (before.product_variant_id ≡ variant) =
        ground (arith, key) in
      let is : record s { balances = upsert after s.balances } ≡ s' = ap (state_of s) h in
      record {
        balance = after;
        upserted = sym (ap (λ (r : Stock D). r.balances) is);
        kept = rw (o_is, w_is, v_is) (ap (λ (b : StockBalance D). b.quantity_on_hand) stood);
        same_movements = sym (ap (λ (r : Stock D). r.movements) is);
        same_policies = sym (ap (λ (r : Stock D). r.policies) is);
      }

  pub release_reservation-Trail :
      (principal : Principal) (id warehouse variant : Uuid) (s : Stock D) {u : Unit {0}}
      {s' : Stock D}
      → release_reservation env principal id warehouse variant s ≡ ok (u, s')
      → Trail s s'
  unfolding release_reservation
  release_reservation-Trail principal id warehouse variant s {u} {s'} h =
      let (u1, s1, e1, h1) = bind_ok _ _ s h in
      let (u2, s2, e2, h2) = bind_ok _ _ s1 h1 in
      let (bal, s3, e3, h3) = bind_ok _ _ s2 h2 in
      let (sum, s4, e4, h4) = bind_ok _ _ s3 h3 in
      let (granted, same1) = lift_ok (env.require principal "inventory.manage") s e1 in
      let (bal_is, same3) = read_ok _ s2 e3 in
      let (sum_is, same4) = read_ok _ s3 e4 in
      let stood =
        bal_is
        ∙ ap (λ (t : Stock D). get_balance principal.organisation_id warehouse variant t.balances)
            (sym (same4 ∙ same3)) in
      let freed =
        subst (IsHeld s1) (sym (same4 ∙ same3))
          (release-IsHeld principal.organisation_id id s1 e2) in
      subst (λ r. Trail r s') same1
        (reserved (held start freed) (
          upsert_balance-IsReserved principal.organisation_id warehouse variant bal sum s4 stood
            h4))

  pub reserve-Trail :
      (principal : Principal) (p : ReserveParams D) (s : Stock D) {r : StockReservation D}
      {s' : Stock D}
      → reserve env principal p s ≡ ok (r, s')
      → Trail s s'
  unfolding reserve
  reserve-Trail principal p s {r} {s'} h =
      let (u1, s1, e1, h1) = bind_ok _ _ s h in
      let (u2, s2, e2, h2) = bind_ok _ _ s1 h1 in
      let (id, s3, e3, h3) = bind_ok _ _ s2 h2 in
      let (bal, s4, e4, h4) = bind_ok _ _ s3 h3 in
      let (u5, s5, e5, h5) = bind_ok _ _ s4 h4 in
      let (u6, s6, e6, h6) = bind_ok _ _ s5 h5 in
      let (sum, s7, e7, h7) = bind_ok _ _ s6 h6 in
      let (u8, s8, e8, h8) = bind_ok _ _ s7 h7 in
      let (granted, same1) = lift_ok (env.require principal "inventory.manage") s e1 in
      let (positive, same2) = require_ok _ _ s1 e2 in
      let (bal_is, same4) = read_ok _ s3 e4 in
      let (enough, same5) = require_ok _ _ s4 e5 in
      let created = create_reservation_ok _ s5 e6 in
      let (sum_is, same7) = read_ok _ s6 e7 in
      let listed : IsHeld s3 s7 =
        reservations-IsHeld s3 s5 s7 _ (same5 ∙ same4) (same7 ∙ created) in
      let stood =
        bal_is
        ∙ ap (get_balance principal.organisation_id p.warehouse_id p.product_variant_id)
            (sym listed.same_balances) in
      let left : s8 ≡ s' = ap (state_of s) h8 in
      subst (λ t. Trail t s') (same2 ∙ same1)
        (subst (Trail s2) left (
          reserved (held (aside start (draw_id-IsAside env s2 e3)) listed) (
            upsert_balance-IsReserved principal.organisation_id p.warehouse_id p.product_variant_id
              bal sum s7 stood e8)))
