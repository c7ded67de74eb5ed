-- ===== src/Inventory/Effect.antt =====
-- What `recordMovement` does to the tables.
use mathlib.Core.Path.{subst}
use billing_platform.Base.{
  ◌&&◌, ◌≡◌, sym, ap, ◌∙◌, true, false, Option, some, [], ◌∷◌, ◌++◌, ok, Uuid, arith, Bool-cases,
  inl, inr,
}
use billing_platform.Decimal.{Decimal, IsGroup, is_positive, is_negative}
use billing_platform.Transaction.{Env, bind_ok, lift_ok, state_of}
use billing_platform.Inventory.Types.{
  StockMovement, StockBalance, Direction, direction_out, direction_of, RecordMovementParams,
}
use billing_platform.Inventory.Stock.{
  Stock, Catalogue, get_balance, create_movement, upsert_balance, upsert, record_audit, find_policy,
}
use billing_platform.Inventory.Movement.{
  allow_negative, apply_movement, record_movement, check_params, base_factor,
}
use billing_platform.Inventory.Ledger.{on_hand}
use billing_platform.Inventory.Balance.{allows, signed_by, new_balance_ok}
use billing_platform.Inventory.Aside.{
  IsAside, IsAside-trans, draw_id-IsAside, resolve_batch-IsAside, resolve_serial_code-IsAside,
}

module _ {D : Type 0} ⦃d : Decimal D⦄ where
  -- What a recorded movement leaves in the tables.
  pub record IsMoved (org : Uuid) (p : RecordMovementParams D) (s s' : Stock D)
      (mv : StockMovement D) : Type 0 where
    pub direction : Direction
    pub directed : direction_of p.movement_type ≡ some direction
    pub balance : StockBalance D
    pub recorded : s'.movements ≡ s.movements ++ (mv ∷ [])
    pub upserted : s'.balances ≡ upsert balance s.balances
    pub mv_organisation : mv.organisation_id ≡ org
    pub mv_warehouse : mv.warehouse_id ≡ p.warehouse_id
    pub mv_variant : mv.product_variant_id ≡ p.product_variant_id
    pub mv_type : mv.movement_type ≡ p.movement_type
    pub mv_quantity : mv.quantity ≡ p.quantity
    pub positive : is_positive mv.base_quantity ≡ true
    pub of_organisation : balance.organisation_id ≡ org
    pub of_warehouse : balance.warehouse_id ≡ p.warehouse_id
    pub of_variant : balance.product_variant_id ≡ p.product_variant_id
    pub quantity :
        balance.quantity_on_hand
        ≡ d.add
            (on_hand org p.warehouse_id p.product_variant_id s.balances)
            (signed_by direction mv.base_quantity)
    pub floor :
        direction ≡ direction_out
        → allow_negative org p.warehouse_id p.product_variant_id s ≡ false
        → is_negative balance.quantity_on_hand ≡ false
    pub same_reserved :
        balance.quantity_reserved
        ≡ (get_balance org p.warehouse_id p.product_variant_id s.balances).quantity_reserved
    pub same_reservations : s'.reservations ≡ s.reservations
    pub same_policies : s'.policies ≡ s.policies

  create_movement_ok :
      (m : StockMovement D) (s : Stock D) {u : Unit {0}} {s' : Stock D}
      → create_movement m s ≡ ok (u, s')
      → (is_positive m.base_quantity ≡ true)
        × (s' ≡ record s { movements = s.movements ++ (m ∷ []) })
  unfolding create_movement
  create_movement_ok m s {u} {s'} h =
      elim (Bool-cases (is_positive m.quantity && is_positive m.base_quantity)) [
        | inl e ↦
            let h1 = rw (create_movement, e) at h in (ground (arith, e), sym (ap (state_of s) h1))
        | inr e ↦ absurd (cc (rw (create_movement, e) at h))
      ]

  module _ (group : IsGroup D) (env : Env) (org actor : Uuid) (p : RecordMovementParams D) where
    apply_movement-IsMoved :
        (direction : Direction) (factor : D) (batch_id serial_id : Option Uuid) (s : Stock D)
        {mv : StockMovement D} {s' : Stock D}
        → direction_of p.movement_type ≡ some direction
        → apply_movement env org actor p direction factor batch_id serial_id s ≡ ok (mv, s')
        → (mv.base_quantity ≡ d.mul p.quantity factor) × IsMoved org p s s' mv
    unfolding apply_movement upsert_balance record_audit
    apply_movement-IsMoved direction factor batch_id serial_id s {mv} {s'} directed h =
        let (balance, s1, e1, h1) = bind_ok _ _ s h in
        let (id, s2, e2, h2) = bind_ok _ _ s1 h1 in
        let (u3, s3, e3, h3) = bind_ok _ _ s2 h2 in
        let (u4, s4, e4, h4) = bind_ok _ _ s3 h3 in
        let (u5, s5, e5, h5) = bind_ok _ _ s4 h4 in
        let (b, same) =
          new_balance_ok group org p direction factor (d.mul p.quantity factor) s e1 in
        let drawn = draw_id-IsAside env s1 e2 in
        let (positive, created) = create_movement_ok _ s2 e3 in
        let drawn_at : IsAside s s2 = subst (λ t. IsAside t s2) same drawn in
        let movements3 : s3.movements ≡ s2.movements ++ (mv ∷ []) =
          rw created (ap (λ m. s2.movements ++ (m ∷ [])) (ground arith)) in
        let movements : s'.movements ≡ s3.movements = ground arith in
        let balances4 : s4.balances ≡ upsert balance s3.balances = ground arith in
        let balances : s'.balances ≡ s4.balances = ground arith in
        let reservations : s'.reservations ≡ s3.reservations = ground arith in
        let policies : s'.policies ≡ s3.policies = ground arith in
        let base : mv.base_quantity ≡ d.mul p.quantity factor = ground arith in
        (
          base,
          record {
            direction = direction;
            directed = directed;
            balance = balance;
            recorded = movements ∙ movements3 ∙ ap (λ ms. ms ++ (mv ∷ [])) drawn_at.same_movements;
            upserted =
                balances
                ∙ balances4
                ∙ ap (λ (t : Stock D). upsert balance t.balances) created
                ∙ ap (upsert balance) drawn_at.same_balances;
            mv_organisation = ground arith;
            mv_warehouse = ground arith;
            mv_variant = ground arith;
            mv_type = ground arith;
            mv_quantity = ground arith;
            positive = rw base positive;
            of_organisation = b.of_organisation;
            of_warehouse = b.of_warehouse;
            of_variant = b.of_variant;
            quantity = rw base b.quantity;
            floor = b.floor;
            same_reserved = b.same_reserved;
            same_reservations =
                reservations
                ∙ ap (λ (t : Stock D). t.reservations) created
                ∙ drawn_at.same_reservations;
            same_policies =
                policies ∙ ap (λ (t : Stock D). t.policies) created ∙ drawn_at.same_policies;
          },
        )

    IsMoved-IsAside :
        (s t s' : Stock D) (mv : StockMovement D)
        → IsAside s t
        → IsMoved org p t s' mv
        → IsMoved org p s s' mv
    unfolding allow_negative
    IsMoved-IsAside s t s' mv aside m = record {
      direction = m.direction;
      directed = m.directed;
      balance = m.balance;
      recorded = m.recorded ∙ ap (λ ms. ms ++ (mv ∷ [])) aside.same_movements;
      upserted = m.upserted ∙ ap (upsert m.balance) aside.same_balances;
      mv_organisation = m.mv_organisation;
      mv_warehouse = m.mv_warehouse;
      mv_variant = m.mv_variant;
      mv_type = m.mv_type;
      mv_quantity = m.mv_quantity;
      positive = m.positive;
      of_organisation = m.of_organisation;
      of_warehouse = m.of_warehouse;
      of_variant = m.of_variant;
      quantity =
          subst
            (λ balances.
              m.balance.quantity_on_hand
              ≡ d.add (on_hand org p.warehouse_id p.product_variant_id balances)
                  (signed_by m.direction mv.base_quantity))
            aside.same_balances m.quantity;
      floor = λ o f. m.floor o (
          ap (λ policies. allows (find_policy org p.warehouse_id p.product_variant_id policies))
            aside.same_policies
          ∙ f);
      same_reserved =
          subst
            (λ balances.
              m.balance.quantity_reserved
              ≡ (get_balance org p.warehouse_id p.product_variant_id balances).quantity_reserved)
            aside.same_balances m.same_reserved;
      same_reservations = m.same_reservations ∙ aside.same_reservations;
      same_policies = m.same_policies ∙ aside.same_policies;
    }

    check_params_ok :
        {direction : Direction}
        → check_params p ≡ ok direction
        → (direction_of p.movement_type ≡ some direction) × (is_positive p.quantity ≡ true)
    unfolding check_params
    check_params_ok h = ground arith

    -- A movement that `recordMovement` returns has the base quantity that the catalogue's factor
    -- gives, which is positive, and is appended to the movements. The balance of its warehouse and
    -- variant is written: on hand it has what it had and the signed base quantity, its reserved
    -- quantity is kept, and unless the policy allows it a movement out leaves it not negative.
    -- Reservations and policies are kept.
    pub record_movement-IsMoved :
        (catalogue : Catalogue D) (s : Stock D) {mv : StockMovement D} {s' : Stock D}
        → record_movement env catalogue org actor p s ≡ ok (mv, s')
        → (factor : D) × (base_factor catalogue org p ≡ ok factor)
          × (mv.base_quantity ≡ d.mul p.quantity factor)
          × IsMoved org p s s' mv
    unfolding record_movement
    record_movement-IsMoved catalogue s {mv} {s'} h =
        let (direction, s1, e1, h1) = bind_ok _ _ s h in
        let (factor, s2, e2, h2) = bind_ok _ _ s1 h1 in
        let (batch_id, s3, e3, h3) = bind_ok _ _ s2 h2 in
        let (serial_id, s4, e4, h4) = bind_ok _ _ s3 h3 in
        let (checked, same1) = lift_ok (check_params p) s e1 in
        let (found, same2) = lift_ok (base_factor catalogue org p) s1 e2 in
        let batches = resolve_batch-IsAside env org p s2 e3 in
        let serials = resolve_serial_code-IsAside env org p direction s3 e4 in
        let aside : IsAside s s4 =
          subst (λ t. IsAside t s4) (same2 ∙ same1) (IsAside-trans batches serials) in
        let (base, moved) =
          apply_movement-IsMoved direction factor batch_id serial_id s4 (check_params_ok checked).0
            h4 in
        (factor, found, base, IsMoved-IsAside s s4 s' mv aside moved)
