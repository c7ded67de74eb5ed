-- ===== src/Inventory/Trail.antt =====
-- Sequences of changes to the tables, and what they keep.
use billing_platform.Base.{
  ◌&&◌, ◌≡◌, refl, sym, ap, ◌∙◌, some, Uuid, arith, Bool-cases, inl, inr, ◌==◌,
}
use billing_platform.Decimal.{Decimal, IsGroup}
use billing_platform.Inventory.Types.{
  StockMovement, StockBalance, Direction, direction_in, direction_out, direction_of,
  RecordMovementParams,
}
use billing_platform.Inventory.Stock.{Stock, is_key, upsert}
use billing_platform.Inventory.Ledger.{
  on_hand, signed, contribution, ledger, ledger-append, IsProjection, on_hand-upsert,
}
use billing_platform.Inventory.Balance.{signed_by}
use billing_platform.Inventory.Aside.{IsAside}
use billing_platform.Inventory.Effect.{IsMoved}

module _ {D : Type 0} ⦃d : Decimal D⦄ where
  -- A balance written with another reserved quantity.
  pub record IsReserved (s s' : Stock D) : Type 0 where
    pub balance : StockBalance D
    pub upserted : s'.balances ≡ upsert balance s.balances
    pub kept :
        balance.quantity_on_hand
        ≡ on_hand balance.organisation_id balance.warehouse_id balance.product_variant_id s.balances
    pub same_movements : s'.movements ≡ s.movements
    pub same_policies : s'.policies ≡ s.policies

  -- A change of reservations.
  pub record IsHeld (s s' : Stock D) : Type 0 where
    pub same_movements : s'.movements ≡ s.movements
    pub same_balances : s'.balances ≡ s.balances
    pub same_policies : s'.policies ≡ s.policies

  -- Changes of the four kinds that operations consist of.
  pub data Trail (s : Stock D) : Stock D → Type 0 where
    start : Trail s s
    aside : {t u : Stock D} → Trail s t → IsAside t u → Trail s u
    moved :
        {t u : Stock D} {org : Uuid} {p : RecordMovementParams D} {mv : StockMovement D}
        → Trail s t
        → IsMoved org p t u mv
        → Trail s u
    held : {t u : Stock D} → Trail s t → IsHeld t u → Trail s u
    reserved : {t u : Stock D} → Trail s t → IsReserved t u → Trail s u

  pub Trail-trans : {s t u : Stock D} → Trail s t → Trail t u → Trail s u
  Trail-trans r start = r
  Trail-trans r (aside q h) = aside (Trail-trans r q) h
  Trail-trans r (moved q h) = moved (Trail-trans r q) h
  Trail-trans r (held q h) = held (Trail-trans r q) h
  Trail-trans r (reserved q h) = reserved (Trail-trans r q) h

  signed-signed_by :
      (mv : StockMovement D) (direction : Direction)
      → direction_of mv.movement_type ≡ some direction
      → signed mv ≡ signed_by direction mv.base_quantity
  signed-signed_by mv direction_in h = rw (signed, h) refl
  signed-signed_by mv direction_out h = rw (signed, h) refl

  -- The balance that a movement writes has the movement's key.
  IsMoved-is_key :
      (org : Uuid) (p : RecordMovementParams D) (s s' : Stock D) (mv : StockMovement D)
      (m : IsMoved org p s s' mv) (o w v : Uuid)
      → ((mv.organisation_id == o) && (mv.warehouse_id == w) && (mv.product_variant_id == v))
        ≡ is_key o w v m.balance
  IsMoved-is_key org p s s' mv m o w v =
      rw
        (
          m.mv_organisation, m.mv_warehouse, m.mv_variant, m.of_organisation, m.of_warehouse,
          m.of_variant,
        )
        refl

  module _ (group : IsGroup D) where
    -- A movement adds its contribution to the balance of every key.
    pub IsMoved-on_hand :
        (org : Uuid) (p : RecordMovementParams D) (s s' : Stock D) (mv : StockMovement D)
        → IsMoved org p s s' mv
        → (o w v : Uuid)
        → on_hand o w v s'.balances ≡ d.add (on_hand o w v s.balances) (contribution o w v mv)
    IsMoved-on_hand org p s s' mv m o w v =
        let key = IsMoved-is_key org p s s' mv m o w v in
        let sign : signed mv ≡ signed_by m.direction mv.base_quantity =
          signed-signed_by mv m.direction (rw m.mv_type m.directed) in
        elim (Bool-cases (is_key o w v m.balance)) [
          | inl e ↦
              let (o_is, w_is, v_is) : (o ≡ org)
                  × (w ≡ p.warehouse_id)
                  × (v ≡ p.product_variant_id) =
                ground (arith, e, m.of_organisation, m.of_warehouse, m.of_variant) in
              rw
                (
                  m.upserted,
                  on_hand-upsert o w v m.balance s.balances,
                  contribution,
                  key,
                  e,
                  sign,
                  m.quantity,
                  o_is,
                  w_is,
                  v_is,
                )
                refl
          | inr e ↦
              rw (m.upserted, on_hand-upsert o w v m.balance s.balances, contribution, key, e)
                (sym (group.add_nought _))
        ]

    IsMoved-IsProjection :
        (org : Uuid) (p : RecordMovementParams D) (s s' : Stock D) (mv : StockMovement D)
        → IsMoved org p s s' mv
        → IsProjection s
        → IsProjection s'
    IsMoved-IsProjection org p s s' mv m h o w v =
        IsMoved-on_hand org p s s' mv m o w v
        ∙ ap (λ sum. d.add sum (contribution o w v mv)) (h o w v)
        ∙ sym (ledger-append group o w v s.movements mv)
        ∙ ap (ledger o w v) (sym m.recorded)

  pub IsReserved-on_hand :
      (s s' : Stock D)
      → IsReserved s s'
      → (o w v : Uuid) → on_hand o w v s'.balances ≡ on_hand o w v s.balances
  IsReserved-on_hand s s' r o w v = elim (Bool-cases (is_key o w v r.balance)) [
    | inl e ↦
        let (o_is, w_is, v_is) : (o ≡ r.balance.organisation_id)
            × (w ≡ r.balance.warehouse_id)
            × (v ≡ r.balance.product_variant_id) =
          ground (arith, e) in
        rw (r.upserted, on_hand-upsert o w v r.balance s.balances, e, o_is, w_is, v_is) r.kept
    | inr e ↦ rw (r.upserted, on_hand-upsert o w v r.balance s.balances, e) refl
  ]

  module _ (group : IsGroup D) where
    pub Trail-IsProjection : {s s' : Stock D} → IsProjection s → Trail s s' → IsProjection s'
    Trail-IsProjection h start = h
    Trail-IsProjection h (aside q a) = λ o w v.
        ap (on_hand o w v) a.same_balances
        ∙ Trail-IsProjection h q o w v
        ∙ ap (ledger o w v) (sym a.same_movements)
    Trail-IsProjection h (held q a) = λ o w v.
        ap (on_hand o w v) a.same_balances
        ∙ Trail-IsProjection h q o w v
        ∙ ap (ledger o w v) (sym a.same_movements)
    Trail-IsProjection h (moved {t} {u} {org} {p} {mv} q m) =
        IsMoved-IsProjection group org p t u mv m (Trail-IsProjection h q)
    Trail-IsProjection h (reserved {t} {u} q r) = λ o w v.
        IsReserved-on_hand t u r o w v
        ∙ Trail-IsProjection h q o w v
        ∙ ap (ledger o w v) (sym r.same_movements)

  pub Trail-same_policies : {s s' : Stock D} → Trail s s' → s'.policies ≡ s.policies
  Trail-same_policies start = refl
  Trail-same_policies (aside q a) = a.same_policies ∙ Trail-same_policies q
  Trail-same_policies (moved q m) = m.same_policies ∙ Trail-same_policies q
  Trail-same_policies (held q a) = a.same_policies ∙ Trail-same_policies q
  Trail-same_policies (reserved q r) = r.same_policies ∙ Trail-same_policies q
