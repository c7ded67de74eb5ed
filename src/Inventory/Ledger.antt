-- ===== src/Inventory/Ledger.antt =====
-- Balances against the list of movements: what a balance should hold.
use billing_platform.Base.{
  ◌≡◌, refl, sym, ap, ◌∙◌, ◌&&◌, true, none, some, List, [], ◌∷◌, ◌++◌, if◌then◌else◌, ◌==◌, Uuid,
  arith, Option-cases, Bool-cases, inl, inr,
}
use billing_platform.Decimal.{Decimal, IsGroup}
use billing_platform.Inventory.Types.{
  StockMovement, StockBalance, direction_in, direction_out, direction_of,
}
use billing_platform.Inventory.Stock.{Stock, is_key, find_balance, upsert, get_balance}

module _ {D : Type 0} where
  pub find_balance-upsert :
      (org warehouse variant : Uuid) (b : StockBalance D) (balances : List (StockBalance D))
      → find_balance org warehouse variant (upsert b balances) ≡ (
          if is_key org warehouse variant b
          then some b
          else find_balance org warehouse variant balances)
  unfolding find_balance upsert
  find_balance-upsert org warehouse variant b [] = refl
  find_balance-upsert org warehouse variant b (c ∷ balances) =
      ground (arith, find_balance-upsert org warehouse variant b balances)

  find_balance-is_key :
      (org warehouse variant : Uuid) (balances : List (StockBalance D)) {b : StockBalance D}
      → find_balance org warehouse variant balances ≡ some b
      → is_key org warehouse variant b ≡ true
  unfolding find_balance
  find_balance-is_key org warehouse variant [] h = cc
  find_balance-is_key org warehouse variant (c ∷ balances) h =
      elim (Bool-cases (is_key org warehouse variant c)) [
        | inl e ↦ ground (arith, e, h)
        | inr e ↦ find_balance-is_key org warehouse variant balances (rw e at h)
      ]

module _ {D : Type 0} ⦃d : Decimal D⦄ where
  abbrev pub on_hand : Uuid → Uuid → Uuid → List (StockBalance D) → D
  on_hand org warehouse variant balances =
      (get_balance org warehouse variant balances).quantity_on_hand

  pub get_balance-is_key :
      (org warehouse variant : Uuid) (balances : List (StockBalance D))
      → is_key org warehouse variant (get_balance org warehouse variant balances) ≡ true
  unfolding get_balance
  get_balance-is_key org warehouse variant balances =
      elim (Option-cases (find_balance org warehouse variant balances)) [
        | inl e ↦ rw (get_balance, e) (ground arith)
        | inr (b, e) ↦ rw (get_balance, e) (find_balance-is_key org warehouse variant balances e)
      ]

  pub get_balance-upsert :
      (org warehouse variant : Uuid) (b : StockBalance D) (balances : List (StockBalance D))
      → get_balance org warehouse variant (upsert b balances)
        ≡ (if is_key org warehouse variant b then b else get_balance org warehouse variant balances)
  unfolding get_balance
  get_balance-upsert org warehouse variant b balances =
      elim (Bool-cases (is_key org warehouse variant b)) [
        | inl e ↦ rw (get_balance, find_balance-upsert org warehouse variant b balances, e) refl
        | inr e ↦ rw (get_balance, find_balance-upsert org warehouse variant b balances, e) refl
      ]

  pub on_hand-upsert :
      (org warehouse variant : Uuid) (b : StockBalance D) (balances : List (StockBalance D))
      → on_hand org warehouse variant (upsert b balances) ≡ (
          if is_key org warehouse variant b
          then b.quantity_on_hand
          else on_hand org warehouse variant balances)
  on_hand-upsert org warehouse variant b balances =
      elim (Bool-cases (is_key org warehouse variant b)) [
        | inl e ↦
            let whole = get_balance-upsert org warehouse variant b balances in
            let chosen = rw e at whole in
            rw e (ap (λ (c : StockBalance D). c.quantity_on_hand) chosen)
        | inr e ↦
            let whole = get_balance-upsert org warehouse variant b balances in
            let chosen = rw e at whole in
            rw e (ap (λ (c : StockBalance D). c.quantity_on_hand) chosen)
      ]

  -- What a movement adds to the stock of its own key: its base quantity, with a sign.
  abbrev pub signed : StockMovement D → D
  signed m = elim (direction_of m.movement_type) [
    | none ↦ d.nought
    | some direction_in ↦ m.base_quantity
    | some direction_out ↦ d.neg m.base_quantity
  ]

  abbrev pub contribution : Uuid → Uuid → Uuid → StockMovement D → D
  contribution org warehouse variant m =
      if (m.organisation_id == org)
        && (m.warehouse_id == warehouse)
        && (m.product_variant_id == variant)
      then signed m
      else d.nought

  -- The sum of all movements of the key.
  abbrev pub ledger : Uuid → Uuid → Uuid → List (StockMovement D) → D
  ledger org warehouse variant [] = d.nought
  ledger org warehouse variant (m ∷ movements) =
      d.add (contribution org warehouse variant m) (ledger org warehouse variant movements)

  pub ledger-append :
      (group : IsGroup D) (org warehouse variant : Uuid) (ms : List (StockMovement D))
      (m : StockMovement D)
      → ledger org warehouse variant (ms ++ (m ∷ []))
        ≡ d.add (ledger org warehouse variant ms) (contribution org warehouse variant m)
  ledger-append group org warehouse variant [] m =
      group.add_comm (contribution org warehouse variant m) d.nought
  ledger-append group org warehouse variant (x ∷ ms) m =
      ap (d.add (contribution org warehouse variant x))
        (ledger-append group org warehouse variant ms m)
      ∙ sym (group.add_assoc _ _ _)

  -- Every balance is the sum of the movements of its key.
  abbrev pub IsProjection : Stock D → Type 0
  IsProjection s =
      (org warehouse variant : Uuid)
      → on_hand org warehouse variant s.balances ≡ ledger org warehouse variant s.movements
