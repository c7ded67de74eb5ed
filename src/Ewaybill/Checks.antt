-- ===== src/Ewaybill/Checks.antt =====
-- What makes a document ready, and which rule decides.
use mathlib.Core.Path.{subst}
use billing_platform.Base.{
  ◌-◌, ◌≡◌, ◌↔◌, ◌⊎◌, refl, sym, ap, ◌∙◌, inl, inr, Bool, true, false, Option, none, some, List, [],
  ◌∷◌, ◌++◌, if◌then◌else◌, String, str_eq, Time, ltb, All, IsAmong, Bool-cases, Option-cases,
}
use billing_platform.Decimal.{Decimal, is_zero}
use billing_platform.Ewaybill.Types.{Item, CanonicalEWayBill, consignment_value}
use billing_platform.Ewaybill.Eligibility.{
  Rule, req_ready, MissingInfo, max_invoice_age, applies_on, is_of_state, is_national, match_rules,
  select_rule, missing_if, too_old, no_vehicle, no_distance, no_state, missing_codes, missing_of,
  evaluate,
}

module _ {D : Type 0} where
  abbrev IsCoded : Item D → Type 0
  IsCoded item = str_eq item.hsn_sac_code "" ≡ false

  missing_codes_iff : (items : List (Item D)) → (missing_codes items ≡ []) ↔ All IsCoded items
  unfolding missing_codes
  missing_codes_iff [] = (λ h. tt, λ h. refl)
  missing_codes_iff (item ∷ items) = elim (Bool-cases (str_eq item.hsn_sac_code "")) [
    | inl e ↦ (λ h. absurd (cc (rw (missing_codes, e) at h)), λ h. absurd (cc (e, h.0)))
    | inr e ↦ (
      λ h. (e, (missing_codes_iff items).0 (rw (missing_codes, e) at h)),
      λ h. rw (missing_codes, e) ((missing_codes_iff items).1 h.1),
    )
  ]

append_nil : (xs ys : List MissingInfo) → xs ++ ys ≡ [] → (xs ≡ []) × (ys ≡ [])
append_nil [] ys h = (refl, h)
append_nil (x ∷ xs) ys h = absurd (cc h)

List-cases :
    (xs : List MissingInfo)
    → (xs ≡ []) ⊎ ((m : MissingInfo) × (more : List MissingInfo) × (xs ≡ m ∷ more))
List-cases [] = inl refl
List-cases (m ∷ more) = inr (m, more, refl)

missing_if_iff :
    (test : Bool) (field reason : String) → (missing_if test field reason ≡ []) ↔ (test ≡ false)
missing_if_iff true field reason = (λ h. absurd (cc h), λ h. absurd (cc h))
missing_if_iff false field reason = (λ h. refl, λ h. refl)

module _ {D : Type 0} ⦃d : Decimal D⦄ where
  -- All that a bill needs is there, and its invoice is at most 180 days old.
  pub record IsComplete (c : CanonicalEWayBill D) (now : Time) : Type 0 where
    pub young : ltb max_invoice_age (now - c.invoice_date) ≡ false
    pub has_vehicle : str_eq c.transport.vehicle_number "" ≡ false
    pub has_distance : is_zero c.transport.distance_km ≡ false
    pub coded : All IsCoded c.items
    pub has_state : str_eq c.ship_to.state_code "" ≡ false

  missing_of_iff :
      (c : CanonicalEWayBill D) (now : Time) → (missing_of c now ≡ []) ↔ IsComplete c now
  unfolding missing_of
  missing_of_iff c now = (
    λ h.
        let from_codes = missing_codes c.items ++ no_state c in
        let (age, h1) =
          append_nil (too_old c now) (no_vehicle c ++ (no_distance c ++ from_codes)) h in
        let (vehicle, h2) = append_nil (no_vehicle c) (no_distance c ++ from_codes) h1 in
        let (distance, h3) = append_nil (no_distance c) from_codes h2 in
        let (codes, state) = append_nil (missing_codes c.items) (no_state c) h3 in
        record {
          young = (missing_if_iff _ _ _).0 age;
          has_vehicle = (missing_if_iff _ _ _).0 vehicle;
          has_distance = (missing_if_iff _ _ _).0 distance;
          coded = (missing_codes_iff c.items).0 codes;
          has_state = (missing_if_iff _ _ _).0 state;
        },
    λ k.
        rw (k.young, k.has_vehicle, k.has_distance, k.has_state)
          (ap (λ (t : List MissingInfo). t ++ []) ((missing_codes_iff c.items).1 k.coded)),
  )

  -- A document is READY just when a rule is selected for its state and date, its value is not
  -- below the rule's threshold, its date is at most 180 days back, vehicle, distance and ship-to
  -- state are given, and every item has an HSN or SAC code.
  pub evaluate-ready_iff :
      (rules : List (Rule D)) (c : CanonicalEWayBill D) (now : Time)
      → ((evaluate rules c now).0 ≡ req_ready) ↔ (
          (rule : Rule D) × (select_rule rules c.supply_place_code c.invoice_date ≡ some rule)
          × (d.less_than c.tax.grand_total rule.min_consignment_value ≡ false)
          × IsComplete c now)
  unfolding evaluate consignment_value
  evaluate-ready_iff rules c now =
      elim (Option-cases (select_rule rules c.supply_place_code c.invoice_date)) [
        | inl n ↦ (λ h. absurd (cc (rw (evaluate, n) at h)), λ k. absurd (cc (sym n ∙ k.1)))
        | inr (rule, s) ↦
            elim (Bool-cases (d.less_than c.tax.grand_total rule.min_consignment_value)) [
              | inl low ↦ (
                λ h. absurd (cc (rw (evaluate, s, low) at h)),
                λ k.
                    let same : k.0 ≡ rule = cc (sym s ∙ k.1) in
                    absurd (
                      cc (
                        sym low
                        ∙ ap (λ r. d.less_than c.tax.grand_total r.min_consignment_value) (sym same)
                        ∙ k.2)),
              )
              | inr high ↦ elim (List-cases (missing_of c now)) [
                | inl full ↦ (
                  λ h. (rule, s, high, (missing_of_iff c now).0 full),
                  λ k. rw (evaluate, s, high, full) refl,
                )
                | inr (m, more, lacking) ↦ (
                  λ h. absurd (cc (rw (evaluate, s, high, lacking) at h)),
                  λ k. absurd (cc (sym lacking ∙ (missing_of_iff c now).1 k.3)),
                )
              ]
            ]
      ]

module _ {D : Type 0} (state_code : String) (on : Time) where
  abbrev OfState : Rule D → Type 0
  OfState r = (applies_on r on ≡ true) × (is_of_state state_code r ≡ true)

  abbrev National : Rule D → Type 0
  National r = (applies_on r on ≡ true) × (is_national r ≡ true)

  abbrev IfSome : (Rule D → Type 0) → Option (Rule D) → Type 0
  IfSome P none = Unit {0}
  IfSome P (some r) = P r

  abbrev has_some : Option (Rule D) → Bool
  has_some none = false
  has_some (some r) = true

  chosen :
      (P : Rule D → Type 0) (test : Bool) (r : Rule D) (old : Option (Rule D))
      → (test ≡ true → P r)
      → IfSome P old
      → IfSome P (if test then some r else old)
  chosen P true r old fits h = fits refl
  chosen P false r old fits h = h

  abbrev state_next : Rule D → Option (Rule D) → Option (Rule D)
  state_next r a = if is_of_state state_code r then some r else a

  abbrev national_next : Rule D → Option (Rule D) → Option (Rule D)
  national_next r b = if is_national r then some r else b

  match_rules-fits :
      (a b : Option (Rule D)) (rules : List (Rule D))
      → IfSome OfState a
      → IfSome National b
      → IfSome OfState (match_rules state_code on a b rules).0
        × IfSome National (match_rules state_code on a b rules).1
  unfolding match_rules
  match_rules-fits a b [] h k = (h, k)
  match_rules-fits a b (r ∷ rules) h k = elim (Bool-cases (applies_on r on)) [
    | inr e ↦ rw (match_rules, e) (match_rules-fits a b rules h k)
    | inl e ↦
        rw (match_rules, e)
          (match_rules-fits (state_next r a) (national_next r b) rules
            (chosen OfState (is_of_state state_code r) r a (λ t. (e, t)) h)
            (chosen National (is_national r) r b (λ t. (e, t)) k))
  ]

  kept :
      (test : Bool) (r : Rule D) (old : Option (Rule D))
      → has_some old ≡ true
      → has_some (if test then some r else old) ≡ true
  kept true r old h = refl
  kept false r old h = h

  match_rules-kept :
      (a b : Option (Rule D)) (rules : List (Rule D))
      → has_some a ≡ true
      → has_some (match_rules state_code on a b rules).0 ≡ true
  unfolding match_rules
  match_rules-kept a b [] h = h
  match_rules-kept a b (r ∷ rules) h = elim (Bool-cases (applies_on r on)) [
    | inr e ↦ rw (match_rules, e) (match_rules-kept a b rules h)
    | inl e ↦
        rw (match_rules, e)
          (match_rules-kept (state_next r a) (national_next r b) rules
            (kept (is_of_state state_code r) r a h))
  ]

  match_rules-found :
      (a b : Option (Rule D)) (rules : List (Rule D)) (x : Rule D)
      → IsAmong x rules
      → OfState x
      → has_some (match_rules state_code on a b rules).0 ≡ true
  unfolding match_rules
  match_rules-found a b [] x h k = absurd h
  match_rules-found a b (r ∷ rules) x (inl same) k =
      let applies : applies_on r on ≡ true = ap (λ t. applies_on t on) (sym same) ∙ k.0 in
      let of_state : is_of_state state_code r ≡ true =
        ap (is_of_state state_code) (sym same) ∙ k.1 in
      rw (match_rules, applies)
        (match_rules-kept (state_next r a) (national_next r b) rules
          (ap (λ t. has_some (if t then some r else a)) of_state))
  match_rules-found a b (r ∷ rules) x (inr h) k = elim (Bool-cases (applies_on r on)) [
    | inr e ↦ rw (match_rules, e) (match_rules-found a b rules x h k)
    | inl e ↦
        rw (match_rules, e) (match_rules-found (state_next r a) (national_next r b) rules x h k)
  ]

  -- The rule that selectRule returns applies on the date and is of the state or national, and it
  -- is of the state if any rule of the state applies.
  pub select_rule-fits :
      (rules : List (Rule D)) (r : Rule D)
      → select_rule rules state_code on ≡ some r
      → (applies_on r on ≡ true)
        × ((is_of_state state_code r ≡ true) ⊎ (is_national r ≡ true))
        × ((x : Rule D)
            → IsAmong x rules
            → applies_on x on ≡ true
            → is_of_state state_code x ≡ true
            → is_of_state state_code r ≡ true)
  unfolding select_rule
  select_rule-fits rules r h =
      let (state_fits, national_fits) = match_rules-fits none none rules tt tt in
      elim (Option-cases (match_rules state_code on none none rules).0) [
        | inr (s, e) ↦
            let same : s ≡ r = cc (rw (select_rule, e) at h) in
            let fits : OfState r = subst OfState same (subst (IfSome OfState) e state_fits) in
            (fits.0, inl fits.1, λ x among applies of_state. fits.1)
        | inl n ↦
            let national : (match_rules state_code on none none rules).1 ≡ some r =
              rw (select_rule, n) at h in
            let fits : National r = subst (IfSome National) national national_fits in
            (
              fits.0,
              inr fits.1,
              λ x among applies of_state. absurd (
                  cc (
                    ap has_some (sym n)
                    ∙ match_rules-found none none rules x among (applies, of_state))),
            )
      ]
