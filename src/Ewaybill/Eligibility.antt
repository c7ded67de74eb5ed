-- ===== src/Ewaybill/Eligibility.antt =====
-- internal/modules/ewaybill/eligibility/eligibility.go.
use billing_platform.Base.{
  ◌-◌, ◌*◌, ◌&&◌, not, Bool, true, false, Option, none, some, List, [], ◌∷◌, ◌++◌, String, str_eq,
  if◌then◌else◌, Time, ltb, ◌<>◌,
}
use billing_platform.Decimal.{Decimal, is_zero}
use billing_platform.Ewaybill.Types.{Item, CanonicalEWayBill, consignment_value}

pub data Requirement : Type 0 where
  req_not_required req_ready req_needs_information req_required : Requirement

pub record Rule (D : Type 0) : Type 0 where
  pub state_code : Option String
  pub min_consignment_value : D
  pub valid_from : Time
  pub valid_until : Option Time

pub record MissingInfo : Type 0 where
  pub field : String
  pub reason : String

abbrev pub max_invoice_age : Time
max_invoice_age = 180 * (24 * 60 * 60 * 1000000000)

unfoldable pub applies_on : {D : Type 0} → Rule D → Time → Bool
applies_on r date =
    not (ltb date r.valid_from)
    && (elim r.valid_until [ none ↦ true | some until ↦ not (ltb until date) ])

module _ {D : Type 0} where
  abbrev pub is_of_state : String → Rule D → Bool
  is_of_state state_code r = elim r.state_code [ none ↦ false | some code ↦ str_eq code state_code ]

  abbrev pub is_national : Rule D → Bool
  is_national r = elim r.state_code [ none ↦ true | some code ↦ false ]

  -- The loop of `selectRule`: the last match of each kind.
  unfoldable pub match_rules :
      String
      → Time
      → Option (Rule D)
      → Option (Rule D)
      → List (Rule D)
      → Option (Rule D) × Option (Rule D)
  match_rules state_code on state_match national_match [] = (state_match, national_match)
  match_rules state_code on state_match national_match (r ∷ rules) = elim (applies_on r on) [
    | false ↦ match_rules state_code on state_match national_match rules
    | true ↦
        match_rules state_code on (if is_of_state state_code r then some r else state_match)
          (if is_national r then some r else national_match) rules
  ]

  unfoldable pub select_rule : List (Rule D) → String → Time → Option (Rule D)
  unfolding match_rules
  select_rule rules state_code on =
      let (state_match, national_match) = match_rules state_code on none none rules in
      elim state_match [ some r ↦ some r | none ↦ national_match ]

  -- The items without an HSN or SAC code.
  unfoldable pub missing_codes : List (Item D) → List MissingInfo
  missing_codes [] = []
  missing_codes (item ∷ items) =
      let rest = missing_codes items in
      if str_eq item.hsn_sac_code ""
      then record {
        field = "items[" <> item.line_ref <> "].hsn_sac_code";
        reason = "product is missing an HSN/SAC code";
      }
        ∷ rest
      else rest

abbrev pub missing_if : Bool → String → String → List MissingInfo
missing_if true field reason = record { field = field; reason = reason } ∷ []
missing_if false field reason = []

module _ {D : Type 0} ⦃d : Decimal D⦄ where
  abbrev pub too_old : CanonicalEWayBill D → Time → List MissingInfo
  too_old c now =
      missing_if (ltb max_invoice_age (now - c.invoice_date)) "invoice_date"
        "this document is older than 180 days — the government portal will not generate an e-Way Bill against it"

  abbrev pub no_vehicle : CanonicalEWayBill D → List MissingInfo
  no_vehicle c =
      missing_if (str_eq c.transport.vehicle_number "") "vehicle_number" "no vehicle selected"

  abbrev pub no_distance : CanonicalEWayBill D → List MissingInfo
  no_distance c =
      missing_if (is_zero c.transport.distance_km) "distance_km" "transport distance not entered"

  abbrev pub no_state : CanonicalEWayBill D → List MissingInfo
  no_state c =
      missing_if (str_eq c.ship_to.state_code "") "ship_to.state_code"
        "ship-to state is not resolved"

  unfoldable pub missing_of : CanonicalEWayBill D → Time → List MissingInfo
  unfolding missing_codes
  missing_of c now =
      too_old c now ++ (no_vehicle c ++ (no_distance c ++ (missing_codes c.items ++ no_state c)))

  unfoldable pub evaluate :
      List (Rule D) → CanonicalEWayBill D → Time → Requirement × List MissingInfo
  unfolding select_rule missing_of consignment_value
  evaluate rules c now = elim (select_rule rules c.supply_place_code c.invoice_date) [
    | none ↦ (
      req_needs_information,
      record {
        field = "eligibility_rule";
        reason = "no e-Way Bill threshold rule is configured for this date/state";
      }
          ∷ [],
    )
    | some rule ↦
        if d.less_than (consignment_value c) rule.min_consignment_value
        then (req_not_required, [])
        else elim (missing_of c now) [
          | [] ↦ (req_ready, [])
          | m ∷ more ↦ (req_needs_information, m ∷ more)
        ]
  ]
