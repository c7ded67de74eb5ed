-- ===== src/Gst/Types.antt =====
-- The types of internal/modules/taxation/domain/domain.go and of
-- internal/modules/gstindia/domain/domain.go.
use billing_platform.Base.{Bool, Option, List, String, Uuid, Time}
use billing_platform.Money.{Money}

pub data PricingMode : Type 0 where
  inclusive exclusive : PricingMode

pub data SupplyType : Type 0 where
  b2b b2c export sez : SupplyType

pub record PlaceOfSupply : Type 0 where
  pub state_code : String

pub record TaxableLine (D : Type 0) : Type 0 where
  pub line_ref : String
  pub hsn_sac_code : String
  pub amount : Money D
  pub pricing_mode : PricingMode

pub record TaxCalculationInput (D : Type 0) : Type 0 where
  pub organisation_id : Uuid
  pub lines : List (TaxableLine D)
  pub supplier_state_code : String
  pub supply_place : PlaceOfSupply
  pub document_date : Time
  pub supply_type : SupplyType
  pub reverse_charge : Bool
  pub currency_code : String

pub record TaxComponent (D : Type 0) : Type 0 where
  pub kind : String
  pub rate : D
  pub amount : Money D

pub data RateClassification : Type 0 where
  taxable exempt nil_rated zero_rated : RateClassification

pub record TaxLineResult (D : Type 0) : Type 0 where
  pub line_ref : String
  pub hsn_sac_code : String
  pub pricing_mode : PricingMode
  pub gross_amount : Money D
  pub taxable_amount : Money D
  pub total_tax : Money D
  pub classification : RateClassification
  pub components : List (TaxComponent D)
  pub rate_master_id : Uuid

pub record TaxCalculationResult (D : Type 0) : Type 0 where
  pub lines : List (TaxLineResult D)
  pub total_taxable_amount : Money D
  pub total_tax_amount : Money D
  pub grand_total : Money D

-- `tax_rate_master`: the gst rate is the combined one, 18 for 18%.
pub record TaxRateMaster (D : Type 0) : Type 0 where
  pub id : Uuid
  pub organisation_id : Uuid
  pub country_code : String
  pub hsn_sac_code : String
  pub classification : RateClassification
  pub gst_rate : D
  pub cess_rate : D
  pub valid_from : Time
  pub valid_to : Option Time

pub record GstState : Type 0 where
  pub code : String
  pub name : String
  pub is_union_territory : Bool
