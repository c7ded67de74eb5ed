-- ===== src/Gst/Tests.antt =====
-- Runs of the GST engine on the fixed decimals, and the theorems at these runs.
use billing_platform.Base.{
  ℕ, ◌≡◌, ◌≤◌, ◌↔◌, refl, true, false, none, List, [], ◌∷◌, ok, err, not_found, All, Pairs, IsOk,
  IsAmong,
}
use billing_platform.Base.Int.{ℤ, pos, ◌+ℤ◌, ◌-ℤ◌}
use billing_platform.Decimal.Fixed.{fixed, fixed-IsGroup}
use billing_platform.Decimal.Fixed.Rounding.{fixed-IsRounding}
use billing_platform.Money
use billing_platform.Money.{Money, minor_units}
use billing_platform.Gst.Types.{
  inclusive, exclusive, b2b, TaxableLine, TaxCalculationInput, TaxLineResult, TaxCalculationResult,
  TaxRateMaster, taxable, GstState,
}
use billing_platform.Gst.Rates.{
  resolve, covers_date, is_match, resolve-latest, get_by_code, latest_match,
}
use billing_platform.Gst.Line.{calculate_line}
use billing_platform.Gst.Line.Sums.{IsReconciled, calculate_line-IsReconciled}
use billing_platform.Gst.Line.Settled.{IsSettled, IsSettledComponent, calculate_line-IsSettled}
use billing_platform.Gst.Engine.{calculate, calculate_lines}
use billing_platform.Gst.Engine.Sums.{IsTotalled, calculate-IsTotalled}
use billing_platform.Gst.Engine.Total.{IsReady, calculate_iff}

abbrev rupees : ℕ → Money ℤ
rupees a = record { amount = pos a; currency = "INR" }

-- 18% from day 100 on, after 12% from day 1.
abbrev old_rate : TaxRateMaster ℤ
old_rate = record {
  id = 1;
  organisation_id = 7;
  country_code = "IN";
  hsn_sac_code = "998877";
  classification = taxable;
  gst_rate = pos 120000;
  cess_rate = pos 0;
  valid_from = 1;
  valid_to = none;
}

abbrev new_rate : TaxRateMaster ℤ
new_rate = record {
  id = 2;
  organisation_id = 7;
  country_code = "IN";
  hsn_sac_code = "998877";
  classification = taxable;
  gst_rate = pos 180000;
  cess_rate = pos 0;
  valid_from = 100;
  valid_to = none;
}

abbrev rates : List (TaxRateMaster ℤ)
rates = old_rate ∷ new_rate ∷ []

abbrev states : List GstState
states =
    record { code = "27"; name = "Maharashtra"; is_union_territory = false }
    ∷ record { code = "04"; name = "Chandigarh"; is_union_territory = true }
    ∷ []

-- 90 rupees, tax included.
abbrev line : TaxableLine ℤ
line = record {
  line_ref = "1";
  hsn_sac_code = "998877";
  amount = rupees 900000;
  pricing_mode = inclusive;
}

abbrev input : TaxCalculationInput ℤ
input = record {
  organisation_id = 7;
  lines = line ∷ record line { pricing_mode = exclusive } ∷ [];
  supplier_state_code = "27";
  supply_place = record { state_code = "27" };
  document_date = 150;
  supply_type = b2b;
  reverse_charge = false;
  currency_code = "INR";
}

resolves : resolve rates 7 "IN" "998877" 150 ≡ ok new_rate
unfolding resolve latest_match is_match
resolves = refl

-- The fixture of the engine's tests: 90.00 with 18% included is 76.28 and 6.86 twice.
abbrev line_result : TaxLineResult ℤ
line_result = record {
  line_ref = "1";
  hsn_sac_code = "998877";
  pricing_mode = inclusive;
  gross_amount = rupees 900000;
  taxable_amount = rupees 762800;
  total_tax = rupees 137200;
  classification = taxable;
  components =
      record { kind = "CGST"; rate = pos 90000; amount = rupees 68600 }
      ∷ record { kind = "SGST"; rate = pos 90000; amount = rupees 68600 }
      ∷ [];
  rate_master_id = 2;
}

ninety_rupees : calculate_line minor_units (resolve rates) 7 150 line true false ≡ ok line_result
unfolding calculate_line resolve latest_match is_match ◌+ℤ◌ ◌-ℤ◌ Money.new Money.minor_digits
    Money.zero_money Money.round Money.add Money.sub
ninety_rupees = refl

-- The same amount with the tax on top.
abbrev exclusive_result : TaxLineResult ℤ
exclusive_result = record {
  line_ref = "1";
  hsn_sac_code = "998877";
  pricing_mode = exclusive;
  gross_amount = rupees 1062000;
  taxable_amount = rupees 900000;
  total_tax = rupees 162000;
  classification = taxable;
  components =
      record { kind = "CGST"; rate = pos 90000; amount = rupees 81000 }
      ∷ record { kind = "SGST"; rate = pos 90000; amount = rupees 81000 }
      ∷ [];
  rate_master_id = 2;
}

abbrev result : TaxCalculationResult ℤ
result = record {
  lines = line_result ∷ exclusive_result ∷ [];
  total_taxable_amount = rupees 1662800;
  total_tax_amount = rupees 299200;
  grand_total = rupees 1962000;
}

two_lines : calculate minor_units (resolve rates) (get_by_code states) input ≡ ok result
unfolding calculate calculate_lines calculate_line get_by_code resolve latest_match is_match ◌+ℤ◌
    ◌-ℤ◌ Money.new Money.minor_digits Money.zero_money Money.round Money.add Money.sub
two_lines = refl

-- A code that no row has, and a date before the first row.
untaxed : resolve rates 7 "IN" "1001" 150 ≡ err not_found
unfolding resolve latest_match is_match
untaxed = refl

resolve-latest_example :
    IsAmong new_rate rates
    × (new_rate.organisation_id ≡ 7)
    × (new_rate.country_code ≡ "IN")
    × (new_rate.hsn_sac_code ≡ "998877")
    × (covers_date new_rate 150 ≡ true)
    × All (λ s. is_match 7 "IN" "998877" 150 s ≡ true → s.valid_from ≤ new_rate.valid_from) rates
resolve-latest_example = resolve-latest 7 "IN" "998877" 150 rates resolves

calculate_line-IsReconciled_example : IsReconciled minor_units line line_result
calculate_line-IsReconciled_example =
    calculate_line-IsReconciled fixed-IsGroup minor_units (resolve rates) 7 150 line true false
      ninety_rupees

calculate_line-IsSettled_example :
    All (IsSettledComponent minor_units) line_result.components
    × IsSettled minor_units line_result.total_tax
    × IsSettled minor_units line_result.taxable_amount
    × IsSettled minor_units line_result.gross_amount
calculate_line-IsSettled_example =
    calculate_line-IsSettled fixed-IsGroup fixed-IsRounding minor_units (resolve rates) 7 150 line
      true false ninety_rupees

calculate-IsTotalled_example :
    Pairs (IsReconciled minor_units) input.lines result.lines × IsTotalled "INR" result
calculate-IsTotalled_example =
    calculate-IsTotalled fixed-IsGroup minor_units (resolve rates) (get_by_code states) input
      two_lines

calculate_iff_example :
    IsOk (calculate minor_units (resolve rates) (get_by_code states) input)
    ↔ IsReady minor_units (resolve rates) (get_by_code states) input
calculate_iff_example = calculate_iff minor_units (resolve rates) (get_by_code states) input
