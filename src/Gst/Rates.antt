-- ===== src/Gst/Rates.antt =====
-- The reference tables of gstindia: `CoversDate` of domain/domain.go, and the two queries of
-- pg/pg.go that the engine calls, over the tables as lists of rows.
use mathlib.Core.Path.{subst}
use billing_platform.Base.{
  sym, refl, ◌≡◌, ◌≤◌, Bool, true, false, not, ◌&&◌, Option, none, some, List, [], ◌∷◌, String,
  str_eq, if◌then◌else◌, Result, ok, err, not_found, unknown_state, Uuid, Time, ltb, leb, ◌==◌,
  arith, eq_iff, All, All-mono, IsAmong, Option-cases, Bool-cases, inl, inr,
}
use billing_platform.Gst.Types.{TaxRateMaster, GstState}

module _ {D : Type 0} where
  -- `asOf.Before(r.ValidFrom)` and `asOf.After(*r.ValidTo)`
  unfoldable pub covers_date : TaxRateMaster D → Time → Bool
  covers_date r as_of =
      if ltb as_of r.valid_from
      then false
      else elim r.valid_to [ none ↦ true | some to ↦ not (ltb to as_of) ]

  -- The WHERE clause of `Resolve`. The columns and the argument are dates, as midnights.
  unfoldable pub is_match : Uuid → String → String → Time → TaxRateMaster D → Bool
  is_match org country hsn as_of r =
      (r.organisation_id == org)
      && str_eq r.country_code country
      && str_eq r.hsn_sac_code hsn
      && leb r.valid_from as_of
      && elim r.valid_to [ none ↦ true | some to ↦ leb as_of to ]

  -- ORDER BY valid_from DESC LIMIT 1. The query leaves open which of two rows with one start it
  -- returns; here it is the first.
  later_start : TaxRateMaster D → Option (TaxRateMaster D) → Option (TaxRateMaster D)
  later_start r none = some r
  later_start r (some best) = if ltb r.valid_from best.valid_from then some best else some r

  unfoldable pub latest_match :
      Uuid → String → String → Time → List (TaxRateMaster D) → Option (TaxRateMaster D)
  unfolding later_start
  latest_match org country hsn as_of [] = none
  latest_match org country hsn as_of (r ∷ rows) =
      let rest = latest_match org country hsn as_of rows in
      if is_match org country hsn as_of r then later_start r rest else rest

  unfoldable pub resolve :
      List (TaxRateMaster D) → Uuid → String → String → Time → Result (TaxRateMaster D)
  resolve rows org country hsn as_of = elim (latest_match org country hsn as_of rows) [
    | none ↦ err not_found
    | some r ↦ ok r
  ]

  -- The query and `CoversDate` agree on the dates.
  pub is_match-covers_date :
      (org : Uuid) (country hsn : String) (as_of : Time) (r : TaxRateMaster D)
      → is_match org country hsn as_of r ≡ true
      → (r.organisation_id ≡ org)
        × (r.country_code ≡ country)
        × (r.hsn_sac_code ≡ hsn)
        × (covers_date r as_of ≡ true)
  unfolding is_match covers_date
  is_match-covers_date org country hsn as_of r h =
      ground (arith, eq_iff r.country_code country, eq_iff r.hsn_sac_code hsn)

  -- No row that matches starts later than `best`, and with no `best` none matches.
  abbrev IsLatest :
      Uuid → String → String → Time → Option (TaxRateMaster D) → TaxRateMaster D → Type 0
  IsLatest org country hsn as_of none r = is_match org country hsn as_of r ≡ false
  IsLatest org country hsn as_of (some best) r =
      is_match org country hsn as_of r ≡ true → r.valid_from ≤ best.valid_from

  module _ (org : Uuid) (country hsn : String) (as_of : Time) where
    later_start-IsLatest :
        (r : TaxRateMaster D) (o : Option (TaxRateMaster D)) (s : TaxRateMaster D)
        → IsLatest org country hsn as_of o s
        → IsLatest org country hsn as_of (later_start r o) s
    unfolding later_start
    later_start-IsLatest r none s h = ground arith
    later_start-IsLatest r (some best) s h = ground arith

    later_start-IsLatest_self :
        (r : TaxRateMaster D) (o : Option (TaxRateMaster D))
        → IsLatest org country hsn as_of (later_start r o) r
    unfolding later_start
    later_start-IsLatest_self r none = ground arith
    later_start-IsLatest_self r (some best) = ground arith

    IsLatest-unmatched :
        (r : TaxRateMaster D) (o : Option (TaxRateMaster D))
        → is_match org country hsn as_of r ≡ false
        → IsLatest org country hsn as_of o r
    IsLatest-unmatched r none h = h
    IsLatest-unmatched r (some best) h = λ m. ground arith

    latest_match-cons :
        (r : TaxRateMaster D) (rows : List (TaxRateMaster D))
        → latest_match org country hsn as_of (r ∷ rows) ≡ (
            if is_match org country hsn as_of r
            then later_start r (latest_match org country hsn as_of rows)
            else latest_match org country hsn as_of rows)
    unfolding latest_match
    latest_match-cons r rows = refl

    latest_match-IsLatest :
        (rows : List (TaxRateMaster D))
        → All (IsLatest org country hsn as_of (latest_match org country hsn as_of rows)) rows
    latest_match-IsLatest [] = tt
    latest_match-IsLatest (r ∷ rows) =
        let rest = latest_match org country hsn as_of rows in
        let step =
          λ (o : Option (TaxRateMaster D)). All (IsLatest org country hsn as_of o) (r ∷ rows) in
        let ih = latest_match-IsLatest rows in
        elim (Bool-cases (is_match org country hsn as_of r)) [
          | inl yes_match ↦ subst step (sym (rw (latest_match-cons, yes_match))) (
            later_start-IsLatest_self r rest,
            All-mono (IsLatest org country hsn as_of rest)
                (IsLatest org country hsn as_of (later_start r rest)) rows
                (later_start-IsLatest r rest) ih,
          )
          | inr no_match ↦
              subst step (sym (rw (latest_match-cons, no_match)))
                (IsLatest-unmatched r rest no_match, ih)
        ]

    latest_match-IsAmong :
        (rows : List (TaxRateMaster D)) {r : TaxRateMaster D}
        → latest_match org country hsn as_of rows ≡ some r
        → IsAmong r rows × (is_match org country hsn as_of r ≡ true)
    unfolding latest_match later_start
    latest_match-IsAmong [] h = cc
    latest_match-IsAmong (x ∷ rows) {r} h =
        elim (Option-cases (latest_match org country hsn as_of rows)) [
          | inl e ↦ ground arith
          | inr (best, e) ↦ ground (arith, latest_match-IsAmong rows e)
        ]

    resolve-some :
        (rows : List (TaxRateMaster D)) {r : TaxRateMaster D}
        → resolve rows org country hsn as_of ≡ ok r
        → latest_match org country hsn as_of rows ≡ some r
    unfolding resolve
    resolve-some rows h = ground arith

    -- A rate that `resolve` returns is a row of the table for the organisation, the country and the
    -- code, covers the date, and no other such row starts later.
    pub resolve-latest :
        (rows : List (TaxRateMaster D)) {r : TaxRateMaster D}
        → resolve rows org country hsn as_of ≡ ok r
        → IsAmong r rows
          × (r.organisation_id ≡ org)
          × (r.country_code ≡ country)
          × (r.hsn_sac_code ≡ hsn)
          × (covers_date r as_of ≡ true)
          × All (λ s. is_match org country hsn as_of s ≡ true → s.valid_from ≤ r.valid_from) rows
    resolve-latest rows {r} h =
        let e = resolve-some rows h in
        let (among, matched) = latest_match-IsAmong rows e in
        let (o, c, k, dates) = is_match-covers_date org country hsn as_of r matched in
        (
          among,
          o,
          c,
          k,
          dates,
          subst (λ b. All (IsLatest org country hsn as_of b) rows) e (latest_match-IsLatest rows),
        )

unfoldable pub get_by_code : List GstState → String → Result GstState
get_by_code [] code = err unknown_state
get_by_code (s ∷ states) code = if str_eq s.code code then ok s else get_by_code states code
