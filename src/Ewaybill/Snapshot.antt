-- ===== src/Ewaybill/Snapshot.antt =====
-- What an update does to the row that a document's query finds, and the bill captured in it.
use mathlib.Core.Path.{ap₂}
use billing_platform.Base.{
  ◌≡◌, refl, ap, ◌∙◌, ◌&&◌, inl, inr, Bool, true, false, Option, none, some, List, [], ◌∷◌,
  if◌then◌else◌, Uuid, ◌==◌, leb, Bool-cases,
}
use billing_platform.Ewaybill.Types.{Record}
use billing_platform.Ewaybill.Records.{latest, update_rows}

module _ {D : Type 0} where
  -- A change that leaves the document, the organisation and the time of creation.
  abbrev pub KeepsPlace : (Record D → Record D) → Type 0
  KeepsPlace change =
      (r : Record D)
      → ((change r).organisation_id ≡ r.organisation_id)
        × ((change r).sales_document_id ≡ r.sales_document_id)
        × ((change r).created_at ≡ r.created_at)

  abbrev pub changed_if : Uuid → Uuid → (Record D → Record D) → Record D → Record D
  changed_if org id change r = if (r.id == id) && (r.organisation_id == org) then change r else r

  abbrev pub mapped : (Record D → Record D) → Option (Record D) → Option (Record D)
  mapped change none = none
  mapped change (some r) = some (change r)

  changed_if-KeepsPlace :
      (org id : Uuid) (change : Record D → Record D)
      → KeepsPlace change
      → KeepsPlace (changed_if org id change)
  changed_if-KeepsPlace org id change keeps r =
      elim (Bool-cases ((r.id == id) && (r.organisation_id == org))) [
        | inl e ↦ rw (e) (keeps r)
        | inr e ↦ rw (e) (refl, refl, refl)
      ]

  abbrev pick : Record D → Option (Record D) → Option (Record D)
  pick r rest = elim rest [
    | none ↦ some r
    | some x ↦ if leb r.created_at x.created_at then some x else some r
  ]

  choose-mapped :
      (change : Record D → Record D) (r x : Record D) (test : Bool)
      → (if test then some (change x) else some (change r))
        ≡ mapped change (if test then some x else some r)
  choose-mapped change r x true = refl
  choose-mapped change r x false = refl

  pick-mapped :
      (change : Record D → Record D) (r : Record D) (rest : Option (Record D))
      → KeepsPlace change
      → pick (change r) (mapped change rest) ≡ mapped change (pick r rest)
  pick-mapped change r none keeps = refl
  pick-mapped change r (some x) keeps =
      ap (λ t. if t then some (change x) else some (change r)) (ap₂ leb (keeps r).2 (keeps x).2)
      ∙ choose-mapped change r x (leb r.created_at x.created_at)

  mapped_rows : (Record D → Record D) → List (Record D) → List (Record D)
  mapped_rows change [] = []
  mapped_rows change (r ∷ rows) = change r ∷ mapped_rows change rows

  latest-mapped_rows :
      (org doc : Uuid) (change : Record D → Record D) (rows : List (Record D))
      → KeepsPlace change
      → latest org doc (mapped_rows change rows) ≡ mapped change (latest org doc rows)
  unfolding latest mapped_rows
  latest-mapped_rows org doc change [] keeps = refl
  latest-mapped_rows org doc change (r ∷ rows) keeps =
      let rest = latest-mapped_rows org doc change rows keeps in
      elim (Bool-cases ((r.organisation_id == org) && (r.sales_document_id == doc))) [
        | inl e ↦
            rw (latest, (keeps r).0, (keeps r).1, e, rest)
              (pick-mapped change r (latest org doc rows) keeps)
        | inr e ↦ rw (latest, (keeps r).0, (keeps r).1, e) rest
      ]

  update_rows-mapped :
      (org id : Uuid) (change : Record D → Record D) (rows : List (Record D))
      → update_rows org id change rows ≡ mapped_rows (changed_if org id change) rows
  unfolding update_rows mapped_rows
  update_rows-mapped org id change [] = refl
  update_rows-mapped org id change (r ∷ rows) =
      ap (λ t. changed_if org id change r ∷ t) (update_rows-mapped org id change rows)

  -- The query of a document after an update finds the row that it found before, changed or not.
  pub latest-update_rows :
      (org id doc : Uuid) (change : Record D → Record D) (rows : List (Record D))
      → KeepsPlace change
      → latest org doc (update_rows org id change rows)
        ≡ mapped (changed_if org id change) (latest org doc rows)
  latest-update_rows org id doc change rows keeps =
      ap (latest org doc) (update_rows-mapped org id change rows)
      ∙ latest-mapped_rows org doc (changed_if org id change) rows
          (changed_if-KeepsPlace org id change keeps)
