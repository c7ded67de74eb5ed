-- ===== src/Permissions/Access.antt =====
-- Whom `Require` of internal/platform/permissions/permissions.go lets through.
use billing_platform.Base.{
  ◌≡◌, ◌↔◌, ◌⊎◌, inl, inr, refl, Bool, true, false, Option, none, some, List, [], ◌∷◌, String,
  eq_iff, Result, ok, err, Uuid, arith, IsAmong, IsOk, Bool-cases, Dict,
}
use billing_platform.Permissions.{
  Grant, Scope, level_matches, grant_matches, any_grant, flag, check_grants, restricts, require,
}

-- The grant is unrestricted at the level, or restricted to what the action names there.
abbrev pub IsCovered : Option Uuid → Option Uuid → Type 0
IsCovered grant_value scope_value =
    (grant_value ≡ none)
    ⊎ ((level : Uuid) × (grant_value ≡ some level) × (scope_value ≡ some level))

pub record IsCovering (g : Grant) (code : String) (scope : Scope) : Type 0 where
  pub coded : g.permission_code ≡ code
  pub legal_entity : IsCovered g.legal_entity_id scope.legal_entity_id
  pub branch : IsCovered g.branch_id scope.branch_id
  pub warehouse : IsCovered g.warehouse_id scope.warehouse_id

-- The restriction of an API key names the code, if there is one.
abbrev pub IsPermitted : Option (Dict Bool) → String → Type 0
IsPermitted none code = Unit
IsPermitted (some restricted) code = flag code restricted ≡ true

restricts_iff :
    (restricted : Option (Dict Bool)) (code : String)
    → (restricts restricted code ≡ false) ↔ IsPermitted restricted code
unfolding restricts
restricts_iff none code = (λ h. tt, λ h. refl)
restricts_iff (some restricted) code = (λ h. ground arith, λ h. ground arith)

level_matches_iff : (g s : Option Uuid) → (level_matches g s ≡ true) ↔ IsCovered g s
unfolding level_matches
level_matches_iff none s = (λ h. inl refl, λ h. refl)
level_matches_iff (some g) none = (λ h. cc, λ h. elim h [ inl e ↦ cc | inr (level, e, f) ↦ cc ])
level_matches_iff (some g) (some s) = (
  λ h. inr (g, refl, ground arith),
  λ h. elim h [ inl e ↦ cc | inr (level, e, f) ↦ ground arith ],
)

grant_matches_iff :
    (g : Grant) (code : String) (scope : Scope)
    → (grant_matches g code scope ≡ true) ↔ IsCovering g code scope
unfolding grant_matches
grant_matches_iff g code scope = (
  λ h. record {
    coded = (eq_iff g.permission_code code).0 (ground arith);
    legal_entity = (level_matches_iff g.legal_entity_id scope.legal_entity_id).0 (ground arith);
    branch = (level_matches_iff g.branch_id scope.branch_id).0 (ground arith);
    warehouse = (level_matches_iff g.warehouse_id scope.warehouse_id).0 (ground arith);
  },
  λ c.
      let e1 = (eq_iff g.permission_code code).1 c.coded in
      let e2 = (level_matches_iff g.legal_entity_id scope.legal_entity_id).1 c.legal_entity in
      let e3 = (level_matches_iff g.branch_id scope.branch_id).1 c.branch in
      let e4 = (level_matches_iff g.warehouse_id scope.warehouse_id).1 c.warehouse in ground arith,
)

-- Some loaded grant covers the action.
abbrev pub IsGranted : List Grant → String → Scope → Type 0
IsGranted grants code scope = (g : Grant) × IsAmong g grants × IsCovering g code scope

any_grant_iff :
    (grants : List Grant) (code : String) (scope : Scope)
    → (any_grant grants code scope ≡ true) ↔ IsGranted grants code scope
unfolding any_grant
any_grant_iff [] code scope = (λ h. cc, λ (g, among, c). absurd among)
any_grant_iff (g ∷ grants) code scope = elim (Bool-cases (grant_matches g code scope)) [
  | inl e ↦ (λ h. (g, inl refl, (grant_matches_iff g code scope).0 e), λ i. rw (any_grant, e) refl)
  | inr e ↦ (
    λ h.
        let (found, among, c) = (any_grant_iff grants code scope).0 (rw (any_grant, e) at h) in
        (found, inr among, c),
    λ (found, among, c). elim among [
      | inl is ↦
          let matched = (grant_matches_iff found code scope).1 c in absurd (cc (rw is at matched))
      | inr rest ↦ rw (any_grant, e) ((any_grant_iff grants code scope).1 (found, rest, c))
    ],
  )
]

check_grants_iff :
    (loaded : Result (List Grant)) (code : String) (scope : Scope)
    → IsOk (check_grants loaded code scope)
      ↔ ((grants : List Grant) × (loaded ≡ ok grants) × IsGranted grants code scope)
unfolding check_grants
check_grants_iff (err e) code scope = (λ h. absurd h, λ (grants, f, i). cc)
check_grants_iff (ok grants) code scope = elim (Bool-cases (any_grant grants code scope)) [
  | inl e ↦
      (λ h. (grants, refl, (any_grant_iff grants code scope).0 e), λ i. rw (check_grants, e) tt)
  | inr e ↦ (
    λ h. absurd (rw (check_grants, e) at h),
    λ (gs, f, i).
        let same : gs ≡ grants = cc in
        let held = (any_grant_iff gs code scope).1 i in absurd (cc (rw same at held)),
  )
]

-- `Require` lets an action through exactly if an API key's restriction, when there is one, names its
-- permission, the store loads the grants, and one of them is for that permission and, at each of
-- legal entity, branch and warehouse, is unrestricted or names what the action names.
pub require_iff :
    (restricted : Option (Dict Bool)) (loaded : Result (List Grant)) (code : String) (scope : Scope)
    → IsOk (require restricted loaded code scope) ↔ (
        IsPermitted restricted code
        × ((grants : List Grant) × (loaded ≡ ok grants) × IsGranted grants code scope))
unfolding require
require_iff restricted loaded code scope = elim (Bool-cases (restricts restricted code)) [
  | inl e ↦ (
    λ h. absurd (rw (require, e) at h),
    λ i. absurd (cc (rw ((restricts_iff restricted code).1 i.0) at e)),
  )
  | inr e ↦ (
    λ h. (
      (restricts_iff restricted code).0 e,
      (check_grants_iff loaded code scope).0 (rw (require, e) at h),
    ),
    λ i. rw (require, e) ((check_grants_iff loaded code scope).1 i.1),
  )
]
