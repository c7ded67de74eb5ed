-- ===== src/Permissions.antt =====
-- internal/platform/permissions: grants, API-key scopes and the check of `Require`.
pub mod Access
pub mod Scopes
mod Tests
use billing_platform.Base.{
  ◌&&◌, not, Bool, true, false, Option, none, some, List, [], ◌∷◌, ◌++◌, String, str_eq,
  if◌then◌else◌, Result, ok, err, Error, forbidden, Uuid, ◌==◌, Dict, lookup, insert,
}

pub record Grant : Type 0 where
  pub permission_code : String
  pub legal_entity_id : Option Uuid
  pub branch_id : Option Uuid
  pub warehouse_id : Option Uuid

pub record Scope : Type 0 where
  pub legal_entity_id : Option Uuid
  pub branch_id : Option Uuid
  pub warehouse_id : Option Uuid

unfoldable pub level_matches : Option Uuid → Option Uuid → Bool
level_matches none scope_value = true
level_matches (some g) none = false
level_matches (some g) (some s) = g == s

-- One round of the loop of `Require`.
unfoldable pub grant_matches : Grant → String → Scope → Bool
grant_matches g code scope =
    str_eq g.permission_code code
    && level_matches g.legal_entity_id scope.legal_entity_id
    && level_matches g.branch_id scope.branch_id
    && level_matches g.warehouse_id scope.warehouse_id

unfoldable pub any_grant : List Grant → String → Scope → Bool
any_grant [] code scope = false
any_grant (g ∷ grants) code scope =
    let rest = any_grant grants code scope in if grant_matches g code scope then true else rest

-- A Go map of flags, where a key that is absent reads as false.
unfoldable pub flag : String → Dict Bool → Bool
flag code flags = elim (lookup code flags) [ none ↦ false | some b ↦ b ]

-- The second half of `Require`: the loaded grants.
unfoldable pub check_grants : Result (List Grant) → String → Scope → Result (Unit {0})
check_grants (err e) code scope = err e
check_grants (ok grants) code scope = if any_grant grants code scope then ok tt else err forbidden

-- The request carries an API key's restriction that does not name the code.
unfoldable pub restricts : Option (Dict Bool) → String → Bool
restricts none code = false
restricts (some restricted) code = not (flag code restricted)

unfoldable pub require :
    Option (Dict Bool) → Result (List Grant) → String → Scope → Result (Unit {0})
require restricted loaded code scope =
    if restricts restricted code then err forbidden else check_grants loaded code scope

abbrev pub api_scope_permissions : Dict (List String)
api_scope_permissions =
    ("products:read", "catalogue.view" ∷ [])
    ∷ ("inventory:read", "inventory.view" ∷ [])
    ∷ ("customers:read", "contacts.view" ∷ [])
    ∷ ("customers:write", "contacts.view" ∷ "contacts.manage" ∷ [])
    ∷ ("invoices:read", "sales.view" ∷ [])
    ∷ ("invoices:write", "sales.view" ∷ "sales.create" ∷ "sales.edit_draft" ∷ [])
    ∷ ("reports:read", "reports.view" ∷ [])
    ∷ []

-- The codes of a scope, none for one that is not in the table.
unfoldable pub codes_of : String → Dict (List String) → List String
codes_of scope table = elim (lookup scope table) [ none ↦ [] | some codes ↦ codes ]

unfoldable pub set_flags : List String → Dict Bool → Dict Bool
set_flags [] flags = flags
set_flags (code ∷ codes) flags = set_flags codes (insert code true flags)

-- The loop of `PermissionsForScopes`, over a table.
unfoldable pub expand : Dict (List String) → List String → Dict Bool → Dict Bool
expand table [] flags = flags
expand table (scope ∷ scopes) flags = expand table scopes (set_flags (codes_of scope table) flags)

unfoldable pub permissions_for_scopes : List String → Dict Bool
unfolding expand
permissions_for_scopes scopes = expand api_scope_permissions scopes []
