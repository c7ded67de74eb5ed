-- ===== src/Permissions/Tests.antt =====
-- An action of a warehouse clerk, and of an API key, and the theorems at them.
use billing_platform.Base.{◌≡◌, ◌↔◌, none, some, true, List, [], ◌∷◌, ok, Result, IsOk}
use billing_platform.Permissions.{
  Grant, Scope, flag, require, permissions_for_scopes, api_scope_permissions,
}
use billing_platform.Permissions.Access.{IsPermitted, IsGranted, require_iff}
use billing_platform.Permissions.Scopes.{IsListed, permissions_for_scopes_iff}

abbrev clerk : List Grant
clerk =
    record {
      permission_code = "inventory.view";
      legal_entity_id = none;
      branch_id = none;
      warehouse_id = some 20;
    }
    ∷ []

abbrev warehouse_20 : Scope
warehouse_20 = record { legal_entity_id = none; branch_id = none; warehouse_id = some 20 }

require_iff_example : IsOk (require none (ok clerk) "inventory.view" warehouse_20) ↔ (
    IsPermitted none "inventory.view"
    × ((grants : List Grant) × (Path (Result (List Grant)) (ok clerk) (ok grants))
        × IsGranted grants "inventory.view" warehouse_20))
require_iff_example = require_iff none (ok clerk) "inventory.view" warehouse_20

permissions_for_scopes_iff_example :
    (flag "sales.view" (permissions_for_scopes ("invoices:write" ∷ [])) ≡ true)
    ↔ IsListed api_scope_permissions ("invoices:write" ∷ []) "sales.view"
permissions_for_scopes_iff_example = permissions_for_scopes_iff ("invoices:write" ∷ []) "sales.view"
