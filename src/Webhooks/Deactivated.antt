-- ===== src/Webhooks/Deactivated.antt =====
-- The endpoints that a source event still reaches after `DeactivateEndpoint`.
use mathlib.Core.Path.{subst}
use billing_platform.Base.{
  ◌≡◌, refl, sym, ap, ◌∙◌, ◌↔◌, ◌&&◌, inl, inr, true, false, List, [], ◌∷◌, ok, String, Uuid, ◌==◌,
  Bool-cases, IsAmong, arith,
}
use billing_platform.Transaction.{Env, Principal, bind_ok, lift_ok, state_of}
use billing_platform.Webhooks.{
  Endpoint, deactivated, deactivate_endpoint, is_subscribed, list_subscribed,
}

abbrev off : Endpoint → Endpoint
off x = record x { is_active = false }

off-is_subscribed :
    (org : Uuid) (event_type : String) (x : Endpoint) → is_subscribed org event_type (off x) ≡ false
unfolding is_subscribed
off-is_subscribed org event_type x = elim (Bool-cases (x.organisation_id == org)) [
  | inl h ↦ rw (is_subscribed, h) refl
  | inr h ↦ rw (is_subscribed, h) refl
]

subscribed-own :
    (org : Uuid) (event_type : String) (x : Endpoint)
    → is_subscribed org event_type x ≡ true
    → (x.organisation_id == org) ≡ true
unfolding is_subscribed
subscribed-own org event_type x h = ground arith

-- The update makes of the subscribed endpoints those that have another identifier.
deactivated_iff :
    (org id : Uuid) (event_type : String) (ep : Endpoint) (endpoints : List Endpoint)
    → IsAmong ep (list_subscribed org event_type (deactivated org id endpoints))
      ↔ (IsAmong ep (list_subscribed org event_type endpoints) × ((ep.id == id) ≡ false))
unfolding list_subscribed deactivated
deactivated_iff org id event_type ep [] = (λ h. absurd h, λ (h, e). absurd h)
deactivated_iff org id event_type ep (x ∷ endpoints) =
    let rest = deactivated_iff org id event_type ep endpoints in
    let hit = (x.organisation_id == org) && (x.id == id) in
    let is_hit : (ep ≡ x) → (ep.id == id) ≡ (x.id == id) =
      λ same. ap (λ (y : Endpoint). y.id == id) same in
    elim (Bool-cases hit) [
      | inl k ↦ elim (Bool-cases (is_subscribed org event_type x)) [
        | inl w ↦ (
          λ h.
              let (there, apart) =
                rest.0
                  (rw (deactivated, k, list_subscribed, off-is_subscribed org event_type x) at h) in
              (rw (list_subscribed, w) (inr there), apart),
          λ (h, apart).
              rw (deactivated, k, list_subscribed, off-is_subscribed org event_type x)
                (elim (rw (list_subscribed, w) at h) [
                  | inl same ↦ let e = is_hit same in absurd (ground arith)
                  | inr there ↦ rest.1 (there, apart)
                ]),
        )
        | inr w ↦ (
          λ h.
              let (there, apart) =
                rest.0
                  (rw (deactivated, k, list_subscribed, off-is_subscribed org event_type x) at h) in
              (rw (list_subscribed, w) there, apart),
          λ (h, apart).
              rw (deactivated, k, list_subscribed, off-is_subscribed org event_type x)
                (rest.1 (rw (list_subscribed, w) at h, apart)),
        )
      ]
      | inr k ↦ elim (Bool-cases (is_subscribed org event_type x)) [
        | inl w ↦
            let own = subscribed-own org event_type x w in
            let other : (x.id == id) ≡ false = ground arith in
            (
              λ h. elim (rw (deactivated, k, list_subscribed, w) at h) [
                | inl same ↦ (rw (list_subscribed, w) (inl same), is_hit same ∙ other)
                | inr there ↦
                    let (among, apart) = rest.0 there in
                    (rw (list_subscribed, w) (inr among), apart)
              ],
              λ (h, apart).
                  rw (deactivated, k, list_subscribed, w)
                    (elim (rw (list_subscribed, w) at h) [
                      | inl same ↦ inl same
                      | inr there ↦ inr (rest.1 (there, apart))
                    ]),
            )
        | inr w ↦ (
          λ h.
              let (there, apart) = rest.0 (rw (deactivated, k, list_subscribed, w) at h) in
              (rw (list_subscribed, w) there, apart),
          λ (h, apart).
              rw (deactivated, k, list_subscribed, w)
                (rest.1 (rw (list_subscribed, w) at h, apart)),
        )
      ]
    ]

subscribed-other :
    (org other : Uuid) (event_type : String) (x : Endpoint)
    → (other == org) ≡ false
    → (x.organisation_id == org) ≡ true
    → is_subscribed other event_type x ≡ false
unfolding is_subscribed
subscribed-other org other event_type x apart own =
    let elsewhere : (x.organisation_id == other) ≡ false = ground arith in
    rw (is_subscribed, elsewhere) refl

hit-own :
    (org id : Uuid) (x : Endpoint)
    → ((x.organisation_id == org) && (x.id == id)) ≡ true
    → (x.organisation_id == org) ≡ true
hit-own org id x h = ground arith

-- The endpoints of another organisation are left alone.
deactivated-other :
    (org id other : Uuid) (event_type : String) (endpoints : List Endpoint)
    → (other == org) ≡ false
    → list_subscribed other event_type (deactivated org id endpoints)
      ≡ list_subscribed other event_type endpoints
unfolding list_subscribed deactivated
deactivated-other org id other event_type [] apart = refl
deactivated-other org id other event_type (x ∷ endpoints) apart =
    let rest = deactivated-other org id other event_type endpoints apart in
    elim (Bool-cases ((x.organisation_id == org) && (x.id == id))) [
      | inl k ↦
          let none_of_it = subscribed-other org other event_type x apart (hit-own org id x k) in
          rw (deactivated, k, list_subscribed, off-is_subscribed other event_type x, none_of_it)
            rest
      | inr k ↦ elim (Bool-cases (is_subscribed other event_type x)) [
        | inl w ↦ rw (deactivated, k, list_subscribed, w, rest) refl
        | inr w ↦ rw (deactivated, k, list_subscribed, w, rest) refl
      ]
    ]

-- After DeactivateEndpoint succeeded, the endpoints that an event of the principal's organisation
-- is fanned out to are those that it was fanned out to before and that have another identifier,
-- and those of every other organisation are the same as before.
pub deactivate_endpoint-list_subscribed :
    (env : Env) (principal : Principal) (id : Uuid) (event_type : String)
    (endpoints endpoints' : List Endpoint)
    → deactivate_endpoint env principal id endpoints ≡ ok (tt, endpoints')
    → ((ep : Endpoint)
        → IsAmong ep (list_subscribed principal.organisation_id event_type endpoints') ↔ (
            IsAmong ep (list_subscribed principal.organisation_id event_type endpoints)
            × ((ep.id == id) ≡ false)))
      × ((other : Uuid)
          → (other == principal.organisation_id) ≡ false
          → list_subscribed other event_type endpoints'
            ≡ list_subscribed other event_type endpoints)
unfolding deactivate_endpoint
deactivate_endpoint-list_subscribed env principal id event_type endpoints endpoints' h =
    let org = principal.organisation_id in
    let (u, c, e, k) = bind_ok _ _ endpoints h in
    let unread : c ≡ endpoints = (lift_ok _ endpoints e).1 in
    let is : deactivated org id endpoints ≡ endpoints' =
      ap (deactivated org id) (sym unread) ∙ ap (state_of endpoints) k in
    subst
      (λ (es : List Endpoint).
        ((ep : Endpoint)
          → IsAmong ep (list_subscribed org event_type es)
            ↔ (IsAmong ep (list_subscribed org event_type endpoints) × ((ep.id == id) ≡ false)))
        × ((other : Uuid)
            → (other == org) ≡ false
            → list_subscribed other event_type es ≡ list_subscribed other event_type endpoints))
      is
      (
        λ ep. deactivated_iff org id event_type ep endpoints,
        λ other apart. deactivated-other org id other event_type endpoints apart,
      )
