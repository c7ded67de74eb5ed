-- ===== src/Webhooks/Subscribed.antt =====
-- The endpoints that a source event is fanned out to.
use billing_platform.Base.{
  ◌≡◌, refl, sym, ap, ◌∙◌, ◌↔◌, inl, inr, true, List, [], ◌∷◌, String, str_eq, eq_iff, Uuid,
  Bool-cases, IsAmong, arith,
}
use billing_platform.Webhooks.{Endpoint, is_in, is_subscribed, list_subscribed}

-- The endpoint is active, of the organisation, and subscribed to the type.
abbrev pub Wants : Uuid → String → Endpoint → Type 0
Wants org event_type ep =
    (ep.organisation_id ≡ org) × (ep.is_active ≡ true) × IsAmong event_type ep.subscribed_events

is_in_iff : (name : String) (names : List String) → (is_in name names ≡ true) ↔ IsAmong name names
unfolding is_in
is_in_iff name [] = (λ h. cc, λ h. absurd h)
is_in_iff name (x ∷ names) =
    let rest = is_in_iff name names in
    elim (Bool-cases (str_eq x name)) [
      | inl e ↦ (λ h. inl (sym ((eq_iff x name).0 e)), λ h. rw (is_in, e) refl)
      | inr e ↦ (
        λ h. inr (rest.0 (rw (is_in, e) at h)),
        λ h. elim h [
          | inl same ↦ absurd (cc ((eq_iff x name).1 (sym same)))
          | inr among ↦ rw (is_in, e) (rest.1 among)
        ],
      )
    ]

is_subscribed_iff :
    (org : Uuid) (event_type : String) (ep : Endpoint)
    → (is_subscribed org event_type ep ≡ true) ↔ Wants org event_type ep
unfolding is_subscribed
is_subscribed_iff org event_type ep =
    let subscribed = is_in_iff event_type ep.subscribed_events in
    (
      λ h. (ground arith, ground arith, subscribed.0 (ground arith)),
      λ (o, a, s). let yes = subscribed.1 s in ground arith,
    )

list_subscribed-IsAmong :
    (org : Uuid) (event_type : String) (ep : Endpoint) (endpoints : List Endpoint)
    → IsAmong ep endpoints
    → is_subscribed org event_type ep ≡ true
    → IsAmong ep (list_subscribed org event_type endpoints)
unfolding list_subscribed
list_subscribed-IsAmong org event_type ep [] h wants = absurd h
list_subscribed-IsAmong org event_type ep (x ∷ endpoints) (inl same) wants =
    let here : is_subscribed org event_type x ≡ true =
      ap (λ (x : Endpoint). is_subscribed org event_type x) (sym same) ∙ wants in
    rw (list_subscribed, here) (inl same)
list_subscribed-IsAmong org event_type ep (x ∷ endpoints) (inr h) wants =
    let rest = list_subscribed-IsAmong org event_type ep endpoints h wants in
    elim (Bool-cases (is_subscribed org event_type x)) [
      | inl k ↦ rw (list_subscribed, k) (inr rest)
      | inr k ↦ rw (list_subscribed, k) rest
    ]

subscribed-listed :
    (org : Uuid) (event_type : String) (ep : Endpoint) (endpoints : List Endpoint)
    → IsAmong ep (list_subscribed org event_type endpoints)
    → IsAmong ep endpoints × (is_subscribed org event_type ep ≡ true)
unfolding list_subscribed
subscribed-listed org event_type ep [] h = absurd h
subscribed-listed org event_type ep (x ∷ endpoints) h =
    let later = subscribed-listed org event_type ep endpoints in
    elim (Bool-cases (is_subscribed org event_type x)) [
      | inl k ↦ elim (rw (list_subscribed, k) at h) [
        | inl same ↦ (inl same, ap (is_subscribed org event_type) same ∙ k)
        | inr among ↦ let (there, wants) = later among in (inr there, wants)
      ]
      | inr k ↦ let (there, wants) = later (rw (list_subscribed, k) at h) in (inr there, wants)
    ]

-- What the fan-out goes to: the endpoints of the table that want the event.
pub list_subscribed_iff :
    (org : Uuid) (event_type : String) (ep : Endpoint) (endpoints : List Endpoint)
    → IsAmong ep (list_subscribed org event_type endpoints)
      ↔ (IsAmong ep endpoints × Wants org event_type ep)
list_subscribed_iff org event_type ep endpoints =
    let wanted = is_subscribed_iff org event_type ep in
    (
      λ h.
          let (there, wants) = subscribed-listed org event_type ep endpoints h in
          (there, wanted.0 wants),
      λ (there, wants). list_subscribed-IsAmong org event_type ep endpoints there (wanted.1 wants),
    )
