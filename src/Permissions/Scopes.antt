-- ===== src/Permissions/Scopes.antt =====
-- The permission codes of an API key's scopes, by internal/platform/permissions/apikeyscope.go.
use mathlib.Core.Path.{subst}
use billing_platform.Base.{
  ◌≡◌, ◌↔◌, ◌⊎◌, inl, inr, refl, sym, Bool, true, List, [], ◌∷◌, String, str_eq, eq_iff, IsAmong,
  Bool-cases, Dict, insert, lookup-insert,
}
use billing_platform.Permissions.{
  flag, codes_of, set_flags, expand, api_scope_permissions, permissions_for_scopes,
}

flag-insert :
    (code c : String) (flags : Dict Bool)
    → (flag code (insert c true flags) ≡ true) ↔ ((code ≡ c) ⊎ (flag code flags ≡ true))
unfolding flag
flag-insert code c flags = elim (Bool-cases (str_eq c code)) [
  | inl e ↦
      let is : c ≡ code = (eq_iff c code).0 e in
      (λ h. inl (sym is), λ h. rw (flag, lookup-insert c code true flags, e) refl)
  | inr e ↦ (
    λ h. inr (rw (flag, lookup-insert c code true flags, e) at h),
    λ h. elim h [
      | inl is ↦
          let same : str_eq c code ≡ true = (eq_iff c code).1 (sym is) in absurd (cc (rw same at e))
      | inr held ↦ rw (flag, lookup-insert c code true flags, e) held
    ],
  )
]

set_flags_iff :
    (codes : List String) (flags : Dict Bool) (code : String)
    → (flag code (set_flags codes flags) ≡ true) ↔ (IsAmong code codes ⊎ (flag code flags ≡ true))
unfolding set_flags
set_flags_iff [] flags code = (λ h. inr h, λ h. elim h [ inl a ↦ absurd a | inr e ↦ e ])
set_flags_iff (c ∷ codes) flags code =
    let rest = set_flags_iff codes (insert c true flags) code in
    let first = flag-insert code c flags in
    (
      λ h. elim (rest.0 h) [
        | inl among ↦ inl (inr among)
        | inr e ↦ elim (first.0 e) [ inl is ↦ inl (inl is) | inr held ↦ inr held ]
      ],
      λ h. elim h [
        | inl among ↦ elim among [
          | inl is ↦ rest.1 (inr (first.1 (inl is)))
          | inr later ↦ rest.1 (inl later)
        ]
        | inr held ↦ rest.1 (inr (first.1 (inr held)))
      ],
    )

-- One of the scopes lists the code.
abbrev pub IsListed : Dict (List String) → List String → String → Type 0
IsListed table scopes code =
    (scope : String) × IsAmong scope scopes × IsAmong code (codes_of scope table)

expand_iff :
    (table : Dict (List String)) (scopes : List String) (flags : Dict Bool) (code : String)
    → (flag code (expand table scopes flags) ≡ true)
      ↔ (IsListed table scopes code ⊎ (flag code flags ≡ true))
unfolding expand
expand_iff table [] flags code = (λ h. inr h, λ h. elim h [ inl (s, a, l) ↦ absurd a | inr e ↦ e ])
expand_iff table (scope ∷ scopes) flags code =
    let rest = expand_iff table scopes (set_flags (codes_of scope table) flags) code in
    let first = set_flags_iff (codes_of scope table) flags code in
    (
      λ h. elim (rest.0 h) [
        | inl (s, among, listed) ↦ inl (s, inr among, listed)
        | inr e ↦ elim (first.0 e) [
          | inl listed ↦ inl (scope, inl refl, listed)
          | inr held ↦ inr held
        ]
      ],
      λ h. elim h [
        | inl (s, among, listed) ↦ elim among [
          | inl is ↦
              rest.1 (inr (first.1 (inl (subst (λ t. IsAmong code (codes_of t table)) is listed))))
          | inr later ↦ rest.1 (inl (s, later, listed))
        ]
        | inr held ↦ rest.1 (inr (first.1 (inr held)))
      ],
    )

-- The permissions of an API key's scopes are exactly the codes that the table lists for one of them.
pub permissions_for_scopes_iff :
    (scopes : List String) (code : String)
    → (flag code (permissions_for_scopes scopes) ≡ true)
      ↔ IsListed api_scope_permissions scopes code
unfolding permissions_for_scopes flag
permissions_for_scopes_iff scopes code =
    let all = expand_iff api_scope_permissions scopes [] code in
    (λ h. elim (all.0 h) [ inl l ↦ l | inr e ↦ cc ], λ l. all.1 (inl l))
