-- ===== src/Http/Guards/Chain.antt =====
-- What a request that passes the guards has shown.
use nestjs_ddd_lean.Prelude.{
  ◌≡◌, refl, Bool, true, false, ◌||◌, Bool-cases, ◌⊎◌, inl, inr, Option, none, some, Option-cases,
  List, [], ◌∷◌, String, or_else, any, has, lookup, truthy, ◌===◌, arith, ap, sym, ◌∙◌, eq_iff,
}
use nestjs_ddd_lean.Http.Guards.{
  CsrfGuard, Incoming, User, Route, allowed, state_changing, request_origin, own_origin, trusts,
  text_is, csrf_can_activate, is_public, required_roles, get_authenticated_user, roles_can_activate,
  authenticate, after_csrf, guard,
}

-- The methods that change state.
abbrev pub writes : String → Bool
writes m = m === "POST" || (m === "PUT" || (m === "PATCH" || m === "DELETE"))

-- What a write with the user's cookie has shown: an authorization that it names itself, the browser's
-- word that it comes from here or from no page, or an origin that is this one or a trusted one.
abbrev pub Vouched : (String → Option String) → CsrfGuard → Incoming → Type 0
Vouched url_origin g r =
    (truthy r.authorization ≡ true)
    ⊎ ((r.sec_fetch_site ≡ some "same-origin")
        ⊎ ((r.sec_fetch_site ≡ some "none")
            ⊎ ((o : String) × (request_origin url_origin r ≡ some o)
                × (((o === own_origin url_origin r) || has o g.trusted_origins) ≡ true))))

-- Why the check lets a request through: it is switched off, it does not apply, or the request vouches.
abbrev pub CsrfPassed : (String → Option String) → CsrfGuard → Incoming → Type 0
CsrfPassed url_origin g r =
    (g.enabled ≡ false)
    ⊎ ((writes r.method ≡ false)
        ⊎ ((truthy (lookup g.cookie_name r.cookies) ≡ false) ⊎ Vouched url_origin g r))

writes-state_changing : (m : String) → has m state_changing ≡ false → writes m ≡ false
unfolding state_changing
writes-state_changing m h = ground (
  arith,
  h,
  eq_iff m "POST",
  eq_iff m "PUT",
  eq_iff m "PATCH",
  eq_iff m "DELETE",
  eq_iff "POST" m,
  eq_iff "PUT" m,
  eq_iff "PATCH" m,
  eq_iff "DELETE" m,
)

trusts-origin :
    (url_origin : String → Option String) (g : CsrfGuard) (r : Incoming) (o : Option String)
    → trusts url_origin g r o ≡ true
    → (t : String) × (o ≡ some t)
      × (((t === own_origin url_origin r) || has t g.trusted_origins) ≡ true)
unfolding trusts
trusts-origin url_origin g r none h = absurd (ground arith)
trusts-origin url_origin g r (some o) h = (o, refl, ground arith)

text_is-eq : (s : Option String) (t : String) → text_is s t ≡ true → s ≡ some t
text_is-eq none t h = absurd (ground arith)
text_is-eq (some s) t h = ap some ((eq_iff s t).0 h)

csrf-CsrfPassed :
    (url_origin : String → Option String) (g : CsrfGuard) (r : Incoming)
    → csrf_can_activate url_origin g r ≡ none
    → CsrfPassed url_origin g r
unfolding csrf_can_activate
csrf-CsrfPassed url_origin g r h = elim (Bool-cases g.enabled) [
  | inr a ↦ inl a
  | inl a ↦ elim (Bool-cases (has r.method state_changing)) [
    | inr b ↦ inr (inl (writes-state_changing r.method b))
    | inl b ↦ elim (Bool-cases (truthy (lookup g.cookie_name r.cookies))) [
      | inr c ↦ inr (inr (inl c))
      | inl c ↦ elim (Bool-cases (truthy r.authorization)) [
        | inl d ↦ inr (inr (inr (inl d)))
        | inr d ↦ elim (Bool-cases (text_is r.sec_fetch_site "same-origin")) [
          | inl e ↦ inr (inr (inr (inr (inl (text_is-eq _ _ e)))))
          | inr e ↦ elim (Bool-cases (text_is r.sec_fetch_site "none")) [
            | inl f ↦ inr (inr (inr (inr (inr (inl (text_is-eq _ _ f))))))
            | inr f ↦ inr (
                inr (
                  inr (
                    inr (
                      inr (
                        inr (
                          trusts-origin url_origin g r (request_origin url_origin r)
                            (ground (arith, h, a, b, c, d, e, f))))))))
          ]
        ]
      ]
    ]
  ]
]

-- Which user goes on, and why.
abbrev pub Authenticated : Bool → List String → Option User → Option User → Type 0
Authenticated public required verified user =
    ((public ≡ true) × (required ≡ []) × (user ≡ none))
    ⊎ ((u : User) × (public ≡ false)
        × (verified ≡ some u)
        × (user ≡ some u)
        × ((required ≡ [])
            ⊎ ((truthy (some u.username) ≡ true)
                × (any (λ role. has role (or_else u.roles [])) required ≡ true))))

roles-Held :
    (required : List String) (u : User) (user : Option User)
    → roles_can_activate required (some u) ≡ allowed user
    → (user ≡ some u)
      × ((required ≡ [])
          ⊎ ((truthy (some u.username) ≡ true)
              × (any (λ role. has role (or_else u.roles [])) required ≡ true)))
unfolding roles_can_activate get_authenticated_user
roles-Held [] u user h = (ground (arith, h), inl refl)
roles-Held (role ∷ roles) u user h = elim (Bool-cases (truthy (some u.username))) [
  | inr a ↦ absurd (ground (arith, h, a))
  | inl a ↦ elim (Bool-cases (any (λ role. has role (or_else u.roles [])) (role ∷ roles))) [
    | inr b ↦ absurd (ground (arith, h, a, b))
    | inl b ↦ (ground (arith, h, a, b), inr (a, b))
  ]
]

authenticate-Authenticated :
    (public : Bool) (required : List String) (verified user : Option User)
    → authenticate public required verified ≡ allowed user
    → Authenticated public required verified user
unfolding authenticate roles_can_activate get_authenticated_user
authenticate-Authenticated true [] verified user h = inl (refl, refl, ground (arith, h))
authenticate-Authenticated true (role ∷ roles) verified user h = absurd (ground (arith, h))
authenticate-Authenticated false required none user h = absurd (ground (arith, h))
authenticate-Authenticated false required (some u) user h =
    let (same, held) = roles-Held required u user h in inr (u, refl, refl, same, held)

-- Of a request that the guards let through: where the CSRF check is switched on, a POST, PUT, PATCH or
-- DELETE that carries the cookie names its authorization, or the browser says that it comes from here
-- or from no page, or it comes from an origin that is this one or a trusted one. And either the route is public
-- and names no roles, and then nobody is the user, or the user is the one of the verified token, and has
-- a name and one of the roles of the route if it names any.
pub guard_allows :
    (url_origin : String → Option String) (g : CsrfGuard) (route : Route) (r : Incoming)
    (verified user : Option User)
    → guard url_origin g route r verified ≡ allowed user
    → CsrfPassed url_origin g r
      × Authenticated (is_public route) (required_roles route) verified user
unfolding guard
guard_allows url_origin g route r verified user h =
    elim (Option-cases (csrf_can_activate url_origin g r)) [
      | inl passes ↦
          let next : authenticate (is_public route) (required_roles route) verified ≡ allowed user =
            sym (
              ap
                (λ c. after_csrf c (authenticate (is_public route) (required_roles route) verified))
                passes)
            ∙ h in
          (
            csrf-CsrfPassed url_origin g r passes,
            authenticate-Authenticated (is_public route) (required_roles route) verified user next,
          )
      | inr (e, fails) ↦ absurd (ground (arith, h, fails))
    ]
