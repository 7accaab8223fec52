-- ===== src/Http/Guards.antt =====
-- The three global guards, in the order that interface.module.ts registers them: csrf.guard.ts,
-- jwt.guard.ts and roles.guard.ts, with current-user.util.ts. `new URL(url).origin` is a parameter, and
-- so is what passport's strategy makes of the token.
pub mod Chain
mod Tests
use nestjs_ddd_lean.Prelude.{
  Bool, true, false, not, ◌&&◌, ◌||◌, Option, none, some, List, [], ◌∷◌, String, if◌then◌else◌,
  or_else, is_empty, any, has, lookup, truthy, ◌===◌,
}
use nestjs_ddd_lean.Errors.{
  ◌<>◌, AppError, csrf_rejected_error, unauthorized_error, forbidden_error,
}

pub record CsrfConfig : Type 0 where
  pub csrf_enabled : Bool
  pub cookie_name : String
  pub csrf_trusted_origins : Option (List String)
  pub cors_origins : List String

-- `CsrfGuard`'s fields, as its constructor sets them.
pub record CsrfGuard : Type 0 where
  pub enabled : Bool
  pub cookie_name : String
  pub trusted_origins : List String

unfoldable pub csrf_guard : CsrfConfig → CsrfGuard
csrf_guard config = record {
  enabled = config.csrf_enabled;
  cookie_name = config.cookie_name;
  trusted_origins = or_else config.csrf_trusted_origins config.cors_origins;
}

-- What the guards read of a request.
pub record Incoming : Type 0 where
  pub method : String
  pub cookies : List (String × String)
  pub authorization : Option String
  pub sec_fetch_site : Option String
  pub origin : Option String
  pub referer : Option String
  pub protocol : String
  pub host : Option String

-- `JWTPayload`, as far as the guards read it.
pub record User : Type 0 where
  pub username : String
  pub roles : Option (List String)

-- The metadata of the handler and of its controller.
pub record Route : Type 0 where
  pub handler_public : Option Bool
  pub class_public : Option Bool
  pub handler_roles : Option (List String)
  pub class_roles : Option (List String)

unfoldable pub state_changing : List String
state_changing = "POST" ∷ "PUT" ∷ "PATCH" ∷ "DELETE" ∷ []

abbrev pub text_is : Option String → String → Bool
text_is none t = false
text_is (some s) t = s === t

-- How the guards end: the request goes on, with or without a user, passport refuses the token, or a
-- guard throws.
pub data Verdict : Type 0 where
  allowed : Option User → Verdict
  not_authenticated : Verdict
  raised : AppError → Verdict

-- `JwtGuard.canActivate`
unfoldable pub is_public : Route → Bool
is_public route = or_else route.handler_public (or_else route.class_public false)

unfoldable pub required_roles : Route → List String
required_roles route = or_else route.handler_roles (or_else route.class_roles [])

-- `getAuthenticatedUser`: none where it throws.
unfoldable pub get_authenticated_user : Option User → Option User
get_authenticated_user none = none
get_authenticated_user (some u) = if truthy (some u.username) then some u else none

abbrev held : User → List String
held u = or_else u.roles []

abbrev check_roles : List String → Option User → Option User → Verdict
check_roles required user none = raised (unauthorized_error "Authentication required" none)
check_roles required user (some u) =
    if any (λ role. has role (held u)) required
    then allowed user
    else raised (forbidden_error "Insufficient privileges" none)

-- `RolesGuard.canActivate`
unfoldable pub roles_can_activate : List String → Option User → Verdict
roles_can_activate [] user = allowed user
roles_can_activate (role ∷ roles) user =
    check_roles (role ∷ roles) user (get_authenticated_user user)

-- `JwtGuard.canActivate`, then the roles.
unfoldable pub authenticate : (public : Bool) → List String → Option User → Verdict
authenticate true roles verified = roles_can_activate roles none
authenticate false roles none = not_authenticated
authenticate false roles (some u) = roles_can_activate roles (some u)

abbrev pub after_csrf : Option AppError → Verdict → Verdict
after_csrf (some e) next = raised e
after_csrf none next = next

module _ (url_origin : String → Option String) where
  -- `originOf`
  unfoldable pub origin_of : Option String → Option String
  origin_of none = none
  origin_of (some String.[]) = none
  origin_of (some (String.◌∷◌ c s)) = url_origin (String.◌∷◌ c s)

  unfoldable pub request_origin : Incoming → Option String
  request_origin r = elim r.origin [ some o ↦ some o | none ↦ origin_of r.referer ]

  unfoldable pub own_origin : Incoming → String
  own_origin r = r.protocol <> "://" <> or_else r.host "undefined"

  unfoldable pub trusts : CsrfGuard → Incoming → Option String → Bool
  trusts g r none = false
  trusts g r (some o) = truthy (some o) && ((o === own_origin r) || has o g.trusted_origins)

  -- `CsrfGuard.canActivate`: none where it lets the request through.
  unfoldable pub csrf_can_activate : CsrfGuard → Incoming → Option AppError
  csrf_can_activate g r =
      if not g.enabled
      then none
      else if not (has r.method state_changing)
      then none
      else if not (truthy (lookup g.cookie_name r.cookies))
      then none
      else if truthy r.authorization
      then none
      else if text_is r.sec_fetch_site "same-origin" || text_is r.sec_fetch_site "none"
      then none
      else if trusts g r (request_origin r)
      then none
      else some csrf_rejected_error

  -- The guards of a request, given the user that its token verifies to.
  unfoldable pub guard : CsrfGuard → Route → Incoming → (verified : Option User) → Verdict
  guard g route r verified =
      after_csrf (csrf_can_activate g r)
        (authenticate (is_public route) (required_roles route) verified)
