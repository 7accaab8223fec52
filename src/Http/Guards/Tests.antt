-- ===== src/Http/Guards/Tests.antt =====
-- A write from a trusted page by a user with the role that the route names.
use nestjs_ddd_lean.Prelude.{◌≡◌, refl, true, Option, none, some, [], ◌∷◌, String}
use nestjs_ddd_lean.Errors.{csrf_rejected_error}
use nestjs_ddd_lean.Http.Guards.{
  CsrfGuard, Incoming, User, Route, allowed, raised, state_changing, request_origin, own_origin,
  trusts, csrf_can_activate, is_public, required_roles, get_authenticated_user, roles_can_activate,
  authenticate, guard,
}
use nestjs_ddd_lean.Http.Guards.Chain.{CsrfPassed, Authenticated, guard_allows}

abbrev url_origin : String → Option String
url_origin s = none

abbrev csrf : CsrfGuard
csrf = record { enabled = true; cookie_name = "jwt"; trusted_origins = "https://app" ∷ [] }

abbrev route : Route
route = record {
  handler_public = none;
  class_public = none;
  handler_roles = some ("admin" ∷ []);
  class_roles = none;
}

abbrev request : Incoming
request = record {
  method = "POST";
  cookies = ("jwt", "token") ∷ [];
  authorization = none;
  sec_fetch_site = some "cross-site";
  origin = some "https://app";
  referer = none;
  protocol = "https";
  host = some "api";
}

abbrev alice : User
alice = record { username = "alice"; roles = some ("admin" ∷ []) }

admitted : guard url_origin csrf route request (some alice) ≡ allowed (some alice)
unfolding guard csrf_can_activate state_changing request_origin own_origin trusts is_public
    required_roles authenticate roles_can_activate get_authenticated_user
admitted = refl

from_elsewhere :
    guard url_origin csrf route (record request { origin = some "https://evil" }) (some alice)
    ≡ raised csrf_rejected_error
unfolding guard csrf_can_activate state_changing request_origin own_origin trusts is_public
    required_roles authenticate roles_can_activate get_authenticated_user
from_elsewhere = refl

guard_allows_example :
    CsrfPassed url_origin csrf request
    × Authenticated (is_public route) (required_roles route) (some alice) (some alice)
guard_allows_example = guard_allows url_origin csrf route request (some alice) (some alice) admitted
