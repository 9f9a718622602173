-- ===== src/Http/Access.antt =====
-- internal/adapters/httpapi/middleware.go: `RequireRoles` and `authorizeProvider`;
-- internal/adapters/oidc/verifier.go: `Principal`.
use junglegaming_backend_cha.Base.{
  String, Bool, false, ◌||◌, ◌&&◌, ◌==◌, ◌!=◌, string_eq, Option, none, some, List, [], ◌∷◌,
  if◌then◌else◌,
}
use junglegaming_backend_cha.AppErr.{ErrorKind, Error, Result, ok, err}
use junglegaming_backend_cha.Http.{Handler, write_error}

pub record Principal : Type 0 where
  pub subject : String
  pub provider_id : String
  pub roles : List String

-- `HasRole`
unfoldable pub has_role : List String → String → Bool
has_role [] role = false
has_role (r ∷ roles) role = r == role || has_role roles role

-- `RoleProvider`
abbrev pub role_provider : String
role_provider = "provider"

-- `RoleInternal`
abbrev pub role_internal : String
role_internal = "internal"

abbrev pub missing_token : Error
missing_token = Error.new ErrorKind.unauthorized "MISSING_TOKEN"

abbrev pub forbidden_access : Error
forbidden_access = Error.new ErrorKind.forbidden "FORBIDDEN"

unfoldable pub has_one_role : Principal → List String → Bool
unfolding has_role
has_one_role p [] = false
has_one_role p (role ∷ roles) = has_role p.roles role || has_one_role p roles

-- `RequireRoles` in front of a handler.
unfoldable pub require_roles : List String → Option Principal → Handler → Handler
unfolding has_one_role write_error
require_roles roles none next env w = (write_error missing_token, w)
require_roles roles (some p) next env w =
    if has_one_role p roles then next env w else (write_error forbidden_access, w)

-- `authorizeProvider`
unfoldable pub authorize_provider : Option Principal → String → Result (Unit {0})
unfolding has_role
authorize_provider none provider_id = err missing_token
authorize_provider (some p) provider_id =
    if has_role p.roles role_internal
    then ok tt
    else if p.provider_id != "" && p.provider_id == provider_id
    then ok tt
    else err forbidden_access

-- `Authenticate`, given what it finds in the header and what the token library says: the request
-- goes on with the principal in its context.
unfoldable pub authenticate : Result Principal → (Option Principal → Handler) → Handler
unfolding write_error
authenticate (err e) next env w = (write_error e, w)
authenticate (ok p) next env w = next (some p) env w

-- The roles of the routes for wager operations.
abbrev pub wager_roles : List String
wager_roles = role_provider ∷ role_internal ∷ []
