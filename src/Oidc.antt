-- ===== src/Oidc.antt =====
-- internal/adapters/oidc/verifier.go: the principal of a token. The check of the token and the decoding
-- of its claims are those of the oidc library.
pub mod Roles
use junglegaming_backend_cha.Base.{
  String, Option, none, some, List, [], ◌∷◌, if◌then◌else◌, ◌==◌, string_eq,
}
use junglegaming_backend_cha.AppErr.{ErrorKind, Error, Result, ok, err}
use junglegaming_backend_cha.Http.Access.{Principal}

-- A decoded claim: a string, a `[]string`, a `[]any`, a `map[string]any`, or another value.
mutual
  pub data Claim : Type 0 where
    text : String → Claim
    texts : List String → Claim
    array : Claims → Claim
    object : Fields → Claim
    other : Claim

  pub data Claims : Type 0 where
    no_items : Claims
    item : Claim → Claims → Claims

  pub data Fields : Type 0 where
    no_fields : Fields
    field : String → Claim → Fields → Fields

-- `object[segment]`
unfoldable pub find_field : String → Fields → Option Claim
find_field segment no_fields = none
find_field segment (field key claim fields) =
    let rest = find_field segment fields in if key == segment then some claim else rest

-- The loop of `lookupClaim` over the segments of the path.
unfoldable pub lookup_from : Claim → List String → Option Claim
unfolding find_field
lookup_from current [] = some current
lookup_from (object fields) (segment ∷ path) = elim (find_field segment fields) [
  | none ↦ none
  | some claim ↦ lookup_from claim path
]
lookup_from _ (segment ∷ path) = none

-- `lookupClaim`; the path is the list of its segments, and `[]` the empty path.
unfoldable pub lookup_claim : Fields → List String → Option Claim
unfolding lookup_from
lookup_claim claims [] = none
lookup_claim claims (segment ∷ path) = lookup_from (object claims) (segment ∷ path)

-- The strings among the items.
unfoldable pub texts_of : Claims → List String
texts_of no_items = []
texts_of (item (text role) items) = role ∷ texts_of items
texts_of (item _ items) = texts_of items

unfoldable pub roles_of : Option Claim → List String
unfolding texts_of
roles_of (some (texts roles)) = roles
roles_of (some (array items)) = texts_of items
roles_of _ = []

-- `extractRoles`
unfoldable pub extract_roles : Fields → List String → List String
unfolding roles_of lookup_claim
extract_roles claims path = roles_of (lookup_claim claims path)

unfoldable pub provider_of : Option Claim → String
provider_of (some (text provider_id)) = provider_id
provider_of _ = ""

-- A token that the library accepts: its subject, and its claims if they can be decoded.
pub record Token : Type 0 where
  pub subject : String
  pub claims : Option Fields

-- The configured paths.
pub record ClaimPaths : Type 0 where
  pub roles : List String
  pub provider : List String

-- The principal of the claims, if they can be decoded.
unfoldable pub principal_of : ClaimPaths → String → Option Fields → Result Principal
unfolding extract_roles provider_of
principal_of paths subject none =
    err (Error.wrap ErrorKind.unauthorized "INVALID_TOKEN_CLAIMS" (Error.plain "claims"))
principal_of paths subject (some claims) = ok (record {
  subject = subject;
  provider_id = provider_of (lookup_claim claims paths.provider);
  roles = extract_roles claims paths.roles;
})

-- `Verify`, after the library has checked the token.
unfoldable pub verify : ClaimPaths → Option Token → Result Principal
unfolding principal_of
verify paths none = err (Error.wrap ErrorKind.unauthorized "INVALID_TOKEN" (Error.plain "token"))
verify paths (some token) = principal_of paths token.subject token.claims
