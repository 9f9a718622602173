-- ===== src/Tests/Tokens.antt =====
-- The roles of a token at a concrete input.
use junglegaming_backend_cha.Base.{◌≡◌, refl, ◌∷◌, [], some, true, string_eq}
use junglegaming_backend_cha.AppErr.{ok}
use junglegaming_backend_cha.Http.Access.{Principal, has_role}
use junglegaming_backend_cha.Oidc.{
  Fields, text, array, object, other, no_items, item, no_fields, field, Token, ClaimPaths, verify,
}
use junglegaming_backend_cha.Oidc.Roles.{Grants, verify-Grants}

abbrev claims : Fields
claims =
    field "realm_access"
      (object (field "roles" (array (item other (item (text "provider") no_items))) no_fields))
      (field "provider_id" (text "provider-1") no_fields)

abbrev token : Token
token = record { subject = "client"; claims = some claims }

abbrev paths : ClaimPaths
paths = record { roles = "realm_access" ∷ "roles" ∷ []; provider = "provider_id" ∷ [] }

abbrev client : Principal
client = record { subject = "client"; provider_id = "provider-1"; roles = "provider" ∷ [] }

verified : verify paths (some token) ≡ ok client
unfolding verify
verified = refl

is_provider : has_role client.roles "provider" ≡ true
unfolding has_role
is_provider = refl

verify-Grants_example :
    (t : Token) × (found : Fields) × (some token ≡ some t)
    × (t.claims ≡ some found)
    × Grants found paths.roles "provider"
verify-Grants_example = verify-Grants paths (some token) client "provider" verified is_provider
