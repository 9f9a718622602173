-- ===== src/Oidc/Roles.antt =====
-- internal/adapters/oidc/verifier.go: where the roles of a principal come from.
use mathlib.Core.Path.{subst}
use mathlib.Core.Bool.{false≢true}
use junglegaming_backend_cha.Base.{
  ◌≡◌, refl, ap, arith, String, true, Bool-cases, Option-cases, ◌≢◌, ◌∙◌, Option, none, some, List,
  [], ◌∷◌, ◌==◌, string_eq, ◌⊎◌, inl, inr, In, sym,
}
use junglegaming_backend_cha.AppErr.{ok}
use junglegaming_backend_cha.Http.Access.{Principal, has_role}
use junglegaming_backend_cha.Oidc.{
  Claim, Claims, Fields, text, texts, array, object, other, no_fields, field, find_field,
  lookup_from, no_items, item, texts_of, roles_of, extract_roles, lookup_claim, Token, ClaimPaths,
  principal_of, verify,
}

-- An item of an array.
abbrev pub Among : Claim → Claims → Type 0
Among c no_items = ⊥
Among c (item d items) = (c ≡ d) ⊎ Among c items

-- The value of a key of an object; a key that stands twice has its first value.
pub data Holds (key : String) (c : Claim) : Fields → Type 0 where
  found : (fields : Fields) → Holds key c (field key c fields)
  later :
      (other_key : String) (d : Claim) (fields : Fields)
      → other_key ≢ key
      → Holds key c fields
      → Holds key c (field other_key d fields)

-- The claim that a path leads to, from key to key through objects.
pub data LeadsTo (c : Claim) : List String → Claim → Type 0 where
  arrived : LeadsTo c [] c
  inside :
      (key : String) (path : List String) (fields : Fields) (d : Claim)
      → Holds key d fields
      → LeadsTo c path d
      → LeadsTo c (key ∷ path) (object fields)

-- The claim lists the role as a string.
abbrev pub Lists : String → Claim → Type 0
Lists role (texts roles) = In role roles
Lists role (array items) = Among (text role) items
Lists role (text t) = ⊥
Lists role (object fs) = ⊥
Lists role other = ⊥

find_field-Holds :
    (key : String) (fields : Fields) (c : Claim)
    → find_field key fields ≡ some c
    → Holds key c fields
unfolding find_field
find_field-Holds key no_fields c h = absurd (ground (arith, h))
find_field-Holds key (field k d fields) c h = elim (Bool-cases (k == key)) [
  | inl e ↦
      let same : k ≡ key = (string_eq.beq_iff k key).0 e in
      let here : d ≡ c = ground (arith, rw e at h) in
      subst (λ x. Holds key c (field x d fields)) (sym same)
        (subst (λ x. Holds key c (field key x fields)) (sym here) (found fields))
  | inr e ↦
      later k d fields (λ same. absurd (false≢true (sym e ∙ (string_eq.beq_iff k key).1 same)))
        (find_field-Holds key fields c (rw e at h))
]

lookup_from-LeadsTo :
    (start : Claim) (path : List String) (c : Claim)
    → lookup_from start path ≡ some c
    → LeadsTo c path start
unfolding lookup_from
lookup_from-LeadsTo start [] c h =
    let same : start ≡ c = ground (arith, h) in subst (λ x. LeadsTo c [] x) (sym same) arrived
lookup_from-LeadsTo (object fields) (key ∷ path) c h = elim (Option-cases (find_field key fields)) [
  | inl e ↦ absurd (ground (arith, rw (lookup_from, e) at h))
  | inr (d, e) ↦
      inside key path fields d (find_field-Holds key fields d e)
        (lookup_from-LeadsTo d path c (rw (lookup_from, e) at h))
]
lookup_from-LeadsTo (text t) (key ∷ path) c h = absurd (ground (arith, h))
lookup_from-LeadsTo (texts ts) (key ∷ path) c h = absurd (ground (arith, h))
lookup_from-LeadsTo (array cs) (key ∷ path) c h = absurd (ground (arith, h))
lookup_from-LeadsTo other (key ∷ path) c h = absurd (ground (arith, h))

lookup_claim-LeadsTo :
    (claims : Fields) (path : List String) (c : Claim)
    → lookup_claim claims path ≡ some c
    → LeadsTo c path (object claims)
unfolding lookup_claim
lookup_claim-LeadsTo claims [] c h = absurd (ground (arith, h))
lookup_claim-LeadsTo claims (key ∷ path) c h = lookup_from-LeadsTo (object claims) (key ∷ path) c h

has_role-In : (roles : List String) (role : String) → has_role roles role ≡ true → In role roles
unfolding has_role
has_role-In [] role h = absurd (ground (arith, h))
has_role-In (r ∷ roles) role h = elim (Bool-cases (r == role)) [
  | inl e ↦ inl (sym ((string_eq.beq_iff r role).0 e))
  | inr e ↦ inr (has_role-In roles role (rw e at h))
]

texts_of-Among :
    (items : Claims) (role : String) → In role (texts_of items) → Among (text role) items
unfolding texts_of
texts_of-Among no_items role m = m
texts_of-Among (item (text t) items) role (inl e) = inl (ap text e)
texts_of-Among (item (text t) items) role (inr m) = inr (texts_of-Among items role m)
texts_of-Among (item (texts ts) items) role m = inr (texts_of-Among items role m)
texts_of-Among (item (array cs) items) role m = inr (texts_of-Among items role m)
texts_of-Among (item (object fs) items) role m = inr (texts_of-Among items role m)
texts_of-Among (item other items) role m = inr (texts_of-Among items role m)

roles_of-Lists :
    (found : Option Claim) (role : String)
    → In role (roles_of found)
    → (c : Claim) × (found ≡ some c) × Lists role c
unfolding roles_of
roles_of-Lists none role m = absurd m
roles_of-Lists (some (texts roles)) role m = (texts roles, refl, m)
roles_of-Lists (some (array items)) role m = (array items, refl, texts_of-Among items role m)
roles_of-Lists (some (text t)) role m = absurd m
roles_of-Lists (some (object fs)) role m = absurd m
roles_of-Lists (some other) role m = absurd m

-- The claims have a claim at the path, and it lists the role.
abbrev pub Grants : Fields → List String → String → Type 0
Grants claims path role = (c : Claim) × LeadsTo c path (object claims) × Lists role c

principal_of-Grants :
    (paths : ClaimPaths) (subject : String) (decoded : Option Fields) (p : Principal)
    (role : String)
    → principal_of paths subject decoded ≡ ok p
    → has_role p.roles role ≡ true
    → (claims : Fields) × (decoded ≡ some claims) × Grants claims paths.roles role
unfolding principal_of extract_roles
principal_of-Grants paths subject none p role h k = absurd (ground (arith, h))
principal_of-Grants paths subject (some claims) p role h k =
    let found = lookup_claim claims paths.roles in
    let listed : p.roles ≡ roles_of found = ground (arith, h) in
    let (c, at_path, lists) =
      roles_of-Lists found role (has_role-In (roles_of found) role (rw listed at k)) in
    (claims, refl, (c, lookup_claim-LeadsTo claims paths.roles c at_path, lists))

-- A principal of `Verify` has a role only if the library has accepted the token, and the configured
-- path leads, from key to key through the objects of the claims, to a claim that lists the role as a
-- string.
pub verify-Grants :
    (paths : ClaimPaths) (token : Option Token) (p : Principal) (role : String)
    → verify paths token ≡ ok p
    → has_role p.roles role ≡ true
    → (t : Token) × (claims : Fields) × (token ≡ some t)
      × (t.claims ≡ some claims)
      × Grants claims paths.roles role
unfolding verify
verify-Grants paths none p role h k = absurd (ground (arith, h))
verify-Grants paths (some t) p role h k =
    let (claims, decoded, listed) = principal_of-Grants paths t.subject t.claims p role h k in
    (t, claims, refl, decoded, listed)
