-- ===== src/AppErr.antt =====
-- internal/domain/apperr/apperr.go: classified errors, and Go's error chains. The message of an
-- error is for humans only, no code branches on it, and it is left out.
use junglegaming_backend_cha.Base.{
  ◌⊎◌, inl, inr, ◌≡◌, refl, String, Bool, true, false, ◌||◌, ◌==◌, string_eq,
}

-- `Kind`
pub data ErrorKind : Type 0 where
  invalid not_found conflict rejected unauthorized forbidden unavailable internal : ErrorKind

unfoldable pub error_kind_beq : ErrorKind → ErrorKind → Bool
error_kind_beq invalid invalid = true
error_kind_beq not_found not_found = true
error_kind_beq conflict conflict = true
error_kind_beq rejected rejected = true
error_kind_beq unauthorized unauthorized = true
error_kind_beq forbidden forbidden = true
error_kind_beq unavailable unavailable = true
error_kind_beq internal internal = true
error_kind_beq _ _ = false

-- `new` is `New`, `wrap` is `Wrap` (with its cause); `plain` is an error of `errors.New` or
-- `fmt.Errorf`, known by its text; `permanent` is `ports.PermanentError`.
pub data Error : Type 0 where
  new : ErrorKind → String → Error
  wrap : ErrorKind → String → Error → Error
  plain : String → Error
  permanent : Error → Error

-- `KindOf`: `errors.As` finds the outermost classified error of the chain.
unfoldable pub kind_of : Error → ErrorKind
kind_of (new k c) = k
kind_of (wrap k c e) = k
kind_of (plain m) = internal
kind_of (permanent e) = kind_of e

-- `CodeOf`
unfoldable pub code_of : Error → String
code_of (new k c) = c
code_of (wrap k c e) = c
code_of (plain m) = ""
code_of (permanent e) = code_of e

-- `IsKind`
unfoldable pub is_kind : Error → ErrorKind → Bool
unfolding kind_of error_kind_beq
is_kind e k = error_kind_beq (kind_of e) k

-- `errors.Is(err, target)` for a sentinel `target` of `errors.New`: `Error.Is` answers false for
-- a target that is not classified, so the chain goes on through `Unwrap`.
unfoldable pub is_sentinel : Error → String → Bool
is_sentinel (new k c) t = false
is_sentinel (wrap k c e) t = is_sentinel e t
is_sentinel (plain m) t = m == t
is_sentinel (permanent e) t = is_sentinel e t

-- `errors.Is(err, target)` for a classified target: `Error.Is` compares the codes.
unfoldable pub is_code : Error → String → Bool
is_code (new k c) t = c == t
is_code (wrap k c e) t = c == t || is_code e t
is_code (plain m) t = false
is_code (permanent e) t = is_code e t

-- `ports.IsPermanent`
unfoldable pub is_permanent : Error → Bool
is_permanent (new k c) = false
is_permanent (wrap k c e) = is_permanent e
is_permanent (plain m) = false
is_permanent (permanent e) = true

-- A value and a nil error, or an error.
pub data Result {ℓ} (T : Type ℓ) : Type ℓ where
  err : Error → Result T
  ok : T → Result T

module _ {ℓ κ} {A : Type ℓ} {B : Type κ} where
  infixl 5 ◌>>=◌ ◌>>◌
  -- `if err != nil { return err }` after a call.
  abbrev pub ◌>>=◌ : Result A → (A → Result B) → Result B
  err e >>= next = err e
  ok a >>= next = next a

  abbrev pub ◌>>◌ : Result A → Result B → Result B
  r >> next = r >>= λ _. next

  -- What a chain that went through got from its first call.
  pub >>=-eq-ok :
      (r : Result A) (next : A → Result B) {b : B}
      → (r >>= next) ≡ ok b
      → (a : A) × (r ≡ ok a) × (next a ≡ ok b)
  >>=-eq-ok (err e) next h = cc
  >>=-eq-ok (ok a) next h = (a, refl, h)

-- `if b { return e }`
abbrev pub raise_if : Bool → Error → Result (Unit {0})
raise_if true e = err e
raise_if false e = ok tt

-- To split on a computed result and keep the equation.
pub Result-cases {ℓ} :
    {A : Type ℓ} (r : Result A) → ((a : A) × (r ≡ ok a)) ⊎ ((e : Error) × (r ≡ err e))
Result-cases (err e) = inr (e, refl)
Result-cases (ok a) = inl (a, refl)

-- A chain that went through passed its first guard.
pub guard-inv {ℓ} :
    {A : Type ℓ} (b : Bool) (e : Error) (k : Result A) {r : A}
    → (raise_if b e >> k) ≡ ok r
    → (b ≡ false) × (k ≡ ok r)
guard-inv true e k h = cc
guard-inv false e k h = (refl, h)
