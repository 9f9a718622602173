-- ===== src/Http/Cursor.antt =====
-- internal/adapters/httpapi/cursor.go: the text of a cursor, and the limit of a page. A text is a list
-- of bytes.
pub mod RoundTrip
use junglegaming_backend_cha.Base.Int.{ℤ, pos, ltb_ℤ}
use junglegaming_backend_cha.Base.{
  ◌||◌, ℕ, Bool, true, false, List, [], ◌∷◌, ◌++◌, Option, none, some, if◌then◌else◌, ◌==◌, nat_eq,
}
use junglegaming_backend_cha.AppErr.{ErrorKind, Error, Result, ok, err, ◌>>=◌, ◌>>◌, raise_if}
use junglegaming_backend_cha.Types.{Uuid, Time}
use junglegaming_backend_cha.Store.Pages.{LedgerCursor}

-- What base64, time and the uuid library make of texts: the RFC3339Nano text of an instant, the text
-- of an identity, and the unpadded URL encoding of bytes.
pub record Texts : Type 0 where
  pub encode_base64 : List ℕ → List ℕ
  pub decode_base64 : List ℕ → Option (List ℕ)
  pub time_text : Time → List ℕ
  pub time_parse : List ℕ → Option Time
  pub uuid_bytes : Uuid → List ℕ
  pub uuid_read : List ℕ → Option Uuid

-- The byte of `|`.
abbrev pub bar : ℕ
bar = 124

-- `encodeCursor`
unfoldable pub encode_cursor : Texts → Time → Uuid → List ℕ
encode_cursor lib created_at id =
    lib.encode_base64 (lib.time_text created_at ++ bar ∷ lib.uuid_bytes id)

-- `strings.SplitN` at `|` into at most two parts: `none` if there is but one.
unfoldable pub split_bar : List ℕ → Option (List ℕ × List ℕ)
split_bar [] = none
split_bar (c ∷ cs) =
    let rest = split_bar cs in
    if c == bar then some ([], cs) else elim rest [ none ↦ none | some r ↦ some (c ∷ r.0, r.1) ]

abbrev pub invalid_cursor : Error
invalid_cursor = Error.new ErrorKind.invalid "INVALID_CURSOR"

-- An error of a library, wrapped.
abbrev pub unreadable_cursor : Error
unreadable_cursor = Error.wrap ErrorKind.invalid "INVALID_CURSOR" (Error.plain "cursor")

unfoldable pub or_unreadable : {A : Type 0} → Option A → Result A
or_unreadable none = err unreadable_cursor
or_unreadable (some a) = ok a

unfoldable pub parts_of : Option (List ℕ × List ℕ) → Result (List ℕ × List ℕ)
parts_of none = err invalid_cursor
parts_of (some parts) = ok parts

-- `decodeCursor`; the nil cursor is `none`.
unfoldable pub decode_cursor : Texts → List ℕ → Result (Option LedgerCursor)
unfolding split_bar or_unreadable parts_of
decode_cursor lib [] = ok none
decode_cursor lib (c ∷ cs) = do
  decoded ← or_unreadable (lib.decode_base64 (c ∷ cs))
  parts ← parts_of (split_bar decoded)
  created_at ← or_unreadable (lib.time_parse parts.0)
  id ← or_unreadable (lib.uuid_read parts.1)
  ok (some (record { created_at = created_at; id = id }))

-- `parseLimit`, given what `Sscanf` reads in a text that is not empty.
unfoldable pub parse_limit : Option (Option ℤ) → ℤ → Result ℤ
parse_limit none fallback = ok fallback
parse_limit (some none) fallback =
    err (Error.wrap ErrorKind.invalid "INVALID_LIMIT" (Error.plain "limit"))
parse_limit (some (some limit)) fallback =
    if ltb_ℤ limit (pos 1) || ltb_ℤ (pos 200) limit
    then err (Error.new ErrorKind.invalid "INVALID_LIMIT")
    else ok limit
