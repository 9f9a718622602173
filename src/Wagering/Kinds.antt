-- ===== src/Wagering/Kinds.antt =====
-- internal/domain/wagering/transaction.go: the kinds, which the source has as a named string.
-- `other` is any string that is none of the constants.
use junglegaming_backend_cha.Base.{String, Bool, true, false, not, ◌==◌, string_eq, if◌then◌else◌}
use junglegaming_backend_cha.AppErr.{ErrorKind, Error, Result, ok, ◌>>◌, raise_if}

abbrev pub code_invalid_kind : String
code_invalid_kind = "INVALID_TRANSACTION_KIND"

pub data Kind : Type 0 where
  opening bet win loss refund rollback : Kind
  other : String → Kind

-- `Kind(raw)` and `string(kind)`
unfoldable pub kind_of_text : String → Kind
kind_of_text raw =
    if raw == "OPENING"
    then opening
    else if raw == "BET"
    then bet
    else if raw == "WIN"
    then win
    else if raw == "LOSS"
    then loss
    else if raw == "REFUND"
    then refund
    else if raw == "ROLLBACK"
    then rollback
    else other raw

unfoldable pub kind_text : Kind → String
kind_text opening = "OPENING"
kind_text bet = "BET"
kind_text win = "WIN"
kind_text loss = "LOSS"
kind_text refund = "REFUND"
kind_text rollback = "ROLLBACK"
kind_text (other raw) = raw

is_known_kind : Kind → Bool
is_known_kind (other raw) = false
is_known_kind _ = true

-- `ParseKind`
unfoldable pub parse_kind : String → Result Kind
unfolding kind_of_text is_known_kind
parse_kind raw = do
  let kind = kind_of_text raw
  raise_if (not (is_known_kind kind)) (Error.new ErrorKind.invalid code_invalid_kind)
  ok kind

-- `==` on kinds.
unfoldable pub same_kind : Kind → Kind → Bool
same_kind opening opening = true
same_kind bet bet = true
same_kind win win = true
same_kind loss loss = true
same_kind refund refund = true
same_kind rollback rollback = true
same_kind (other a) (other b) = a == b
same_kind _ _ = false

unfoldable pub is_opening : Kind → Bool
is_opening opening = true
is_opening _ = false

unfoldable pub is_loss : Kind → Bool
is_loss loss = true
is_loss _ = false

-- `IsExternal`
unfoldable pub is_external : Kind → Bool
unfolding is_opening
is_external k = not (is_opening k)

-- `RequiresReference`
unfoldable pub requires_reference : Kind → Bool
requires_reference refund = true
requires_reference rollback = true
requires_reference _ = false

-- `IsReversal`
unfoldable pub is_reversal : Kind → Bool
is_reversal refund = true
is_reversal rollback = true
is_reversal _ = false

-- `requiresOptionalReference`
unfoldable pub requires_optional_reference : Kind → Bool
requires_optional_reference win = true
requires_optional_reference _ = false
