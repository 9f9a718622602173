-- ===== src/Wagering/Statuses.antt =====
-- internal/domain/wagering/transaction.go: the statuses and origins, which the source has as
-- named strings. `other` is any string that is none of the constants.
use junglegaming_backend_cha.Base.{String, Bool, true, false, not, ◌==◌, string_eq, if◌then◌else◌}
use junglegaming_backend_cha.AppErr.{ErrorKind, Error, Result, ok, ◌>>◌, raise_if}

abbrev pub code_invalid_status : String
code_invalid_status = "INVALID_TRANSACTION_STATUS"

pub data Status : Type 0 where
  pending pending_reference processed rejected failed : Status
  other : String → Status

-- `Status(raw)` and `string(status)`
unfoldable pub status_of_text : String → Status
status_of_text raw =
    if raw == "PENDING"
    then pending
    else if raw == "PENDING_REFERENCE"
    then pending_reference
    else if raw == "PROCESSED"
    then processed
    else if raw == "REJECTED"
    then rejected
    else if raw == "FAILED"
    then failed
    else other raw

unfoldable pub status_text : Status → String
status_text pending = "PENDING"
status_text pending_reference = "PENDING_REFERENCE"
status_text processed = "PROCESSED"
status_text rejected = "REJECTED"
status_text failed = "FAILED"
status_text (other raw) = raw

is_known_status : Status → Bool
is_known_status (other raw) = false
is_known_status _ = true

-- `ParseStatus`
unfoldable pub parse_status : String → Result Status
unfolding status_of_text is_known_status
parse_status raw = do
  let status = status_of_text raw
  raise_if (not (is_known_status status)) (Error.new ErrorKind.invalid code_invalid_status)
  ok status

-- `IsTerminal`
unfoldable pub is_terminal : Status → Bool
is_terminal processed = true
is_terminal rejected = true
is_terminal failed = true
is_terminal _ = false

unfoldable pub is_processed : Status → Bool
is_processed processed = true
is_processed _ = false

-- `status == StatusRejected || status == StatusFailed`
unfoldable pub is_unsuccessful : Status → Bool
is_unsuccessful rejected = true
is_unsuccessful failed = true
is_unsuccessful _ = false

pub data Origin : Type 0 where
  internal_origin external_origin : Origin
  other : String → Origin

-- `Origin(raw)` and `string(origin)`
unfoldable pub origin_of_text : String → Origin
origin_of_text raw =
    if raw == "INTERNAL"
    then internal_origin
    else if raw == "EXTERNAL"
    then external_origin
    else Origin.other raw

unfoldable pub origin_text : Origin → String
origin_text internal_origin = "INTERNAL"
origin_text external_origin = "EXTERNAL"
origin_text (Origin.other raw) = raw

unfoldable pub is_external_origin : Origin → Bool
is_external_origin external_origin = true
is_external_origin _ = false
