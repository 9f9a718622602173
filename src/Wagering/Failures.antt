-- ===== src/Wagering/Failures.antt =====
-- internal/domain/wagering/transaction.go: the stable failure codes.
use junglegaming_backend_cha.Base.{String, Bool, ◌||◌, ◌==◌, string_eq}

abbrev pub failure_insufficient_funds : String
failure_insufficient_funds = "INSUFFICIENT_FUNDS"

abbrev pub failure_reversal_insufficient_funds : String
failure_reversal_insufficient_funds = "REVERSAL_INSUFFICIENT_FUNDS"

abbrev pub failure_reference_not_found : String
failure_reference_not_found = "REFERENCE_NOT_FOUND"

abbrev pub failure_reference_not_processed : String
failure_reference_not_processed = "REFERENCE_NOT_PROCESSED"

abbrev pub failure_reference_mismatch : String
failure_reference_mismatch = "REFERENCE_MISMATCH"

abbrev pub failure_reference_amount_mismatch : String
failure_reference_amount_mismatch = "REFERENCE_AMOUNT_MISMATCH"

abbrev pub failure_reversal_conflict : String
failure_reversal_conflict = "REVERSAL_CONFLICT"

abbrev pub failure_wallet_not_found : String
failure_wallet_not_found = "WALLET_NOT_FOUND"

abbrev pub failure_wallet_player_mismatch : String
failure_wallet_player_mismatch = "WALLET_PLAYER_MISMATCH"

abbrev pub failure_currency_mismatch : String
failure_currency_mismatch = "CURRENCY_MISMATCH"

abbrev pub failure_invalid_amount : String
failure_invalid_amount = "INVALID_AMOUNT"

abbrev pub failure_unsupported_kind : String
failure_unsupported_kind = "UNSUPPORTED_KIND"

abbrev pub failure_reference_pending : String
failure_reference_pending = "REFERENCE_PENDING"

-- `IsCorrectableFailure`
unfoldable pub is_correctable_failure : String → Bool
is_correctable_failure code =
    code == failure_insufficient_funds
    || code == failure_reversal_insufficient_funds
    || code == failure_reference_not_found
    || code == failure_reference_not_processed
    || code == failure_reference_pending
