-- ===== src/Ledger.antt =====
-- internal/domain/ledger/entry.go: the append-only ledger entry and its arithmetic check.
pub mod Validation
use junglegaming_backend_cha.Base.{
  String, Bool, true, false, not, ◌&&◌, ◌||◌, ◌==◌, ◌!=◌, string_eq, nat_eq, if◌then◌else◌,
}
use junglegaming_backend_cha.Base.Int.{pos}
use junglegaming_backend_cha.AppErr.{ErrorKind, Error, Result, ok, err, ◌>>=◌, ◌>>◌, raise_if}
use junglegaming_backend_cha.Types.{Uuid, nil_uuid, Time, is_zero_time}
use junglegaming_backend_cha.Money.{Money, is_valid, is_positive, is_negative, add, sub, equal}

abbrev pub code_invalid_entry : String
code_invalid_entry = "INVALID_LEDGER_ENTRY"

abbrev pub code_math_mismatch : String
code_math_mismatch = "LEDGER_BALANCE_MISMATCH"

-- `Direction`, a named string with two constants.
pub data Direction : Type 0 where
  debit_side credit_side : Direction
  unknown : String → Direction

-- `Direction(raw)`
unfoldable pub direction_of_text : String → Direction
direction_of_text raw =
    if raw == "DEBIT" then debit_side else if raw == "CREDIT" then credit_side else unknown raw

-- `string(direction)`
unfoldable pub direction_text : Direction → String
direction_text debit_side = "DEBIT"
direction_text credit_side = "CREDIT"
direction_text (unknown raw) = raw

unfoldable pub is_known : Direction → Bool
is_known debit_side = true
is_known credit_side = true
is_known (unknown raw) = false

abbrev invalid_entry : Error
invalid_entry = Error.new ErrorKind.invalid code_invalid_entry

-- `ParseDirection`
unfoldable pub parse_direction : String → Result Direction
unfolding direction_of_text is_known
parse_direction raw = do
  let direction = direction_of_text raw
  raise_if (not (is_known direction)) invalid_entry
  ok direction

pub record Entry : Type 0 where
  pub id : Uuid
  pub wallet_id : Uuid
  pub transaction_id : Uuid
  pub direction : Direction
  pub amount : Money
  pub balance_before : Money
  pub balance_after : Money
  pub created_at : Time

-- The `switch` of `validate`; an unknown direction leaves the zero Money.
unfoldable pub expected_after : Direction → Money → Money → Result Money
expected_after debit_side balance amount = sub balance amount
expected_after credit_side balance amount = add balance amount
expected_after (unknown raw) balance amount = ok (record { amount = pos 0; currency = "" })

-- `validate`
unfoldable pub validate : Entry → Result (Unit {0})
unfolding is_known
validate e = do
  raise_if (e.id == nil_uuid || e.wallet_id == nil_uuid || e.transaction_id == nil_uuid)
      invalid_entry
  raise_if (not (is_known e.direction)) invalid_entry
  raise_if (not (is_valid e.amount) || not (is_positive e.amount)) invalid_entry
  raise_if (not (is_valid e.balance_before) || not (is_valid e.balance_after)) invalid_entry
  raise_if (is_negative e.balance_before || is_negative e.balance_after) invalid_entry
  raise_if (is_zero_time e.created_at) invalid_entry
  expected ← expected_after e.direction e.balance_before e.amount
  same ← equal expected e.balance_after
  raise_if (not same) (Error.new ErrorKind.invalid code_math_mismatch)

-- `New`, with the id that it draws, and `Rehydrate`: both build the entry and validate it.
unfoldable pub new_entry :
    Uuid → Uuid → Uuid → Direction → Money → Money → Money → Time → Result Entry
new_entry id wallet_id transaction_id direction amount balance_before balance_after created_at = do
  let entry : Entry = record {
    id = id;
    wallet_id = wallet_id;
    transaction_id = transaction_id;
    direction = direction;
    amount = amount;
    balance_before = balance_before;
    balance_after = balance_after;
    created_at = created_at;
  }
  validate entry
  ok entry
