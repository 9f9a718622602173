-- ===== src/Http.antt =====
-- internal/adapters/httpapi/errors.go and dto.go: the answers of the HTTP interface. The message of
-- an error and the encoding as JSON are left out.
pub mod Access
pub mod Submit
pub mod Decoded
pub mod Lookup
pub mod Wallets
pub mod Cursor
use junglegaming_backend_cha.Base.{
  List, ℕ, String, Bool, true, false, Option, none, some, if◌then◌else◌, ◌==◌, string_eq,
}
use junglegaming_backend_cha.Base.Int.{ℤ}
use junglegaming_backend_cha.AppErr.{
  ErrorKind, invalid, not_found, conflict, rejected, unauthorized, forbidden, unavailable, internal,
  Error, Result, ok, err, kind_of, code_of,
}
use junglegaming_backend_cha.Types.{Uuid, Time}
use junglegaming_backend_cha.Money.{Money}
use junglegaming_backend_cha.Store.{Env, World, Db}
use junglegaming_backend_cha.Consumer.Request.{MoneyJson, unmarshal_money}

-- `errorResponse`
pub record ErrorResponse : Type 0 where
  pub code : String
  pub kind : String
  pub failure_code : String
  pub transaction_id : String
  pub idempotent_replay : Bool

-- `submitTransactionResponse`
pub record SubmitResponse : Type 0 where
  pub transaction_id : String
  pub status : String
  pub balance : Option Money
  pub failure_code : String
  pub idempotent_replay : Bool

-- `transactionResponse`
pub record TransactionResponse : Type 0 where
  pub transaction_id : String
  pub provider_id : String
  pub external_transaction_id : String
  pub player_id : String
  pub wallet_id : String
  pub round_id : String
  pub game_id : String
  pub kind : String
  pub status : String
  pub amount : Money
  pub reference_external_transaction_id : String
  pub failure_code : String
  pub failure_correctable : Option Bool
  pub balance : Option Money
  pub attempts : ℤ
  pub created_at : Time
  pub updated_at : Time

-- `walletResponse`
pub record WalletResponse : Type 0 where
  pub id : String
  pub player_id : String
  pub balance : Money
  pub version : ℤ

-- `ledgerEntryResponse`
pub record LedgerEntryResponse : Type 0 where
  pub id : String
  pub transaction_id : String
  pub direction : String
  pub amount : Money
  pub balance_before : Money
  pub balance_after : Money
  pub created_at : Time

-- `ledgerResponse`, the text of the cursor as bytes.
pub record LedgerResponse : Type 0 where
  pub entries : List LedgerEntryResponse
  pub next_cursor : List ℕ

-- `reconciliationResponse`
pub record ReconciliationResponse : Type 0 where
  pub wallet_id : String
  pub stored_balance : Money
  pub calculated_balance : Money
  pub difference : Money
  pub consistent : Bool
  pub checked_entries : ℕ

pub data Body : Type 0 where
  error_body : ErrorResponse → Body
  submit_body : SubmitResponse → Body
  transaction_body : TransactionResponse → Body
  wallet_body : WalletResponse → Body
  ledger_body : LedgerResponse → Body
  reconciliation_body : ReconciliationResponse → Body

pub record Response : Type 0 where
  pub status : ℕ
  pub body : Body

-- `string(kind)`
unfoldable pub error_kind_text : ErrorKind → String
error_kind_text invalid = "invalid"
error_kind_text not_found = "not_found"
error_kind_text conflict = "conflict"
error_kind_text rejected = "rejected"
error_kind_text unauthorized = "unauthorized"
error_kind_text forbidden = "forbidden"
error_kind_text unavailable = "unavailable"
error_kind_text internal = "internal"

-- `statusForKind`
unfoldable pub status_for_kind : ErrorKind → ℕ
status_for_kind invalid = 400
status_for_kind unauthorized = 401
status_for_kind forbidden = 403
status_for_kind not_found = 404
status_for_kind conflict = 409
status_for_kind rejected = 422
status_for_kind unavailable = 503
status_for_kind internal = 500

-- `writeError`
unfoldable pub write_error : Error → Response
unfolding kind_of code_of error_kind_text status_for_kind
write_error e = record {
  status = status_for_kind (kind_of e);
  body = error_body (record {
    code = if code_of e == "" then "INTERNAL_ERROR" else code_of e;
    kind = error_kind_text (kind_of e);
    failure_code = "";
    transaction_id = "";
    idempotent_replay = false;
  });
}

-- `writeRejection`
unfoldable pub write_rejection : String → String → Bool → Response
unfolding error_kind_text
write_rejection transaction_id failure_code idempotent_replay = record {
  status = 422;
  body = error_body (record {
    code = failure_code;
    kind = error_kind_text rejected;
    failure_code = failure_code;
    transaction_id = transaction_id;
    idempotent_replay = idempotent_replay;
  });
}

-- What the decoder finds: no object of the expected form, an object with more after it, or one
-- object.
pub data JsonBody (B : Type 0) : Type 0 where
  unreadable : JsonBody B
  followed : B → JsonBody B
  single : B → JsonBody B

abbrev pub invalid_json : Error → Error
invalid_json e = Error.wrap ErrorKind.invalid "INVALID_JSON" e

-- `decodeJSON` on a body with an amount: the object and the `Money` that `UnmarshalJSON` makes.
unfoldable pub decode_json : {B : Type 0} → (B → MoneyJson) → JsonBody B → Result (B × Money)
decode_json money unreadable = err (invalid_json (Error.plain "json"))
decode_json money (followed b) = elim (unmarshal_money (money b)) [
  | err e ↦ err (invalid_json e)
  | ok m ↦ err (Error.new ErrorKind.invalid "INVALID_JSON")
]
decode_json money (single b) = elim (unmarshal_money (money b)) [
  | err e ↦ err (invalid_json e)
  | ok m ↦ ok (b, m)
]

abbrev pub Handler : Type 0
Handler = Env → World → Response × World

-- `writeError` if the calls fail, or the answer made of what they return.
unfoldable pub respond : {A : Type 0} → Db A → (Env → A → Response) → Handler
unfolding write_error
respond call answer env w =
    let (r, w') = call env w in (elim r [ err e ↦ write_error e | ok a ↦ answer env a ], w')
