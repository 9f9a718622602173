-- ===== src/Consumer/Request.antt =====
-- internal/app/consumer/wager.go: `parseRequest` and `classify`; internal/domain/money/money.go:
-- `UnmarshalJSON`, on what encoding/json makes of the text.
use junglegaming_backend_cha.Base.{
  String, Bool, true, false, Option, none, some, if◌then◌else◌, ◌==◌, ◌!=◌, string_eq,
}
use junglegaming_backend_cha.Base.Int.{pos}
use junglegaming_backend_cha.AppErr.{
  ErrorKind, Error, Result, ok, err, ◌>>=◌, ◌>>◌, raise_if, is_permanent, kind_of, code_of,
}
use junglegaming_backend_cha.Types.{Uuid, Time}
use junglegaming_backend_cha.Money.{Money, codes, code_invalid_amount}
use junglegaming_backend_cha.Money.Text.{parse}
use junglegaming_backend_cha.Wagering.Kinds.{parse_kind}
use junglegaming_backend_cha.Wager.{ProcessCommand}

-- A JSON value for a `Money`: the key is missing, the value does not fit `wire`, or its two fields,
-- where a missing or null one is a nil pointer.
pub data MoneyJson : Type 0 where
  missing unreadable : MoneyJson
  wire : Option String → Option String → MoneyJson

-- `UnmarshalJSON`; it is not called for a missing key, which leaves the zero value.
unfoldable pub unmarshal_money : MoneyJson → Result Money
unmarshal_money missing = ok (record { amount = pos 0; currency = "" })
unmarshal_money unreadable =
    err (Error.wrap ErrorKind.invalid code_invalid_amount (Error.plain "json"))
unmarshal_money (wire (some amount) (some currency)) = parse (codes amount) currency
unmarshal_money (wire a c) = err (Error.new ErrorKind.invalid code_invalid_amount)

-- The fields of a message body, each text empty where the key is missing.
pub record BodyJson : Type 0 where
  pub message_id : String
  pub type_name : String
  pub occurred_at : Time
  pub provider_id : String
  pub external_transaction_id : String
  pub idempotency_key : String
  pub player_id : String
  pub wallet_id : String
  pub round_id : String
  pub game_id : String
  pub kind : String
  pub money : MoneyJson
  pub reference_external_transaction_id : String

-- encoding/json on a body, `none` for a text that it refuses, and the hex SHA-256 of a body.
pub record Codec : Type 0 where
  pub decode : String → Option BodyJson
  pub hash_body : String → String

-- `requestData`
pub record RequestData : Type 0 where
  pub provider_id : String
  pub external_transaction_id : String
  pub idempotency_key : String
  pub player_id : String
  pub wallet_id : String
  pub round_id : String
  pub game_id : String
  pub kind : String
  pub amount : Money
  pub reference_external_transaction_id : String

-- `requestEnvelope`
pub record RequestEnvelope : Type 0 where
  pub message_id : String
  pub type_name : String
  pub occurred_at : Time
  pub request : RequestData

-- `ports.ReceivedMessage`
pub record ReceivedMessage : Type 0 where
  pub message_id : String
  pub receipt_handle : String
  pub body : String

abbrev pub request_event_type : String
request_event_type = "WagerTransactionRequested"

invalid_message : Error → Error
invalid_message e = Error.wrap ErrorKind.invalid "INVALID_MESSAGE" e

unfoldable pub envelope_of : BodyJson → Result Money → Result RequestEnvelope
unfolding invalid_message
envelope_of b (err e) = err (invalid_message e)
envelope_of b (ok amount) = ok (record {
  message_id = b.message_id;
  type_name = b.type_name;
  occurred_at = b.occurred_at;
  request = record {
    provider_id = b.provider_id;
    external_transaction_id = b.external_transaction_id;
    idempotency_key = b.idempotency_key;
    player_id = b.player_id;
    wallet_id = b.wallet_id;
    round_id = b.round_id;
    game_id = b.game_id;
    kind = b.kind;
    amount = amount;
    reference_external_transaction_id = b.reference_external_transaction_id;
  };
})

-- `json.Unmarshal` of the body, with the error that `parseRequest` makes of a failure.
unfoldable pub unmarshal_body : Option BodyJson → Result RequestEnvelope
unfolding envelope_of unmarshal_money invalid_message
unmarshal_body none = err (invalid_message (Error.plain "json"))
unmarshal_body (some b) = envelope_of b (unmarshal_money b.money)

-- `uuid.Parse`, with the code of the error.
unfoldable pub parsed_uuid : String → Option Uuid → Result Uuid
parsed_uuid code none = err (Error.wrap ErrorKind.invalid code (Error.plain "uuid"))
parsed_uuid code (some id) = ok id

-- The id in the body, or the broker's.
unfoldable pub message_id_of : ReceivedMessage → RequestEnvelope → String
message_id_of message envelope =
    if envelope.message_id == "" then message.message_id else envelope.message_id

-- `parseRequest`
unfoldable pub parse_request :
    Codec → (String → Option Uuid) → ReceivedMessage → Result (String × ProcessCommand)
unfolding message_id_of
parse_request codec uuid_parse message = do
  envelope ← unmarshal_body (codec.decode message.body)
  raise_if (envelope.type_name != request_event_type)
      (Error.new ErrorKind.invalid "UNSUPPORTED_EVENT_TYPE")
  let id = message_id_of message envelope
  raise_if (id == "") (Error.new ErrorKind.invalid "INVALID_MESSAGE")
  let d = envelope.request
  player_id ← parsed_uuid "INVALID_PLAYER_ID" (uuid_parse d.player_id)
  wallet_id ← parsed_uuid "INVALID_WALLET_ID" (uuid_parse d.wallet_id)
  kind ← parse_kind d.kind
  ok (
    id,
    record {
      provider_id = d.provider_id;
      external_transaction_id = d.external_transaction_id;
      idempotency_key = d.idempotency_key;
      player_id = player_id;
      wallet_id = wallet_id;
      round_id = d.round_id;
      game_id = d.game_id;
      kind = kind;
      amount = d.amount;
      reference_external_transaction_id = d.reference_external_transaction_id;
      correlation_id = id;
    },
  )

-- The kinds of the `switch`.
unfoldable pub permanent_kind : ErrorKind → Bool
permanent_kind ErrorKind.invalid = true
permanent_kind ErrorKind.forbidden = true
permanent_kind ErrorKind.unauthorized = true
permanent_kind ErrorKind.rejected = true
permanent_kind _ = false

-- `classify`
unfoldable pub classify : Error → Error
unfolding permanent_kind
classify e =
    if is_permanent e
    then e
    else if permanent_kind (kind_of e)
    then Error.permanent e
    else if code_of e == "IDEMPOTENCY_CONFLICT"
    then Error.permanent e
    else e

-- `if err != nil { return ports.Permanent(err) }`
unfoldable pub as_permanent {ℓ} : {A : Type ℓ} → Result A → Result A
as_permanent (ok a) = ok a
as_permanent (err e) = err (Error.permanent e)
