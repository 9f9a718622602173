-- ===== src/Http/Submit.antt =====
-- internal/adapters/httpapi/wagering.go: `Submit`, with its route of router.go.
pub mod Safety
use junglegaming_backend_cha.Base.{
  String, Bool, true, false, Option, none, some, List, [], ◌∷◌, if◌then◌else◌, ◌==◌, ◌!=◌,
  string_eq,
}
use junglegaming_backend_cha.AppErr.{ErrorKind, Error, Result, ok, err, raise_if, ◌>>=◌, ◌>>◌}
use junglegaming_backend_cha.Types.{Uuid}
use junglegaming_backend_cha.Store.{Env, Db}
use junglegaming_backend_cha.Consumer.Request.{MoneyJson, parsed_uuid}
use junglegaming_backend_cha.Wagering.Kinds.{parse_kind}
use junglegaming_backend_cha.Wagering.Statuses.{
  Status, status_text, rejected, pending, pending_reference,
}
use junglegaming_backend_cha.Wager.{Config, Outcome, ProcessCommand}
use junglegaming_backend_cha.Wager.Service.{process}
use junglegaming_backend_cha.Http.{
  Response, Handler, SubmitResponse, submit_body, write_rejection, respond, JsonBody, decode_json,
}
use junglegaming_backend_cha.Http.Access.{
  Principal, authenticate, require_roles, authorize_provider, wager_roles,
}

-- `submitTransactionRequest`
pub record SubmitJson : Type 0 where
  pub provider_id : String
  pub external_transaction_id : String
  pub player_id : String
  pub wallet_id : String
  pub round_id : String
  pub game_id : String
  pub kind : String
  pub money : MoneyJson
  pub reference_external_transaction_id : String

-- The request of `Submit`: the trimmed Idempotency-Key header, the request id of the context and
-- the body.
pub record SubmitRequest : Type 0 where
  pub idempotency_key : String
  pub request_id : String
  pub body : JsonBody SubmitJson

-- The checks of `Submit`, and the command that it makes of the request.
unfoldable pub submit_command :
    (String → Option Uuid) → Option Principal → SubmitRequest → Result ProcessCommand
unfolding decode_json authorize_provider parsed_uuid parse_kind
submit_command uuid_parse principal request = do
  raise_if (request.idempotency_key == "") (Error.new ErrorKind.invalid "MISSING_IDEMPOTENCY_KEY")
  read ← decode_json (λ (b : SubmitJson). b.money) request.body
  let b = read.0
  authorize_provider principal b.provider_id
  player_id ← parsed_uuid "INVALID_PLAYER_ID" (uuid_parse b.player_id)
  wallet_id ← parsed_uuid "INVALID_WALLET_ID" (uuid_parse b.wallet_id)
  kind ← parse_kind b.kind
  ok (record {
    provider_id = b.provider_id;
    external_transaction_id = b.external_transaction_id;
    idempotency_key = request.idempotency_key;
    player_id = player_id;
    wallet_id = wallet_id;
    round_id = b.round_id;
    game_id = b.game_id;
    kind = kind;
    amount = read.1;
    reference_external_transaction_id = b.reference_external_transaction_id;
    correlation_id = request.request_id;
  })

-- The call of `Process` in `Submit`, or the error of a check.
unfoldable pub submit_call : Config → Result ProcessCommand → Db Outcome
unfolding process
submit_call config (err e) env w = (err e, w)
submit_call config (ok cmd) env w = process config cmd env w

-- `toSubmitResponse`
unfoldable pub to_submit_response : Env → Outcome → SubmitResponse
unfolding status_text
to_submit_response env o = record {
  transaction_id = env.uuid_text (o.transaction.id);
  status = status_text o.status;
  balance = o.balance;
  failure_code = o.failure_code;
  idempotent_replay = o.idempotent_replay;
}

abbrev accepted : Env → Outcome → Response
accepted env o = record { status = 202; body = submit_body (to_submit_response env o) }

-- The `switch` on the status of the outcome.
unfoldable pub submit_answer : Env → Outcome → Status → Response
unfolding to_submit_response write_rejection
submit_answer env o rejected =
    write_rejection (env.uuid_text (o.transaction.id)) o.failure_code o.idempotent_replay
submit_answer env o pending = accepted env o
submit_answer env o pending_reference = accepted env o
submit_answer env o _ = record {
  status = if o.idempotent_replay then 200 else 201;
  body = submit_body (to_submit_response env o);
}

-- `Submit`
unfoldable pub submit : Config → SubmitRequest → Option Principal → Handler
unfolding submit_command submit_call submit_answer respond
submit config request principal env w =
    let command = submit_command env.uuid_parse principal request in
    respond (submit_call config command) (λ env' o. submit_answer env' o o.status) env w

-- POST /wagering/transactions
unfoldable pub post_transaction : Config → Result Principal → SubmitRequest → Handler
unfolding authenticate require_roles submit
post_transaction config caller request =
    authenticate caller (λ p. require_roles wager_roles p (submit config request p))
