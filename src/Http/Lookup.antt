-- ===== src/Http/Lookup.antt =====
-- internal/adapters/httpapi/wagering.go: `Get` and `GetByExternal`, with their routes of router.go;
-- internal/app/wager/queries.go passes their arguments on.
use junglegaming_backend_cha.Base.{String, Option, none, some, if◌then◌else◌, ◌!=◌, string_eq}
use junglegaming_backend_cha.AppErr.{Result}
use junglegaming_backend_cha.Types.{Uuid}
use junglegaming_backend_cha.Store.{Env, Db, lift, pure, ◌>>=◌, ◌>>◌}
use junglegaming_backend_cha.Store.TransactionQueries.{get_transaction, get_by_provider_external}
use junglegaming_backend_cha.Consumer.Request.{parsed_uuid}
use junglegaming_backend_cha.Wagering.Kinds.{kind_text}
use junglegaming_backend_cha.Wagering.Statuses.{status_text}
use junglegaming_backend_cha.Wagering.Failures.{is_correctable_failure}
use junglegaming_backend_cha.Wagering.{Transaction}
use junglegaming_backend_cha.Http.{
  Response, Handler, TransactionResponse, transaction_body, respond,
}
use junglegaming_backend_cha.Http.Access.{
  Principal, authenticate, require_roles, authorize_provider, wager_roles,
}

-- `uuid.Parse`, with the code of its failure.
unfoldable pub parse_uuid : String → String → Db Uuid
unfolding parsed_uuid
parse_uuid code text env w = (parsed_uuid code (env.uuid_parse text), w)

-- `toTransactionResponse`
unfoldable pub to_transaction_response : Env → Transaction → TransactionResponse
unfolding kind_text status_text is_correctable_failure
to_transaction_response env t = record {
  transaction_id = env.uuid_text t.id;
  provider_id = t.provider_id;
  external_transaction_id = t.external_transaction_id;
  player_id = env.uuid_text t.player_id;
  wallet_id = env.uuid_text t.wallet_id;
  round_id = t.round_id;
  game_id = t.game_id;
  kind = kind_text t.kind;
  status = status_text t.status;
  amount = t.amount;
  reference_external_transaction_id = t.reference_external_transaction_id;
  failure_code = t.failure_code;
  failure_correctable =
      if t.failure_code != "" then some (is_correctable_failure t.failure_code) else none;
  balance = t.result_balance;
  attempts = t.attempts;
  created_at = t.created_at;
  updated_at = t.updated_at;
}

abbrev pub transaction_answer : Env → Transaction → Response
transaction_answer env t = record {
  status = 200;
  body = transaction_body (to_transaction_response env t);
}

-- `Get`: the transaction is read before the provider is checked.
unfoldable pub get_call : Option Principal → String → Db Transaction
unfolding parse_uuid authorize_provider
get_call principal transaction_id = do
  id ← parse_uuid "INVALID_IDENTIFIER" transaction_id
  t ← get_transaction id
  lift (authorize_provider principal t.provider_id)
  pure t

-- `GetByExternal`
unfoldable pub get_by_external_call : Option Principal → String → String → Db Transaction
unfolding authorize_provider
get_by_external_call principal provider_id external_id = do
  lift (authorize_provider principal provider_id)
  get_by_provider_external provider_id external_id

-- GET /wagering/transactions/{transactionId}
unfoldable pub read_transaction : Result Principal → String → Handler
unfolding authenticate require_roles get_call respond to_transaction_response
read_transaction caller id =
    authenticate caller
      (λ p. require_roles wager_roles p (respond (get_call p id) transaction_answer))

-- GET /providers/{providerId}/wagering/transactions/{externalTransactionId}
unfoldable pub read_by_external : Result Principal → String → String → Handler
unfolding authenticate require_roles get_by_external_call respond to_transaction_response
read_by_external caller provider_id external_id = authenticate caller (λ p.
    require_roles wager_roles p
      (respond (get_by_external_call p provider_id external_id) transaction_answer))
