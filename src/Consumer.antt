-- ===== src/Consumer.antt =====
-- internal/app/consumer/wager.go: `Handle`. Logs are left out.
pub mod Request
pub mod Once
pub mod Redelivery
pub mod Ledger
pub mod Delivery
use junglegaming_backend_cha.Base.{String, ◌!=◌, string_eq, none, some}
use junglegaming_backend_cha.AppErr.{ErrorKind, Error, Result, ok, err, raise_if}
use junglegaming_backend_cha.Types.{Time}
use junglegaming_backend_cha.Store.{
  Db, Env, World, lift, pure, now_from_clock, within_transaction, ◌>>=◌, ◌>>◌,
}
use junglegaming_backend_cha.Store.Inbox.{Claim, claimed, seen, claim_message, complete_message}
use junglegaming_backend_cha.Wager.{Config, ProcessCommand, validate_command}
use junglegaming_backend_cha.Wager.Service.{process}
use junglegaming_backend_cha.Consumer.Request.{
  Codec, ReceivedMessage, parse_request, classify, as_permanent,
}

abbrev pub consumer_name : String
consumer_name = "wager-transactions-consumer"

abbrev pub hash_mismatch : Error
hash_mismatch = Error.permanent (Error.new ErrorKind.conflict "MESSAGE_HASH_MISMATCH")

-- `return classify(err)` for the error of a call.
unfoldable pub classified : {A : Type 0} → Db A → Db A
classified m env w =
    let (r, w') = m env w in elim r [ ok a ↦ (ok a, w') | err e ↦ (err (classify e), w') ]

-- What follows `Claim`.
unfoldable pub handle_claim : Config → ProcessCommand → String → String → Claim → Db (Unit {0})
unfolding classified
handle_claim config cmd id hash claimed = do
  classified (process config cmd)
  now ← now_from_clock
  complete_message consumer_name id now
handle_claim config cmd id hash (seen existing) =
    lift (raise_if (existing.payload_hash != hash) hash_mismatch)

-- The function that `Handle` runs in a transaction.
unfoldable pub handle_once : Config → ProcessCommand → String → String → Time → Db (Unit {0})
handle_once config cmd id hash now = do
  claim ← claim_message consumer_name id hash now
  handle_claim config cmd id hash claim

-- `Handle` on the request that was parsed.
unfoldable pub handle_request : Config → String → String × ProcessCommand → Db (Unit {0})
handle_request config hash (id, cmd) = do
  lift (as_permanent (validate_command cmd))
  now ← now_from_clock
  within_transaction (handle_once config cmd id hash now)

unfoldable pub parsed_message : Codec → ReceivedMessage → Db (String × ProcessCommand)
parsed_message codec message env w = (as_permanent (parse_request codec env.uuid_parse message), w)

-- `Handle`
unfoldable pub handle : Config → Codec → ReceivedMessage → Db (Unit {0})
unfolding parsed_message
handle config codec message = do
  request ← parsed_message codec message
  handle_request config (codec.hash_body message.body) request
