-- ===== src/Consumer/Delivery.antt =====
-- internal/adapters/sqs/consumer.go: `processOne` and the batch loop of `Run`. Metrics and logs are
-- left out, and so is the receive count, which only the logs read.
use junglegaming_backend_cha.Base.{
  String, Bool, true, false, List, [], ◌∷◌, Option, none, some, if◌then◌else◌,
}
use junglegaming_backend_cha.AppErr.{Result, ok, err, is_permanent}
use junglegaming_backend_cha.Store.{Env, World}
use junglegaming_backend_cha.Wager.{Config}
use junglegaming_backend_cha.Consumer.{handle}
use junglegaming_backend_cha.Consumer.Request.{Codec, ReceivedMessage}

-- `types.Message` of the SQS library, as far as the program reads it.
pub record Message : Type 0 where
  pub message_id : Option String
  pub receipt_handle : Option String
  pub body : Option String

-- `valueOr`
unfoldable pub value_or : Option String → String → String
value_or none fallback = fallback
value_or (some value) fallback = value

unfoldable pub received_message : Message → ReceivedMessage
unfolding value_or
received_message m = record {
  message_id = value_or m.message_id "";
  receipt_handle = value_or m.receipt_handle "";
  body = value_or m.body "";
}

-- Whether the broker takes the two calls that `processOne` may make.
pub record Broker : Type 0 where
  pub sends_to_dlq : Bool
  pub deletes : Bool

-- What the broker has done with the message.
pub record Delivery : Type 0 where
  pub sent_to_dlq : Bool
  pub deleted : Bool

-- The `switch` on the result of the handler.
unfoldable pub settle : Broker → Result (Unit {0}) → Delivery
settle broker (ok done) = record { sent_to_dlq = false; deleted = broker.deletes }
settle broker (err e) =
    if is_permanent e
    then (if broker.sends_to_dlq
        then record { sent_to_dlq = true; deleted = broker.deletes }
        else record { sent_to_dlq = false; deleted = false })
    else record { sent_to_dlq = false; deleted = false }

-- `processOne`
unfoldable pub process_one : Config → Codec → Broker → Message → Env → World → Delivery × World
unfolding settle received_message
process_one config codec broker m env w =
    let (r, w') = handle config codec (received_message m) env w in (settle broker r, w')

-- The loop of `Run` over the messages of one receive.
unfoldable pub process_batch :
    Config → Codec → (Message → Broker) → List Message → Env → World → List Delivery × World
unfolding process_one
process_batch config codec broker [] env w = ([], w)
process_batch config codec broker (m ∷ ms) env w =
    let (d, w') = process_one config codec (broker m) m env w in
    let (ds, w'') = process_batch config codec broker ms env w' in (d ∷ ds, w'')
