-- ===== src/Tests/Samples.antt =====
-- A wallet with 100 units, a ledger that says so, and requests for it.
use junglegaming_backend_cha.Base.{
  ◌*◌, string_eq, none, nat_eq, ◌==◌, Option, String, if◌then◌else◌, ◌+◌, ℕ, false, [], ◌∷◌, some,
}
use junglegaming_backend_cha.Consumer.Request.{BodyJson, wire, Codec, ReceivedMessage}
use junglegaming_backend_cha.Consumer.Delivery.{Message}
use junglegaming_backend_cha.Store.{
  InboxRow, OutboxRow, TransactionRow, WalletRow, EntryRow, Env, World,
}
use junglegaming_backend_cha.Store.Outbox.{OutboxEvent}
use junglegaming_backend_cha.Outbox.{PublisherConfig}
use junglegaming_backend_cha.Events.{Envelope, pending_reference_event}
use junglegaming_backend_cha.Wagering.Statuses.{external_origin, rejected}
use junglegaming_backend_cha.Wagering.{Transaction, ExternalParams}
use junglegaming_backend_cha.Wallet.{Wallet}
use junglegaming_backend_cha.Ledger.{Entry, credit_side, debit_side}
use junglegaming_backend_cha.Types.{Uuid}
use junglegaming_backend_cha.Base.Int.{pos}
use junglegaming_backend_cha.Money.{Money}
use junglegaming_backend_cha.Wager.{Config, ProcessCommand}
use junglegaming_backend_cha.Wagering.Kinds.{bet}

abbrev pub brl : ℕ → Money
brl units = record { amount = pos units; currency = "BRL" }

abbrev pub wallet_of_one : WalletRow
wallet_of_one = record {
  id = 1;
  player_id = 2;
  currency = "BRL";
  balance_minor = pos 100;
  version = pos 1;
  created_at = 5000;
  updated_at = 5000;
}

abbrev pub opening_credit : EntryRow
opening_credit = record {
  id = 3;
  wallet_id = 1;
  transaction_id = 4;
  direction = "CREDIT";
  amount_minor = pos 100;
  currency = "BRL";
  balance_before_minor = pos 0;
  balance_after_minor = pos 100;
  created_at = 5000;
}

abbrev pub later_debit : EntryRow
later_debit = record {
  id = 7;
  wallet_id = 1;
  transaction_id = 8;
  direction = "DEBIT";
  amount_minor = pos 30;
  currency = "BRL";
  balance_before_minor = pos 100;
  balance_after_minor = pos 70;
  created_at = 6000;
}

abbrev pub opening_entry : Entry
opening_entry = record {
  id = 3;
  wallet_id = 1;
  transaction_id = 4;
  direction = credit_side;
  amount = brl 100;
  balance_before = brl 0;
  balance_after = brl 100;
  created_at = 5000;
}

abbrev pub later_entry : Entry
later_entry = record {
  id = 7;
  wallet_id = 1;
  transaction_id = 8;
  direction = debit_side;
  amount = brl 30;
  balance_before = brl 100;
  balance_after = brl 70;
  created_at = 6000;
}

abbrev pub funded : World
funded = record {
  tables = record {
    wallets = wallet_of_one ∷ [];
    transactions = [];
    entries = opening_credit ∷ [];
    outbox = [];
    inbox = [];
  };
  drawn = 0;
  readings = 0;
  trips = 0;
}

-- A text for each identity that the samples draw for an event.
abbrev uuid_text : Uuid → String
uuid_text id =
    if id == 102
    then "event-102"
    else if id == 103
    then "event-103"
    else if id == 104
    then "event-104"
    else "other"

abbrev uuid_parse : String → Option Uuid
uuid_parse text =
    if text == "event-102"
    then some 102
    else if text == "event-103"
    then some 103
    else if text == "event-104"
    then some 104
    else none

-- The identities 100, 101, … at the instants of 10, 11, … microseconds, over a database that works.
abbrev pub healthy_env : Env
healthy_env = record {
  new_v7 = λ n. 100 + n;
  clock = λ n. 1000 * (10 + n);
  faulty = λ n. false;
  committed = λ n. false;
  uuid_text = uuid_text;
  uuid_parse = uuid_parse;
  digest = λ fields. "hash";
}

abbrev pub config : Config
config = record {
  max_wallet_retries = 2;
  reference_max_attempts = pos 10;
  reference_base_backoff = pos 1;
  reference_max_backoff = pos 60;
}

abbrev pub bet_of : ℕ → ProcessCommand
bet_of units = record {
  provider_id = "provider";
  external_transaction_id = "ext-1";
  idempotency_key = "key-1";
  player_id = 2;
  wallet_id = 1;
  round_id = "round";
  game_id = "game";
  kind = bet;
  amount = brl units;
  reference_external_transaction_id = "";
  correlation_id = "corr";
}

abbrev pub empty : World
empty = record {
  tables = record { wallets = []; transactions = []; entries = []; outbox = []; inbox = [] };
  drawn = 0;
  readings = 0;
  trips = 0;
}

-- The stored row of a rejected BET with the id and the key of the sample request.
abbrev pub stored_bet : String → TransactionRow
stored_bet external = record {
  id = 9;
  origin = "EXTERNAL";
  provider_id = some "provider";
  external_transaction_id = some external;
  idempotency_key = some "key-1";
  payload_hash = some "hash";
  wallet_id = 1;
  player_id = 2;
  round_id = some "round";
  game_id = some "game";
  kind = "BET";
  amount_minor = pos 30;
  currency = "BRL";
  reference_external_transaction_id = none;
  reference_transaction_id = none;
  status = "REJECTED";
  failure_code = some "INSUFFICIENT_FUNDS";
  result_balance_minor = some (pos 10);
  attempts = pos 0;
  next_attempt_at = none;
  created_at = 6000;
  updated_at = 6000;
}

abbrev pub with_bet : String → World
with_bet external = record funded {
  tables = record (funded.tables) { transactions = stored_bet external ∷ [] };
}

abbrev pub rejected_bet : String → Transaction
rejected_bet external = record {
  id = 9;
  origin = external_origin;
  provider_id = "provider";
  external_transaction_id = external;
  idempotency_key = "key-1";
  payload_hash = "hash";
  wallet_id = 1;
  player_id = 2;
  round_id = "round";
  game_id = "game";
  kind = bet;
  amount = brl 30;
  reference_external_transaction_id = "";
  reference_transaction_id = none;
  status = rejected;
  failure_code = "INSUFFICIENT_FUNDS";
  result_balance = some (brl 10);
  attempts = pos 0;
  next_attempt_at = none;
  created_at = 6000;
  updated_at = 6000;
}

abbrev pub wallet : Wallet
wallet = record {
  id = 1;
  player_id = 2;
  currency = "BRL";
  balance = brl 100;
  version = pos 1;
  created_at = 5000;
  updated_at = 5000;
}

abbrev pub debit_entry : Entry
debit_entry = record {
  id = 3;
  wallet_id = 1;
  transaction_id = 4;
  direction = debit_side;
  amount = brl 30;
  balance_before = brl 100;
  balance_after = brl 70;
  created_at = 5000;
}

abbrev pub bet_params : ExternalParams
bet_params = record {
  provider_id = "provider";
  external_transaction_id = "ext-1";
  idempotency_key = "key-1";
  payload_hash = "hash";
  wallet_id = 1;
  player_id = 2;
  round_id = "round";
  game_id = "game";
  kind = bet;
  amount = brl 30;
  reference_external_transaction_id = "";
}

-- A message that asks for the sample BET, and a codec that reads it.
abbrev body_json : BodyJson
body_json = record {
  message_id = "message-1";
  type_name = "WagerTransactionRequested";
  occurred_at = 5000;
  provider_id = "provider";
  external_transaction_id = "ext-1";
  idempotency_key = "key-1";
  player_id = "player";
  wallet_id = "wallet";
  round_id = "round";
  game_id = "game";
  kind = "BET";
  money = wire (some "30") (some "BRL");
  reference_external_transaction_id = "";
}

abbrev pub codec : Codec
codec = record {
  decode = λ text. if text == "bet" then some body_json else none;
  hash_body = λ text. text;
}

abbrev pub parsing_env : Env
parsing_env = record healthy_env {
  uuid_parse = λ text.
      if text == "player" then some 2 else if text == "wallet" then some 1 else uuid_parse text;
}

abbrev pub message_of : String → ReceivedMessage
message_of text = record { message_id = "broker-1"; receipt_handle = "handle"; body = text }

abbrev pub inbox_row : InboxRow
inbox_row = record {
  id = 7;
  consumer_name = "wager-transactions-consumer";
  message_id = "message-1";
  payload_hash = "bet";
  status = "COMPLETED";
  received_at = 6000;
  completed_at = some 6000;
}

abbrev pub with_message : World
with_message = record funded { tables = record (funded.tables) { inbox = inbox_row ∷ [] } }

abbrev pub message : Message
message = record { message_id = some "broker-1"; receipt_handle = some "handle"; body = some "bet" }

abbrev envelope : Envelope
envelope = record {
  event_id = "event-102";
  event_type_name = "WalletBalanceChanged";
  aggregate_id = "wallet";
  correlation_id = "corr";
  causation_id = "cause";
  occurred_at = 5000;
  version = 1;
  content = pending_reference_event (record {
    transaction_id = "t";
    provider_id = "provider";
    external_transaction_id = "ext-1";
    reference_external_transaction_id = "ext-0";
    attempt = pos 1;
    next_attempt_at = 6000;
  });
}

-- An event of the aggregate 1 that waits since its instant.
abbrev pub event_row : ℕ → ℕ → OutboxRow
event_row id at = record {
  event_id = id;
  aggregate_id = 1;
  event_type = "WalletBalanceChanged";
  payload = envelope;
  occurred_at = at;
  attempts = 0;
  next_attempt_at = at;
  published_at = none;
  locked_by = none;
  locked_at = none;
  last_error = none;
}

abbrev pub two_events : World
two_events = record funded {
  tables = record (funded.tables) { outbox = event_row 102 5000 ∷ event_row 103 6000 ∷ [] };
}

abbrev pub publisher : PublisherConfig
publisher = record {
  batch_size = pos 20;
  base_backoff = pos 2;
  max_backoff = pos 300;
  lock_ttl = pos 30000;
  publisher_id = "publisher";
}

abbrev pub takes_all : OutboxEvent → Option String
takes_all e = none

-- Two entries of the ledger of wallet 1.
abbrev pub moved : World
moved = record funded {
  tables = record funded.tables { entries = opening_credit ∷ later_debit ∷ [] };
}
