-- ===== src/Store.antt =====
-- The database as the adapters of internal/adapters/postgres use it: tables as lists of rows with
-- the columns of migrations/0001_init.up.sql, and the monad of a call that runs statements. A
-- statement of PostgreSQL acts as the SQL text says, with the constraints of the migration.
pub mod Hoare
pub mod Calm
pub mod Quiet
pub mod Accounts
pub mod Consistent
pub mod Wallets
pub mod Transactions
pub mod TransactionRepo
pub mod TransactionQueries
pub mod Entries
pub mod Outbox
pub mod Inbox
pub mod Frame
pub mod Post
pub mod Pages
pub mod Answers
use junglegaming_backend_cha.Events.{Envelope}
use junglegaming_backend_cha.Base.{
  ℕ, ◌+◌, String, Bool, true, false, List, Option, none, some, if◌then◌else◌, ◌==◌, string_eq,
  nat_eq,
}
use junglegaming_backend_cha.Base.Int.{ℤ}
use junglegaming_backend_cha.AppErr.{Error, Result, ok, err}
use junglegaming_backend_cha.Types.{Uuid, Time}

pub record WalletRow : Type 0 where
  pub id : Uuid
  pub player_id : Uuid
  pub currency : String
  pub balance_minor : ℤ
  pub version : ℤ
  pub created_at : Time
  pub updated_at : Time

-- A column that may be NULL is an `Option`.
pub record TransactionRow : Type 0 where
  pub id : Uuid
  pub origin : String
  pub provider_id : Option String
  pub external_transaction_id : Option String
  pub idempotency_key : Option String
  pub payload_hash : Option String
  pub wallet_id : Uuid
  pub player_id : Uuid
  pub round_id : Option String
  pub game_id : Option String
  pub kind : String
  pub amount_minor : ℤ
  pub currency : String
  pub reference_external_transaction_id : Option String
  pub reference_transaction_id : Option Uuid
  pub status : String
  pub failure_code : Option String
  pub result_balance_minor : Option ℤ
  pub attempts : ℤ
  pub next_attempt_at : Option Time
  pub created_at : Time
  pub updated_at : Time

pub record EntryRow : Type 0 where
  pub id : Uuid
  pub wallet_id : Uuid
  pub transaction_id : Uuid
  pub direction : String
  pub amount_minor : ℤ
  pub currency : String
  pub balance_before_minor : ℤ
  pub balance_after_minor : ℤ
  pub created_at : Time

pub record OutboxRow : Type 0 where
  pub event_id : Uuid
  pub aggregate_id : Uuid
  pub event_type : String
  pub payload : Envelope
  pub occurred_at : Time
  pub attempts : ℕ
  pub next_attempt_at : Time
  pub published_at : Option Time
  pub locked_by : Option String
  pub locked_at : Option Time
  pub last_error : Option String

pub record InboxRow : Type 0 where
  pub id : Uuid
  pub consumer_name : String
  pub message_id : String
  pub payload_hash : String
  pub status : String
  pub received_at : Time
  pub completed_at : Option Time

pub record Tables : Type 0 where
  pub wallets : List WalletRow
  pub transactions : List TransactionRow
  pub entries : List EntryRow
  pub outbox : List OutboxRow
  pub inbox : List InboxRow

-- What the program does not implement. `new_v7` is the n-th identity that the uuid library draws,
-- `clock` the n-th reading of the injected clock, and `faulty` says whether the n-th round trip
-- to the database fails, for whatever reason, and `committed` whether a failing commit has taken
-- effect all the same. `uuid_text` and `uuid_parse` are `String` and
-- `Parse` of the uuid library, and `digest` the hex SHA-256 of the JSON object with the given keys
-- and values, the values as bytes.
pub record Env : Type 0 where
  pub new_v7 : ℕ → Uuid
  pub clock : ℕ → Time
  pub faulty : ℕ → Bool
  pub committed : ℕ → Bool
  pub uuid_text : Uuid → String
  pub uuid_parse : String → Option Uuid
  pub digest : List (String × List ℕ) → String

-- The tables, and how often each of the outside functions was called.
pub record World : Type 0 where
  pub tables : Tables
  pub drawn : ℕ
  pub readings : ℕ
  pub trips : ℕ

abbrev pub Db {ℓ} : Type ℓ → Type ℓ
Db A = Env → World → Result A × World

module _ {ℓ} {A : Type ℓ} where
  unfoldable pub pure : A → Db A
  pure a env w = (ok a, w)

  unfoldable pub fail : Error → Db A
  fail e env w = (err e, w)

  -- A computation that does not touch the database.
  unfoldable pub lift : Result A → Db A
  lift r env w = (r, w)

  -- One statement: it reads and writes the tables, or the round trip fails.
  unfoldable pub statement : String → (Tables → Result A × Tables) → Db A
  statement message run env w =
      if env.faulty w.trips
      then (err (Error.plain message), record w { trips = w.trips + 1 })
      else (let (r, t) = run w.tables in (r, record w { tables = t; trips = w.trips + 1 }))

  -- A query that returns what it computes from the tables.
  unfoldable pub query : String → (Tables → Result A) → Db A
  query message read env w =
      if env.faulty w.trips
      then (err (Error.plain message), record w { trips = w.trips + 1 })
      else (read w.tables, record w { trips = w.trips + 1 })

  unfoldable pub finish : Tables → Result A × World → Env → Result A × World
  finish before (ok a, w) env =
      if env.faulty w.trips
      then (
        err (Error.plain "postgres: commit transaction"),
        record w {
          tables = if env.committed w.trips then w.tables else before;
          trips = w.trips + 1;
        },
      )
      else (ok a, record w { trips = w.trips + 1 })
  finish before (err e, w) env = (err e, record w { tables = before })

  -- `WithinTransaction`: begin, the function, commit; an error of the function rolls back. A commit
  -- that fails may have taken effect on the server before its answer was lost. A nested call does
  -- the same with a savepoint; the error of a rollback to it is joined behind the function's, which
  -- still decides the kind and the code, so that only the function's is kept.
  unfoldable pub within_transaction : Db A → Db A
  unfolding finish
  within_transaction m env w =
      if env.faulty w.trips
      then (err (Error.plain "postgres: begin transaction"), record w { trips = w.trips + 1 })
      else finish w.tables (m env (record w { trips = w.trips + 1 })) env

infixl 5 ◌>>=◌ ◌>>◌
unfoldable pub ◌>>=◌ {ℓ κ} : {A : Type ℓ} {B : Type κ} → Db A → (A → Db B) → Db B
◌>>=◌ m f env w = let (r, w') = m env w in elim r [ ok a ↦ f a env w' | err e ↦ (err e, w') ]

unfoldable pub ◌>>◌ {ℓ κ} : {A : Type ℓ} {B : Type κ} → Db A → Db B → Db B
unfolding ◌>>=◌
m >> k = m >>= λ _. k

-- `uuid.NewV7`
unfoldable pub draw : Db Uuid
draw env w = (ok (env.new_v7 w.drawn), record w { drawn = w.drawn + 1 })

-- `s.clock()`
unfoldable pub now_from_clock : Db Time
now_from_clock env w = (ok (env.clock w.readings), record w { readings = w.readings + 1 })

-- `column = $n`: a NULL is equal to nothing.
abbrev pub column_eq : Option String → String → Bool
column_eq none s = false
column_eq (some c) s = c == s

abbrev pub id_column_eq : Option Uuid → Uuid → Bool
id_column_eq none s = false
id_column_eq (some c) s = c == s
