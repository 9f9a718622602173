-- ===== src/Http/Wallets.antt =====
-- internal/adapters/httpapi/wallets.go, with its routes of router.go.
pub mod Safety
use junglegaming_backend_cha.Base.{
  ℕ, String, Bool, true, false, Option, none, some, List, [], ◌∷◌, map, if◌then◌else◌,
}
use junglegaming_backend_cha.Base.Int.{ℤ, pos}
use junglegaming_backend_cha.AppErr.{Result, ok, err}
use junglegaming_backend_cha.Types.{Uuid, Time}
use junglegaming_backend_cha.Money.{Money}
use junglegaming_backend_cha.Wallet.{Wallet}
use junglegaming_backend_cha.Ledger.{Entry, direction_text}
use junglegaming_backend_cha.Store.{Env, World, Db, lift, pure, ◌>>=◌, ◌>>◌}
use junglegaming_backend_cha.Store.Pages.{LedgerCursor, LedgerPage}
use junglegaming_backend_cha.Consumer.Request.{MoneyJson, parsed_uuid}
use junglegaming_backend_cha.Wallets.{
  OpenCommand, open_new, get, ledger_page, reconcile, Reconciliation,
}
use junglegaming_backend_cha.Wallets.Pages.{next_cursor}
use junglegaming_backend_cha.Http.{
  Response, Handler, WalletResponse, LedgerEntryResponse, LedgerResponse, ReconciliationResponse,
  wallet_body, ledger_body, reconciliation_body, respond, JsonBody, decode_json,
}
use junglegaming_backend_cha.Http.Lookup.{parse_uuid}
use junglegaming_backend_cha.Http.Access.{Principal, authenticate, require_roles, role_internal}
use junglegaming_backend_cha.Http.Cursor.{Texts, encode_cursor, decode_cursor, parse_limit}

-- `openWalletRequest`
pub record OpenJson : Type 0 where
  pub player_id : String
  pub money : MoneyJson

-- `toWalletResponse`
unfoldable pub to_wallet_response : Env → Wallet → WalletResponse
to_wallet_response env w = record {
  id = env.uuid_text w.id;
  player_id = env.uuid_text w.player_id;
  balance = w.balance;
  version = w.version;
}

-- `Open`
unfoldable pub open_call : String → JsonBody OpenJson → Db Wallet
unfolding decode_json parse_uuid open_new
open_call request_id body = do
  read ← lift (decode_json (λ (b : OpenJson). b.money) body)
  player_id ← parse_uuid "INVALID_PLAYER_ID" (read.0.player_id)
  open_new (record { player_id = player_id; initial_balance = read.1; correlation_id = request_id })

-- `Get`
unfoldable pub get_wallet_call : String → Db Wallet
unfolding parse_uuid get
get_wallet_call wallet_id = do id ← parse_uuid "INVALID_IDENTIFIER" wallet_id; get id

-- `Ledger`: the limit as it was read, and the text of the cursor.
unfoldable pub ledger_call : Texts → String → Option (Option ℤ) → List ℕ → Db LedgerPage
unfolding parse_uuid parse_limit decode_cursor ledger_page
ledger_call lib wallet_id limit_text cursor_text = do
  id ← parse_uuid "INVALID_IDENTIFIER" wallet_id
  limit ← lift (parse_limit limit_text (pos 50))
  cursor ← lift (decode_cursor lib cursor_text)
  ledger_page id cursor limit

unfoldable pub entry_response : Env → Entry → LedgerEntryResponse
unfolding direction_text
entry_response env e = record {
  id = env.uuid_text e.id;
  transaction_id = env.uuid_text e.transaction_id;
  direction = direction_text e.direction;
  amount = e.amount;
  balance_before = e.balance_before;
  balance_after = e.balance_after;
  created_at = e.created_at;
}

unfoldable pub cursor_text : Texts → Option LedgerCursor → List ℕ
unfolding encode_cursor
cursor_text lib none = []
cursor_text lib (some c) = encode_cursor lib c.created_at c.id

unfoldable pub ledger_answer : Texts → Env → LedgerPage → Response
unfolding entry_response cursor_text next_cursor
ledger_answer lib env page = record {
  status = 200;
  body = ledger_body (record {
    entries = map (entry_response env) page.entries;
    next_cursor = cursor_text lib (next_cursor page);
  });
}

-- `Reconcile`
unfoldable pub reconcile_call : String → Db Reconciliation
unfolding parse_uuid reconcile
reconcile_call wallet_id = do id ← parse_uuid "INVALID_IDENTIFIER" wallet_id; reconcile id

unfoldable pub reconcile_answer : Env → Reconciliation → Response
reconcile_answer env r = record {
  status = 200;
  body = reconciliation_body (record {
    wallet_id = env.uuid_text r.wallet_id;
    stored_balance = r.stored_balance;
    calculated_balance = r.calculated_balance;
    difference = r.difference;
    consistent = r.consistent;
    checked_entries = r.checked_entries;
  });
}

abbrev pub wallet_answer : ℕ → Env → Wallet → Response
wallet_answer status env w = record {
  status = status;
  body = wallet_body (to_wallet_response env w);
}

-- The requests of /wallets.
pub data WalletRequest : Type 0 where
  post_wallet : JsonBody OpenJson → WalletRequest
  read_wallet : String → WalletRequest
  read_ledger : String → Option (Option ℤ) → List ℕ → WalletRequest
  post_reconciliation : String → WalletRequest

-- The handler of a request, given the request id.
unfoldable pub wallet_handler : Texts → String → WalletRequest → Handler
unfolding respond open_call get_wallet_call ledger_call ledger_answer reconcile_call
    reconcile_answer to_wallet_response
wallet_handler lib request_id (post_wallet body) =
    respond (open_call request_id body) (wallet_answer 201)
wallet_handler lib request_id (read_wallet id) = respond (get_wallet_call id) (wallet_answer 200)
wallet_handler lib request_id (read_ledger id limit cursor) =
    respond (ledger_call lib id limit cursor) (ledger_answer lib)
wallet_handler lib request_id (post_reconciliation id) =
    respond (reconcile_call id) reconcile_answer

-- The routes of /wallets, for the internal role only.
unfoldable pub serve_wallets : Texts → Result Principal → String → WalletRequest → Handler
unfolding authenticate require_roles wallet_handler
serve_wallets lib caller request_id request =
    authenticate caller
      (λ p. require_roles (role_internal ∷ []) p (wallet_handler lib request_id request))
