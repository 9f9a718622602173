-- ===== src/Tests/Http.antt =====
-- The theorems on the HTTP interface at concrete inputs.
use junglegaming_backend_cha.Money.{new_currency}
use junglegaming_backend_cha.Money.Text.{
  parse, is_empty, amount_pattern, unsigned_pattern, trim_minus, or_error, cut_point, minor_part,
  units_of_parts, has_minus,
}
use junglegaming_backend_cha.Money.Text.Decimal.{is_digit, parse_uint}
use junglegaming_backend_cha.Base.{◌≡◌, ◌≢◌, refl, ◌∷◌, [], some, true, ◌⊎◌, string_eq, nat_eq}
use junglegaming_backend_cha.AppErr.{ok}
use junglegaming_backend_cha.Consumer.Request.{wire, unmarshal_money}
use junglegaming_backend_cha.Store.Consistent.{Consistent}
use junglegaming_backend_cha.Store.Hoare.{accounts}
use junglegaming_backend_cha.Http.{single}
use junglegaming_backend_cha.Http.Access.{Principal, role_provider, role_internal, has_role}
use junglegaming_backend_cha.Http.Submit.{SubmitJson, SubmitRequest, post_transaction}
use junglegaming_backend_cha.Http.Submit.Safety.{submit_keeps_ledger, submit_authorized}
use junglegaming_backend_cha.Tests.Samples.{config, healthy_env, parsing_env, funded}
use junglegaming_backend_cha.Tests.Services.{funded-Consistent}

abbrev bet_json : SubmitJson
bet_json = record {
  provider_id = "provider";
  external_transaction_id = "ext-1";
  player_id = "player";
  wallet_id = "wallet";
  round_id = "round";
  game_id = "game";
  kind = "BET";
  money = wire (some "0.30") (some "BRL");
  reference_external_transaction_id = "";
}

abbrev bet_request : SubmitRequest
bet_request = record { idempotency_key = "key-1"; request_id = "request-1"; body = single bet_json }

abbrev game_provider : Principal
game_provider = record { subject = "client"; provider_id = "provider"; roles = role_provider ∷ [] }

-- A provider may not submit for another one.
abbrev other_provider : Principal
other_provider = record game_provider { provider_id = "other" }

submit_keeps_ledger_example :
    Consistent (
      accounts (post_transaction config (ok game_provider) bet_request parsing_env funded).1.tables)
submit_keeps_ledger_example =
    submit_keeps_ledger parsing_env config (ok game_provider) bet_request funded funded-Consistent

submit_authorized_example :
    ((post_transaction config (ok game_provider) bet_request parsing_env funded).1.tables
      ≡ funded.tables)
    ⊎ (p : Principal) × (fields : SubmitJson) × (ok game_provider ≡ ok p)
      × (single bet_json ≡ single fields)
      × ((has_role p.roles role_internal ≡ true)
          ⊎ ((p.provider_id ≢ "") × (p.provider_id ≡ fields.provider_id)))
submit_authorized_example =
    submit_authorized parsing_env config (ok game_provider) bet_request funded

refused :
    (post_transaction config (ok other_provider) bet_request healthy_env funded).0.status ≡ 403
unfolding post_transaction unmarshal_money parse new_currency is_empty amount_pattern
    unsigned_pattern trim_minus is_digit or_error parse_uint cut_point minor_part units_of_parts
    has_minus
refused = refl
