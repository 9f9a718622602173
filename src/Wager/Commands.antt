-- ===== src/Wager/Commands.antt =====
-- internal/app/wager/service.go: `Validate` of a command, and what `NewExternal` then does.
use junglegaming_backend_cha.Base.{
  inr, inl, Bool-cases, ◌≡◌, false, not, ◌==◌, ◌!=◌, ◌&&◌, ◌||◌, string_eq, nat_eq, arith, refl,
  Bool, String, if◌then◌else◌,
}
use junglegaming_backend_cha.Types.{Time, Uuid, nil_uuid}
use junglegaming_backend_cha.AppErr.{ErrorKind, Error, ok, err, raise_if, guard-inv}
use junglegaming_backend_cha.Wagering.{
  invalid, new_external, external_transaction, ExternalParams, validate_amount_for_kind,
}
use junglegaming_backend_cha.Wager.{ProcessCommand, validate_command, invalid_command}
use junglegaming_backend_cha.Wagering.Failures.{failure_invalid_amount}
use junglegaming_backend_cha.Wagering.Kinds.{
  code_invalid_kind, is_external, requires_reference, is_loss, is_reversal,
  requires_optional_reference, Kind,
}
use junglegaming_backend_cha.Money.{Money, is_valid, is_negative, is_zero, is_positive}
use junglegaming_backend_cha.Money

-- The checks of `Validate`.
record Passed (cmd : ProcessCommand) : Type 0 where
  provider : (cmd.provider_id == "") ≡ false
  external : (cmd.external_transaction_id == "") ≡ false
  key : (cmd.idempotency_key == "") ≡ false
  ids : (cmd.player_id == nil_uuid || cmd.wallet_id == nil_uuid) ≡ false
  game : (cmd.round_id == "" || cmd.game_id == "") ≡ false
  from_outside : not (is_external cmd.kind) ≡ false
  referenced : (requires_reference cmd.kind && cmd.reference_external_transaction_id == "") ≡ false
  amount : validate_amount_for_kind cmd.kind cmd.amount ≡ ok tt

amount_fits :
    (kind : Kind) (amount : Money)
    → not (is_valid amount) ≡ false
    → is_negative amount ≡ false
    → (if is_loss kind
        then raise_if (not (is_zero amount)) (Error.new ErrorKind.invalid failure_invalid_amount)
        else raise_if
            (not (is_positive amount))
            (Error.new ErrorKind.invalid failure_invalid_amount))
      ≡ ok tt
    → validate_amount_for_kind kind amount ≡ ok tt
unfolding validate_amount_for_kind
amount_fits kind amount v n h = rw (v, n) h

validate_command-inv : (cmd : ProcessCommand) → validate_command cmd ≡ ok tt → Passed cmd
unfolding validate_command
validate_command-inv cmd h0 =
    let (c1, h1) = guard-inv (cmd.provider_id == "") invalid_command _ h0 in
    let (c2, h2) = guard-inv (cmd.external_transaction_id == "") invalid_command _ h1 in
    let (c3, h3) = guard-inv (cmd.idempotency_key == "") invalid_command _ h2 in
    let (c4, h4) =
      guard-inv (cmd.player_id == nil_uuid || cmd.wallet_id == nil_uuid) invalid_command _ h3 in
    let (c5, h5) = guard-inv (cmd.round_id == "" || cmd.game_id == "") invalid_command _ h4 in
    let (c6, h6) =
      guard-inv (not (is_valid cmd.amount)) (Error.new ErrorKind.invalid Money.code_invalid_amount)
        _ h5 in
    let (c7, h7) =
      guard-inv (not (is_external cmd.kind)) (Error.new ErrorKind.invalid code_invalid_kind) _ h6 in
    let (c8, h8) =
      guard-inv (requires_reference cmd.kind && cmd.reference_external_transaction_id == "")
        invalid_command _ h7 in
    let (c9, h9) =
      guard-inv (is_negative cmd.amount) (Error.new ErrorKind.invalid Money.code_negative_amount) _
        h8 in
    record {
      provider = c1;
      external = c2;
      key = c3;
      ids = c4;
      game = c5;
      from_outside = c7;
      referenced = c8;
      amount = amount_fits cmd.kind cmd.amount c6 c9 h9;
    }

-- The parameters that `processOnce` gives to `NewExternal`.
abbrev pub params_of : ProcessCommand → String → ExternalParams
params_of cmd hash = record {
  provider_id = cmd.provider_id;
  external_transaction_id = cmd.external_transaction_id;
  idempotency_key = cmd.idempotency_key;
  payload_hash = hash;
  wallet_id = cmd.wallet_id;
  player_id = cmd.player_id;
  round_id = cmd.round_id;
  game_id = cmd.game_id;
  kind = cmd.kind;
  amount = cmd.amount;
  reference_external_transaction_id = cmd.reference_external_transaction_id;
}

or_false : (a b : Bool) → (a || b) ≡ false → (a ≡ false) × (b ≡ false)
or_false a b h = ground arith

or_swap : (a b : Bool) → (a || b) ≡ false → (b || a) ≡ false
or_swap a b h = ground arith

-- A command that passes `Validate` makes a transaction, under a payload hash that is not empty and
-- at a proper instant, except for one case that only `NewExternal` refuses, as an invalid
-- transaction: a reference on a kind that takes none (a BET or a LOSS).
pub new_external-validated :
    (id : Uuid) (cmd : ProcessCommand) (hash : String) (now : Time)
    → validate_command cmd ≡ ok tt
    → (hash == "") ≡ false
    → (now == 0) ≡ false
    → new_external id (params_of cmd hash) now ≡ (
        if not (is_reversal cmd.kind)
          && not (requires_optional_reference cmd.kind)
          && cmd.reference_external_transaction_id != ""
        then err invalid
        else ok (external_transaction id (params_of cmd hash) now))
unfolding new_external
new_external-validated id cmd hash now h proper later =
    let p = validate_command-inv cmd h in
    let (round, game) = or_false (cmd.round_id == "") (cmd.game_id == "") p.game in
    let ids = or_swap (cmd.player_id == nil_uuid) (cmd.wallet_id == nil_uuid) p.ids in
    elim (Bool-cases (
      not (is_reversal cmd.kind)
      && not (requires_optional_reference cmd.kind)
      && cmd.reference_external_transaction_id != "")) [
        | inl q ↦
            rw
              (
                p.provider, p.external, p.key, proper, ids, round, game, p.from_outside, p.amount,
                p.referenced, q,
              )
              refl
        | inr q ↦
            rw
              (
                p.provider, p.external, p.key, proper, ids, round, game, p.from_outside, p.amount,
                p.referenced, q, later,
              )
              refl
      ]
