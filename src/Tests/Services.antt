-- ===== src/Tests/Services.antt =====
-- The theorems on the services at concrete inputs.
use mathlib.Core.Bool.{false≢true}
use junglegaming_backend_cha.Base.{
  ◌≢◌, ap, sym, string_eq, ◌!=◌, ◌&&◌, not, if◌then◌else◌, nat_eq, ◌==◌, count_where, none, String,
  select, ◌≡◌, refl, arith, some, In,
}
use junglegaming_backend_cha.Wager.Service.Due.{Finished, resume_due-Finished}
use junglegaming_backend_cha.Wager.Service.{resume_due, compute_payload_hash, process}
use junglegaming_backend_cha.Wager.Commands.{new_external-validated, params_of}
use junglegaming_backend_cha.Wagering.{external_transaction, new_external, rehydrate, invalid}
use junglegaming_backend_cha.Wagering.Kinds.{
  requires_optional_reference, is_reversal, bet, is_loss, parse_kind, requires_reference,
  is_external,
}
use junglegaming_backend_cha.Wager.Backoff.Capped.{reference_backoff-capped, doublings, capped}
use junglegaming_backend_cha.Wager.Backoff.{reference_backoff}
use junglegaming_backend_cha.Wallets.Reconcile.{reconcile_outcome, report, IsReadable}
use junglegaming_backend_cha.Store.{EntryRow, World}
use junglegaming_backend_cha.Wallets.Ledger.{open_keeps_ledger}
use junglegaming_backend_cha.Store.Consistent.{net_balance, Consistent}
use junglegaming_backend_cha.Wager.Service.Stored.{process_stored}
use junglegaming_backend_cha.Wager.Service.Replay.{
  stored_outcome, outcome_or_conflict, process-replay, process_key_conflict,
}
use junglegaming_backend_cha.Store.Transactions.Names.{names_of}
use junglegaming_backend_cha.Tests.Samples.{
  wallet_of_one, brl, with_bet, stored_bet, funded, rejected_bet, bet_of, config, healthy_env,
}
use junglegaming_backend_cha.Wallets.{OpenCommand, reconcile, open_new}
use junglegaming_backend_cha.Base.Int.{IsInt64, pos, ◌-ℤ◌, ◌+ℤ◌}
use junglegaming_backend_cha.Wagering.Statuses.{
  origin_of_text, parse_status, is_unsuccessful, is_terminal,
}
use junglegaming_backend_cha.Money.{
  currency_pattern, is_positive, is_negative, from_minor_units, new_currency, is_valid,
}
use junglegaming_backend_cha.Store.Transactions.{deref_string, scan_row, scan_transaction}
use junglegaming_backend_cha.AppErr.{Result, ok, err}
use junglegaming_backend_cha.Wager.{Outcome, idempotency_conflict, validate_command}
use junglegaming_backend_cha.Store.TransactionQueries.{by_external, by_key}
use junglegaming_backend_cha.Wager.Service.Ledger.{process_keeps_ledger}
use junglegaming_backend_cha.Store.Hoare.{accounts}
use junglegaming_backend_cha.Store.Entries.{sum_side}

pub funded-Consistent : Consistent (accounts funded.tables)
unfolding select sum_side ◌+ℤ◌ ◌-ℤ◌
funded-Consistent = record { balance = λ id. ground arith; word = λ id. ground arith }

process_keeps_ledger_example :
    Consistent (accounts (process config (bet_of 30) healthy_env funded).1.tables)
process_keeps_ledger_example =
    process_keeps_ledger healthy_env config (bet_of 30) funded (omega arith) funded-Consistent

pub bet_of-valid : validate_command (bet_of 30) ≡ ok tt
unfolding validate_command is_valid is_external requires_reference is_negative is_loss is_positive
bet_of-valid = refl

found_bet :
    (external : String) → scan_transaction (some (stored_bet external)) ≡ ok (rejected_bet external)
unfolding scan_transaction scan_row new_currency from_minor_units parse_kind parse_status rehydrate
    is_valid is_terminal is_unsuccessful deref_string origin_of_text
found_bet external = refl

same_id :
    scan_transaction
      (select (by_external "provider" "ext-1") (with_bet "ext-1").tables.transactions)
    ≡ ok (rejected_bet "ext-1")
unfolding select
same_id = found_bet "ext-1"

other_id : select (by_external "provider" "ext-1") (with_bet "ext-0").tables.transactions ≡ none
unfolding select
other_id = refl

same_key :
    scan_transaction (select (by_key "provider" "key-1") (with_bet "ext-0").tables.transactions)
    ≡ ok (rejected_bet "ext-0")
unfolding select
same_key = found_bet "ext-0"

other_external :
    (rejected_bet "ext-0").external_transaction_id ≢ (bet_of 30).external_transaction_id
other_external h = absurd (false≢true (ap (λ s. s == "ext-0") (sym h)))

process-replay_example :
    ((process config (bet_of 30) healthy_env (with_bet "ext-1")).0
      ≡ outcome_or_conflict (rejected_bet "ext-1") (compute_payload_hash (bet_of 30) healthy_env))
    × ((process config (bet_of 30) healthy_env (with_bet "ext-1")).1.tables
        ≡ (with_bet "ext-1").tables)
process-replay_example =
    process-replay healthy_env (λ n. refl) config (bet_of 30) (rejected_bet "ext-1")
      (with_bet "ext-1") bet_of-valid same_id

abbrev conflicting : Result Outcome × World
conflicting = process config (bet_of 30) healthy_env (with_bet "ext-0")

process_key_conflict_example :
    (conflicting.0 ≡ err idempotency_conflict) × (conflicting.1.tables ≡ (with_bet "ext-0").tables)
process_key_conflict_example =
    process_key_conflict healthy_env (λ n. refl) config (bet_of 30) (rejected_bet "ext-0")
      (with_bet "ext-0") bet_of-valid other_id same_key other_external

abbrev new_player : OpenCommand
new_player = record { player_id = 9; initial_balance = brl 50; correlation_id = "" }

open_keeps_ledger_example : Consistent (accounts (open_new new_player healthy_env funded).1.tables)
open_keeps_ledger_example =
    open_keeps_ledger healthy_env new_player funded (omega arith) funded-Consistent

funded-IsReadable : IsReadable 1 funded wallet_of_one
unfolding select new_currency currency_pattern sum_side ◌+ℤ◌
funded-IsReadable = record {
  found = refl;
  currency = refl;
  balance = omega arith;
  credits = omega arith;
  debits = omega arith;
}

net_fits : IsInt64 (net_balance 1 funded.tables.entries)
unfolding sum_side ◌+ℤ◌ ◌-ℤ◌
net_fits = omega arith

divergence_fits : IsInt64 (pos 100 -ℤ net_balance 1 funded.tables.entries)
unfolding sum_side ◌+ℤ◌ ◌-ℤ◌
divergence_fits = omega arith

reconcile_outcome_example :
    (reconcile 1 healthy_env funded).0
    ≡ ok (
        report 1 "BRL"
          (pos 100)
          (net_balance 1 funded.tables.entries)
          (count_where (λ (x : EntryRow). x.wallet_id == 1) funded.tables.entries))
reconcile_outcome_example =
    reconcile_outcome 1 healthy_env funded wallet_of_one funded-IsReadable refl net_fits
      divergence_fits

reference_backoff-capped_example :
    reference_backoff (pos 1) (pos 60) (pos 4) ≡ pos (capped (doublings 3 1) 60)
reference_backoff-capped_example = reference_backoff-capped 1 60 (pos 4) (omega arith) (omega arith)

new_external-validated_example : new_external 100 (params_of (bet_of 30) "hash") 10 ≡ (
    if not (is_reversal bet)
      && not (requires_optional_reference bet)
      && (bet_of 30).reference_external_transaction_id != ""
    then err invalid
    else ok (external_transaction 100 (params_of (bet_of 30) "hash") 10))
new_external-validated_example =
    new_external-validated 100 (bet_of 30) "hash" 10 bet_of-valid refl refl

resume_due-Finished_example :
    Finished healthy_env config 2
      (with_bet "ext-1")
      (resume_due 2 config healthy_env (with_bet "ext-1"))
resume_due-Finished_example = resume_due-Finished healthy_env config 2 (with_bet "ext-1")

replayed :
    (process config (bet_of 30) healthy_env (with_bet "ext-1")).0
    ≡ ok (stored_outcome (rejected_bet "ext-1"))
unfolding compute_payload_hash
replayed = process-replay_example.0

process_stored_example :
    In
      ("provider", ("ext-1", compute_payload_hash (bet_of 30) healthy_env))
      (names_of (process config (bet_of 30) healthy_env (with_bet "ext-1")).1.tables)
process_stored_example =
    process_stored healthy_env config (bet_of 30) (with_bet "ext-1")
      (stored_outcome (rejected_bet "ext-1")) replayed
