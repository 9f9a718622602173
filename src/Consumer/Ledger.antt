-- ===== src/Consumer/Ledger.antt =====
-- internal/app/consumer/wager.go: `Handle`, on the balances and the ledger.
use junglegaming_backend_cha.Store.{
  ◌>>=◌, now_from_clock, within_transaction, Env, World, Tables, InboxRow,
}
use junglegaming_backend_cha.AppErr.{err, Result, ok, Result-cases}
use junglegaming_backend_cha.Wager.{Config, validate_command, ProcessCommand}
use junglegaming_backend_cha.Types.{Time, Uuid}
use mathlib.Core.Path.{subst}
use junglegaming_backend_cha.Base.{
  false, true, ap, sym, Bool, ◌≡◌, arith, none, some, inl, inr, string_eq, Option, String,
}
use junglegaming_backend_cha.Store.Hoare.{
  Accounts, accounts, Ends, Quiet, Quiet-pure, Quiet-bind, Quiet-query, Quiet-statement, Quiet-lift,
  Run-seq, after_quiet,
}
use junglegaming_backend_cha.Store.Quiet.{Quiet-draw, Quiet-now_from_clock}
use junglegaming_backend_cha.Store.Post.{chain_ok, chain_err}
use junglegaming_backend_cha.Store.Consistent.{Consistent}
use junglegaming_backend_cha.Store.Inbox.{
  claimed, seen, Claim, insert_inbox_row, complete_rows, after_insert, get_inbox, claim_message,
  complete_message,
}
use junglegaming_backend_cha.Wager.Keeps.{Keeps}
use junglegaming_backend_cha.Wager.Consistency.{kept}
use junglegaming_backend_cha.Wager.Service.{process}
use junglegaming_backend_cha.Wager.Service.Ledger.{
  Preserves, process_keeps_ledger, within_transaction-Preserves, lift_then-Preserves,
}
use junglegaming_backend_cha.Consumer.Request.{
  as_permanent, MoneyJson, missing, unreadable, wire, unmarshal_money, unmarshal_body, envelope_of,
  RequestEnvelope, BodyJson, parse_request, parsed_uuid, Codec, ReceivedMessage,
}
use junglegaming_backend_cha.Consumer.{
  classified, handle_claim, handle_once, handle_request, parsed_message, handle,
}
use junglegaming_backend_cha.Base.Int.{IsInt64}
use junglegaming_backend_cha.Money.Text.Range.{parse-word}
use junglegaming_backend_cha.Money.{Money, codes}
use junglegaming_backend_cha.Wagering.Kinds.{parse_kind}

pub unmarshal_money-word : (j : MoneyJson) (m : Money) → unmarshal_money j ≡ ok m → IsInt64 m.amount
unfolding unmarshal_money
unmarshal_money-word missing m h = ground (arith, h)
unmarshal_money-word unreadable m h = absurd (ground (arith, h))
unmarshal_money-word (wire (some a) (some c)) m h = parse-word (codes a) c m h
unmarshal_money-word (wire none c) m h = absurd (ground (arith, h))
unmarshal_money-word (wire (some a) none) m h = absurd (ground (arith, h))

unmarshal_body-word :
    (b : Option BodyJson) (e : RequestEnvelope)
    → unmarshal_body b ≡ ok e
    → IsInt64 e.request.amount.amount
unfolding unmarshal_body envelope_of
unmarshal_body-word none e h = absurd (ground (arith, h))
unmarshal_body-word (some b) e h = elim (Result-cases (unmarshal_money b.money)) [
  | inl (m, p) ↦ let word = unmarshal_money-word b.money m p in ground (arith, h, p, word)
  | inr (x, p) ↦ absurd (ground (arith, h, p))
]

-- The amount of a request that was read is an int64.
parse_request-word :
    (codec : Codec) (uuid_parse : String → Option Uuid) (message : ReceivedMessage)
    (r : String × ProcessCommand)
    → parse_request codec uuid_parse message ≡ ok r
    → IsInt64 r.1.amount.amount
unfolding parse_request
parse_request-word codec uuid_parse message r h =
    elim (Result-cases (unmarshal_body (codec.decode message.body))) [
      | inr (x, p) ↦ absurd (ground (arith, h, p))
      | inl (e, p) ↦
          let word = unmarshal_body-word (codec.decode message.body) e p in
          let d = e.request in
          elim (Result-cases (parsed_uuid "INVALID_PLAYER_ID" (uuid_parse d.player_id))) [
            | inr (x, q) ↦ absurd (ground (arith, h, p, q))
            | inl (player, q) ↦
                elim (Result-cases (parsed_uuid "INVALID_WALLET_ID" (uuid_parse d.wallet_id))) [
                  | inr (x, s) ↦ absurd (ground (arith, h, p, q, s))
                  | inl (wallet, s) ↦ elim (Result-cases (parse_kind d.kind)) [
                    | inr (x, t) ↦ absurd (ground (arith, h, p, q, s, t))
                    | inl (kind, t) ↦ ground (arith, h, p, q, s, t, word)
                  ]
                ]
          ]
    ]

insert_inbox_row-accounts :
    (r : InboxRow) (t : Tables) → accounts (insert_inbox_row r t).1 ≡ accounts t
unfolding insert_inbox_row
insert_inbox_row-accounts r t = ground arith

complete_rows-accounts :
    (consumer message : String) (now : Time) (t : Tables)
    → accounts (complete_rows consumer message now t).1 ≡ accounts t
unfolding complete_rows
complete_rows-accounts consumer message now t = ground arith

Quiet-after_insert : (c m : String) (inserted : Bool) → Quiet (after_insert c m inserted)
unfolding after_insert get_inbox
Quiet-after_insert c m true = Quiet-pure _
Quiet-after_insert c m false = Quiet-bind (Quiet-query _ _) (λ r. Quiet-pure _)

Quiet-claim_message : (c m hash : String) (now : Time) → Quiet (claim_message c m hash now)
unfolding claim_message
Quiet-claim_message c m hash now =
    Quiet-bind Quiet-draw (λ id.
      Quiet-bind (Quiet-statement _ _ (insert_inbox_row-accounts _)) (Quiet-after_insert c m))

Quiet-complete_message : (c m : String) (now : Time) → Quiet (complete_message c m now)
unfolding complete_message
Quiet-complete_message c m now = Quiet-statement _ _ (complete_rows-accounts c m now)

all-Ends :
    {A : Type 0} (p : Result A × World)
    → Consistent (accounts p.1.tables)
    → Ends (λ a y. Consistent y) p
all-Ends (ok a, w) h = h
all-Ends (err e, w) h = tt

module _ {x : Accounts} (c : Consistent x) (config : Config) (cmd : ProcessCommand)
    (word : IsInt64 cmd.amount.amount) where
  classified-Keeps : Keeps x (classified (process config cmd))
  unfolding classified
  classified-Keeps = record {
    run = λ env w e.
        let h = process_keeps_ledger env config cmd w word (subst Consistent (sym e) c) in
        elim (Result-cases (process config cmd env w).0) [
          | inl (a, p) ↦ all-Ends _ (rw (classified, p) h)
          | inr (f, p) ↦ all-Ends _ (rw (classified, p) h)
        ];
  }

  handle_claim-Keeps :
      (id hash : String) (claim : Claim) → Keeps x (handle_claim config cmd id hash claim)
  unfolding handle_claim
  handle_claim-Keeps id hash claimed =
      Run-seq classified-Keeps
        (λ a y h. after_quiet Quiet-now_from_clock (λ now. kept h (Quiet-complete_message _ _ now)))
  handle_claim-Keeps id hash (seen r) = kept c (Quiet-lift _)

  handle_once-Keeps : (id hash : String) (now : Time) → Keeps x (handle_once config cmd id hash now)
  unfolding handle_once
  handle_once-Keeps id hash now =
      after_quiet (Quiet-claim_message _ _ _ _) (handle_claim-Keeps id hash)

handle_request-Preserves :
    (env : Env) (config : Config) (hash : String) (r : String × ProcessCommand)
    → IsInt64 r.1.amount.amount
    → Preserves (handle_request config hash r) env
unfolding handle_request now_from_clock within_transaction ◌>>=◌
handle_request-Preserves env config hash (id, cmd) word =
    lift_then-Preserves env (as_permanent (validate_command cmd)) _ (λ w h.
      within_transaction-Preserves env (handle_once config cmd id hash (env.clock w.readings))
        (λ x c. handle_once-Keeps c config cmd word id hash _) _ h)

-- From tables where every wallet's balance is the sum of its credits less its debits, and an int64,
-- `handle` leads to such tables again, whatever the message says, whatever the outcome and
-- whichever round trips fail.
pub handle_keeps_ledger :
    (env : Env) (config : Config) (codec : Codec) (message : ReceivedMessage) (w : World)
    → Consistent (accounts w.tables)
    → Consistent (accounts (handle config codec message env w).1.tables)
unfolding handle parsed_message as_permanent
handle_keeps_ledger env config codec message w h =
    let hash = codec.hash_body message.body in
    let request = parsed_message codec message in
    elim (Result-cases (parse_request codec env.uuid_parse message)) [
      | inl (r, p) ↦
          let run = chain_ok request (handle_request config hash) env w r (ap as_permanent p) in
          let word = parse_request-word codec env.uuid_parse message r p in
          subst (λ z. Consistent (accounts z.1.tables)) (sym run)
            (handle_request-Preserves env config hash r word w h)
      | inr (e, p) ↦
          let run = chain_err request (handle_request config hash) env w _ (ap as_permanent p) in
          subst (λ z. Consistent (accounts z.1.tables)) (sym run) h
    ]
