-- ===== src/Consumer/Redelivery.antt =====
-- internal/app/consumer/wager.go: `Handle` on a message that the inbox already has.
use junglegaming_backend_cha.Store.Post.{chain_err, After-ok, chain_ok}
use junglegaming_backend_cha.Consumer.Once.{handle_request-Post}
use junglegaming_backend_cha.Store.Inbox.{
  inbox_of, seen, InboxRecord, by_message, scan_inbox, insert_inbox_row, claim_message,
  after_insert, get_inbox, received,
}
use junglegaming_backend_cha.Base.{
  sym, inr, inl, eq_refl, ◌∙◌, ap, ◌==◌, refl, ◌≡◌, false, some, arith, ◌!=◌, string_eq, nat_eq,
  select, String, select-counted, ◌+◌,
}
use junglegaming_backend_cha.Store.Inbox.Claims.{IsRecorded}
use junglegaming_backend_cha.AppErr.{Result-cases, err, ok, Result, raise_if}
use mathlib.Core.Path.{subst}
use junglegaming_backend_cha.Store.{
  ◌>>◌, World, now_from_clock, Env, Tables, InboxRow, lift, statement, query, draw, pure, ◌>>=◌,
}
use junglegaming_backend_cha.Consumer.{
  parsed_message, handle, handle_request, consumer_name, hash_mismatch, handle_claim, handle_once,
}
use junglegaming_backend_cha.Store.Answers.{within_transaction-Answers, IsHealthy, Answers}
use junglegaming_backend_cha.Wager.{validate_command, Config, ProcessCommand}
use junglegaming_backend_cha.Consumer.Request.{parse_request, as_permanent, ReceivedMessage, Codec}
use junglegaming_backend_cha.Types.{Time}

insert_inbox_row-conflict :
    (r x : InboxRow) (t : Tables)
    → select (by_message r.consumer_name r.message_id) t.inbox ≡ some x
    → insert_inbox_row r t ≡ (ok false, t)
unfolding insert_inbox_row
insert_inbox_row-conflict r x t h =
    ground (arith, select-counted (by_message r.consumer_name r.message_id) t.inbox x h)

module _ (env : Env) (healthy : IsHealthy env) (before : Tables) (row : InboxRow) (id : String)
    (found : select (by_message consumer_name id) before.inbox ≡ some row) where
  -- What `Handle` returns for a message with this hash.
  abbrev settled : String → Result (Unit {0})
  settled hash = raise_if (row.payload_hash != hash) hash_mismatch

  abbrev recorded : InboxRecord
  recorded = record {
    message_id = row.message_id;
    payload_hash = row.payload_hash;
    completed = row.status == "COMPLETED";
    received_at = row.received_at;
  }

  claim_message-seen :
      (hash : String) (now : Time)
      → Answers env healthy before (claim_message consumer_name id hash now) (ok (seen recorded))
  unfolding claim_message after_insert get_inbox scan_inbox draw statement query pure ◌>>=◌
  claim_message-seen hash now w e =
      let fresh = received (env.new_v7 w.drawn) consumer_name id hash now in
      let conflict = insert_inbox_row-conflict fresh row before found in
      ground (arith, healthy w.trips, e, conflict, healthy (w.trips + 1), found)

  handle_once-Answers :
      (config : Config) (cmd : ProcessCommand) (hash : String) (now : Time)
      → Answers env healthy before (handle_once config cmd id hash now) (settled hash)
  unfolding handle_once handle_claim lift
  handle_once-Answers config cmd hash now w e =
      let claim = claim_message consumer_name id hash now in
      let (p, q) = claim_message-seen hash now w e in
      rw (chain_ok claim (handle_claim config cmd id hash) env w (seen recorded) p) (refl, q)

  handle_request-Answers :
      (config : Config) (cmd : ProcessCommand) (hash : String)
      → validate_command cmd ≡ ok tt
      → Answers env healthy before (handle_request config hash (id, cmd)) (settled hash)
  unfolding handle_request lift now_from_clock as_permanent ◌>>=◌ ◌>>◌
  handle_request-Answers config cmd hash valid w e = rw valid (
      within_transaction-Answers env healthy before _ (settled hash)
        (handle_once-Answers config cmd hash (env.clock w.readings)) _ e)

module _ (env : Env) (healthy : IsHealthy env) (config : Config) (codec : Codec)
    (message : ReceivedMessage) (id : String) (cmd : ProcessCommand)
    (read : parse_request codec env.uuid_parse message ≡ ok (id, cmd))
    (valid : validate_command cmd ≡ ok tt) where
  -- If no round trip fails, a valid message whose id the inbox already has changes no table: it is
  -- acknowledged when its body has the hash that was stored, and otherwise it is the permanent
  -- error MESSAGE_HASH_MISMATCH.
  pub handle_redelivered :
      (w : World) (row : InboxRow)
      → select (by_message consumer_name id) w.tables.inbox ≡ some row
      → ((handle config codec message env w).0
          ≡ raise_if (row.payload_hash != codec.hash_body message.body) hash_mismatch)
        × ((handle config codec message env w).1.tables ≡ w.tables)
  unfolding handle parsed_message as_permanent ◌>>=◌
  handle_redelivered w row found =
      let hash = codec.hash_body message.body in
      let request = parsed_message codec message in
      let run =
        chain_ok request (handle_request config hash) env w (id, cmd) (ap as_permanent read) in
      let (answer, kept) =
        handle_request-Answers env healthy w.tables row id found config cmd hash valid w refl in
      (ap (λ r. r.0) run ∙ answer, ap (λ r. r.1.tables) run ∙ kept)

as_permanent-ok : {A : Type 0} (r : Result A) (a : A) → as_permanent r ≡ ok a → r ≡ ok a
unfolding as_permanent
as_permanent-ok (ok b) a h = h
as_permanent-ok (err e) a h = absurd (ground (arith, h))

-- What a handled message has in the inbox, and that it was valid.
abbrev pub HandledAs : Env → Config → Codec → ReceivedMessage → World → Type 0
HandledAs env config codec message w =
    (r : String × ProcessCommand) × (parse_request codec env.uuid_parse message ≡ ok r)
    × (validate_command r.1 ≡ ok tt)
    × IsRecorded consumer_name r.0 (codec.hash_body message.body)
        (handle config codec message env w).1.tables.inbox

handle_request-valid :
    (env : Env) (config : Config) (hash : String) (r : String × ProcessCommand) (w : World)
    → (handle_request config hash r env w).0 ≡ ok tt
    → validate_command r.1 ≡ ok tt
unfolding handle_request lift ◌>>◌ ◌>>=◌
handle_request-valid env config hash (id, cmd) w h =
    elim (Result-cases (as_permanent (validate_command cmd))) [
      | inl (tt, p) ↦ as_permanent-ok (validate_command cmd) tt p
      | inr (e, p) ↦ absurd (ground (arith, h, p))
    ]

pub handle-inv :
    (env : Env) (config : Config) (codec : Codec) (message : ReceivedMessage) (w : World)
    → (handle config codec message env w).0 ≡ ok tt
    → HandledAs env config codec message w
unfolding handle parsed_message
handle-inv env config codec message w h =
    let hash = codec.hash_body message.body in
    let request = parsed_message codec message in
    elim (Result-cases (as_permanent (parse_request codec env.uuid_parse message))) [
      | inl ((id, cmd), p) ↦
          let run = chain_ok request (handle_request config hash) env w (id, cmd) p in
          let done = sym (ap (λ r. r.0) run) ∙ h in
          let found =
            After-ok inbox_of (λ a y. IsRecorded consumer_name id hash y) _ tt
              ((handle_request-Post config cmd id hash w.tables.inbox).post env w refl) done in
          (
            (id, cmd),
            as_permanent-ok _ _ p,
            handle_request-valid env config hash (id, cmd) w done,
            subst (λ y. IsRecorded consumer_name id hash y) (ap (λ r. r.1.tables.inbox) (sym run))
                found,
          )
      | inr (e, p) ↦ absurd (
          ground
            (arith, h, ap (λ r. r.0) (chain_err request (handle_request config hash) env w e p)))
    ]

-- A message is handled once: after a delivery that was acknowledged, whatever has failed in it on
-- the way, and as long as the inbox is what it left, a delivery of the same message over a database
-- that works is acknowledged and changes no table.
pub handled_once :
    (env again : Env) (config : Config) (codec : Codec) (message : ReceivedMessage) (w v : World)
    → (handle config codec message env w).0 ≡ ok tt
    → again.uuid_parse ≡ env.uuid_parse
    → IsHealthy again
    → v.tables.inbox ≡ (handle config codec message env w).1.tables.inbox
    → ((handle config codec message again v).0 ≡ ok tt)
      × ((handle config codec message again v).1.tables ≡ v.tables)
handled_once env again config codec message w v done same healthy inbox =
    let ((id, cmd), read, valid, (row, found, hash)) = handle-inv env config codec message w done in
    let (answer, kept) =
      handle_redelivered again healthy config codec message id cmd
        (ap (λ f. parse_request codec f message) same ∙ read) valid v row
        (ap (select (by_message consumer_name id)) inbox ∙ found) in
    (answer ∙ ground (arith, hash, eq_refl row.payload_hash), kept)
