-- ===== src/Http/Submit/Safety.antt =====
-- internal/adapters/httpapi/wagering.go: who may submit, and the balances and the ledger.
use mathlib.Core.Bool.{false≢true}
use junglegaming_backend_cha.Http.Decoded.{decode_json-single}
use junglegaming_backend_cha.Base.{
  ◌≡◌, refl, arith, ap, ◌∙◌, sym, true, Bool, String, Option, some, inl, inr, ◌⊎◌, ◌==◌, ◌!=◌, ◌&&◌,
  ◌≢◌, nat_eq, string_eq, Bool-cases,
}
use junglegaming_backend_cha.Base.Int.{IsInt64}
use junglegaming_backend_cha.AppErr.{Error, Result, ok, err, Result-cases, guard-inv, >>=-eq-ok}
use junglegaming_backend_cha.Types.{Uuid}
use junglegaming_backend_cha.Store.{Env, World}
use junglegaming_backend_cha.Store.Consistent.{Consistent}
use junglegaming_backend_cha.Store.Hoare.{accounts}
use junglegaming_backend_cha.Consumer.Request.{parsed_uuid}
use junglegaming_backend_cha.Wagering.Kinds.{parse_kind}
use junglegaming_backend_cha.Wager.{Config, ProcessCommand}
use junglegaming_backend_cha.Wager.Service.{process}
use junglegaming_backend_cha.Wager.Service.Ledger.{process_keeps_ledger}
use junglegaming_backend_cha.Http.{single, decode_json, respond, write_error}
use junglegaming_backend_cha.Http.Access.{
  Principal, authenticate, require_roles, has_one_role, has_role, authorize_provider, role_internal,
  wager_roles, forbidden_access,
}
use junglegaming_backend_cha.Http.Submit.{
  SubmitJson, SubmitRequest, submit_command, submit_call, submit, submit_answer, post_transaction,
}

-- What is known of a request that makes a command.
pub record Admitted (principal : Option Principal) (request : SubmitRequest) (cmd : ProcessCommand)
    : Type 0 where
  pub fields : SubmitJson
  pub body : request.body ≡ single fields
  pub authorized : authorize_provider principal fields.provider_id ≡ ok tt
  pub provider : cmd.provider_id ≡ fields.provider_id
  pub word : IsInt64 cmd.amount.amount

submit_command-Admitted :
    (uuid_parse : String → Option Uuid) (principal : Option Principal) (request : SubmitRequest)
    (cmd : ProcessCommand)
    → submit_command uuid_parse principal request ≡ ok cmd
    → Admitted principal request cmd
unfolding submit_command
submit_command-Admitted uuid_parse principal request cmd h =
    let (key, h1) = guard-inv (request.idempotency_key == "") _ _ h in
    let (r, p, h2) = >>=-eq-ok (decode_json (λ (b : SubmitJson). b.money) request.body) _ h1 in
    let b = r.0 in
    let (u, q, h3) = >>=-eq-ok (authorize_provider principal b.provider_id) _ h2 in
    let (player, s, h4) =
      >>=-eq-ok (parsed_uuid "INVALID_PLAYER_ID" (uuid_parse b.player_id)) _ h3 in
    let (wallet, t, h5) =
      >>=-eq-ok (parsed_uuid "INVALID_WALLET_ID" (uuid_parse b.wallet_id)) _ h4 in
    let (kind, v, h6) = >>=-eq-ok (parse_kind b.kind) _ h5 in
    let (body, word) = decode_json-single (λ (b : SubmitJson). b.money) request.body r p in
    record {
      fields = b;
      body = body;
      authorized = q;
      provider = ground (arith, h6);
      word = ground (arith, h6, word);
    }

both : (a b : Bool) → (a && b) ≡ true → (a ≡ true) × (b ≡ true)
both a b h = ground (arith, h)

named_provider : (x y : String) → (x != "" && x == y) ≡ true → (x ≢ "") × (x ≡ y)
named_provider x y h =
    let (filled, same) = both (x != "") (x == y) h in
    (
      (λ e. absurd (false≢true (sym (ap (λ z. z != "") e) ∙ filled))),
      (string_eq.beq_iff x y).0 same,
    )

authorize_provider_lem :
    (p : Principal) (provider : String)
    → authorize_provider (some p) provider ≡ ok tt
    → (has_role p.roles role_internal ≡ true) ⊎ ((p.provider_id ≢ "") × (p.provider_id ≡ provider))
unfolding authorize_provider
authorize_provider_lem p provider h = elim (Bool-cases (has_role p.roles role_internal)) [
  | inl r ↦ inl r
  | inr r ↦ elim (Bool-cases (p.provider_id != "" && p.provider_id == provider)) [
    | inl q ↦ inr (named_provider p.provider_id provider q)
    | inr q ↦ absurd (grind (arith, h, r, q))
  ]
]

-- The request went through to `Process`.
record Ran (env : Env) (config : Config) (caller : Result Principal) (request : SubmitRequest)
    (w : World) : Type 0 where
  principal : Principal
  known : caller ≡ ok principal
  command : ProcessCommand
  admitted : Admitted (some principal) request command
  answered :
      post_transaction config caller request env w
      ≡ respond (process config command) (λ env' o. submit_answer env' o o.status) env w

-- A request is refused with an error and touches nothing, or it goes through.
submitted :
    (env : Env) (config : Config) (caller : Result Principal) (request : SubmitRequest) (w : World)
    → ((e : Error) × (post_transaction config caller request env w ≡ (write_error e, w)))
      ⊎ Ran env config caller request w
unfolding post_transaction authenticate require_roles submit submit_call respond
submitted env config (err e) request w = inl (e, refl)
submitted env config (ok p) request w = elim (Bool-cases (has_one_role p wager_roles)) [
  | inr n ↦ inl (forbidden_access, rw n refl)
  | inl y ↦ elim (Result-cases (submit_command env.uuid_parse (some p) request)) [
    | inr (e, q) ↦ inl (e, rw (y, q) refl)
    | inl (cmd, q) ↦ inr (record {
      principal = p;
      known = refl;
      command = cmd;
      admitted = submit_command-Admitted env.uuid_parse (some p) request cmd q;
      answered = rw (y, q) refl;
    })
  ]
]

-- Whatever is submitted, by whom and with which failures: if the stored balances are int64 and the
-- credits less the debits of their ledgers, they are so afterwards.
pub submit_keeps_ledger :
    (env : Env) (config : Config) (caller : Result Principal) (request : SubmitRequest) (w : World)
    → Consistent (accounts w.tables)
    → Consistent (accounts (post_transaction config caller request env w).1.tables)
unfolding respond
submit_keeps_ledger env config caller request w c = elim (submitted env config caller request w) [
  | inl (e, same) ↦ rw same c
  | inr ran ↦ rw ran.answered (process_keeps_ledger env config ran.command w ran.admitted.word c)
]

-- A request changes a table only if its token was accepted, its body is one object, and the caller
-- has the role of the internal service or the provider id of the body, which is not empty then.
pub submit_authorized :
    (env : Env) (config : Config) (caller : Result Principal) (request : SubmitRequest) (w : World)
    → ((post_transaction config caller request env w).1.tables ≡ w.tables)
      ⊎ (p : Principal) × (fields : SubmitJson) × (caller ≡ ok p)
        × (request.body ≡ single fields)
        × ((has_role p.roles role_internal ≡ true)
            ⊎ ((p.provider_id ≢ "") × (p.provider_id ≡ fields.provider_id)))
submit_authorized env config caller request w = elim (submitted env config caller request w) [
  | inl (e, same) ↦ inl (rw same refl)
  | inr ran ↦
      let a = ran.admitted in
      inr (
        ran.principal,
        a.fields,
        ran.known,
        a.body,
        authorize_provider_lem ran.principal a.fields.provider_id a.authorized,
      )
]
