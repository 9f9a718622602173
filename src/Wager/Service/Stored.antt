-- ===== src/Wager/Service/Stored.antt =====
-- internal/app/wager/service.go: what `Process` answers for is stored.
use junglegaming_backend_cha.Store.Transactions.Names.{
  by_external-named, by_key-named, In-appended, scan_transaction-IsFound, name_of-transaction_row,
  IsFound, Name, names_of, name_of,
}
use junglegaming_backend_cha.Wager.Service.Rounds.{
  attempt-Post, Post-fail, Post-if, Frames-names, retry-After,
}
use junglegaming_backend_cha.Wager.Frame.Process.{Frames-apply_operation}
use junglegaming_backend_cha.Wager.Frame.{Frames-correlation_of}
use junglegaming_backend_cha.Store.Frame.{Frames-bind, Frames-draw, Frames-now_from_clock}
use junglegaming_backend_cha.Wagering.Creation.{new_external-inv}
use junglegaming_backend_cha.Store.Post.{
  Post-kept, Post-bind, Post-after, Post-statement, Post-query, Post-lift, After-ok, Post, After,
  chain_ok, chain_err,
}
use junglegaming_backend_cha.Wagering.{
  new_external, ExternalParams, external_transaction, Transaction,
}
use junglegaming_backend_cha.Store.{Tables, World, Env, Db, TransactionRow, lift, ◌>>◌, ◌>>=◌}
use junglegaming_backend_cha.Wager.Service.{
  compute_payload_hash, process_new, process_once, process, by_key_then, same_request,
  by_external_then, retry, replay, attempt,
}
use junglegaming_backend_cha.Types.{Uuid, Time}
use junglegaming_backend_cha.Wager.{Config, ProcessCommand, Outcome, validate_command}
use junglegaming_backend_cha.Store.TransactionRepo.{insert_transaction, insert_transaction_row}
use junglegaming_backend_cha.Base.{
  ◌++◌, string_eq, nat_eq, ap, sym, true, List, ◌≡◌, String, [], ◌∷◌, inl, inr, arith, eq_iff,
  Bool-cases, In, refl, ◌∙◌,
}
use junglegaming_backend_cha.Store.TransactionQueries.{
  get_by_provider_external, get_by_provider_idempotency_key,
}
use junglegaming_backend_cha.AppErr.{ok, Result, err, Result-cases}
use junglegaming_backend_cha.Store.Transactions.{transaction_row}
use mathlib.Core.List.{map}
use mathlib.Core.Path.{subst}

module _ (provider external hash : String) where
  -- The request is stored.
  abbrev IsStored : List Name → Type 0
  IsStored names = In (provider, (external, hash)) names

  replay-IsStored :
      (t : Transaction) (names : List Name) (out : Outcome)
      → t.external_transaction_id ≡ external
      → IsFound provider t names
      → replay t hash ≡ ok out
      → IsStored names
  unfolding replay
  replay-IsStored t names out same found h =
      let hashes : t.payload_hash ≡ hash = ground (arith, h, eq_iff t.payload_hash hash) in
      subst (λ n. In n names) (rw (same, hashes) refl) found

  by_external_then-Post :
      {x : List Name} (r : Result Transaction) {next : Db Outcome}
      → ((t : Transaction)
          → r ≡ ok t
          → (t.external_transaction_id ≡ external) × IsFound provider t x)
      → Post names_of x next (λ out y. IsStored y)
      → Post names_of x (by_external_then hash r next) (λ out y. IsStored y)
  unfolding by_external_then
  by_external_then-Post (ok t) found h =
      let (same, stored) = found t refl in
      Post-lift names_of (replay t hash) (λ out p. replay-IsStored t _ out same stored p)
  by_external_then-Post (err e) found h = Post-if _ h (Post-fail e)

module _ (cmd : ProcessCommand) (hash : String) where
  abbrev IsKept : List Name → Type 0
  IsKept names = IsStored cmd.provider_id cmd.external_transaction_id hash names

  same_request-inv :
      (t : Transaction)
      → same_request cmd hash t ≡ true
      → t.external_transaction_id ≡ cmd.external_transaction_id
  unfolding same_request
  same_request-inv t h =
      ground (arith, h, eq_iff t.external_transaction_id cmd.external_transaction_id)

  by_key_then-Post :
      {x : List Name} (r : Result Transaction) {next : Db Outcome}
      → ((t : Transaction) → r ≡ ok t → IsFound cmd.provider_id t x)
      → Post names_of x next (λ out y. IsKept y)
      → Post names_of x (by_key_then cmd hash r next) (λ out y. IsKept y)
  unfolding by_key_then
  by_key_then-Post (ok t) found h = elim (Bool-cases (same_request cmd hash t)) [
    | inl e ↦ rw e (
        Post-lift names_of (replay t hash) (λ out p.
          replay-IsStored cmd.provider_id cmd.external_transaction_id hash t _ out
            (same_request-inv t e) (found t refl) p))
    | inr e ↦ rw e (Post-fail _)
  ]
  by_key_then-Post (err e) found h = Post-if _ h (Post-fail e)

external-Post :
    (provider external : String) (x : List Name)
    → Post names_of x (attempt (get_by_provider_external provider external)) (λ r y.
      (t : Transaction) → r ≡ ok t → (t.external_transaction_id ≡ external) × IsFound provider t y)
unfolding get_by_provider_external
external-Post provider external x =
    attempt-Post (λ t y. (t.external_transaction_id ≡ external) × IsFound provider t y)
      (Post-query names_of _ _ (λ tables t e h.
        let (r, passes, same, found) = scan_transaction-IsFound _ tables.transactions t h in
        let (provider_same, external_same) = by_external-named provider external r passes in
        (same ∙ external_same, subst (λ s. IsFound s t (names_of tables)) provider_same found)))

key-Post :
    (provider key : String) (x : List Name)
    → Post names_of x
        (attempt (get_by_provider_idempotency_key provider key))
        (λ r y. (t : Transaction) → r ≡ ok t → IsFound provider t y)
unfolding get_by_provider_idempotency_key
key-Post provider key x =
    attempt-Post (λ t y. IsFound provider t y)
      (Post-query names_of _ _ (λ tables t e h.
        let (r, passes, same, found) = scan_transaction-IsFound _ tables.transactions t h in
        subst (λ s. IsFound s t (names_of tables)) (by_key-named provider key r passes) found))

insert_transaction_row-ok :
    (r : TransactionRow) (t : Tables)
    → (insert_transaction_row r t).0 ≡ ok tt
    → (insert_transaction_row r t).1.transactions ≡ t.transactions ++ r ∷ []
unfolding insert_transaction_row
insert_transaction_row-ok r t h = ground (arith, h)

-- A transaction that is inserted is stored.
insert_transaction-Post :
    (t : Transaction) (x : List Name)
    → Post names_of x (insert_transaction t) (λ a y. IsFound t.provider_id t y)
unfolding insert_transaction
insert_transaction-Post t x = Post-statement names_of _ _ (λ tables a e h.
    subst (λ n. In n (names_of (insert_transaction_row (transaction_row t) tables).1))
      (name_of-transaction_row t)
      (subst (λ rows. In (name_of (transaction_row t)) (map name_of rows))
        (sym (insert_transaction_row-ok (transaction_row t) tables h))
        (In-appended tables.transactions (transaction_row t))))

abbrev request_name : ProcessCommand → String → Name
request_name cmd hash = (cmd.provider_id, (cmd.external_transaction_id, hash))

abbrev own_name : Transaction → Name
own_name t = (t.provider_id, (t.external_transaction_id, t.payload_hash))

abbrev given_name : ExternalParams → Name
given_name p = (p.provider_id, (p.external_transaction_id, p.payload_hash))

new_external-named :
    (id : Uuid) (p : ExternalParams) (now : Time) (t : Transaction)
    → new_external id p now ≡ ok t
    → own_name t ≡ given_name p
unfolding external_transaction
new_external-named id p now t h = ap own_name (new_external-inv id p now t h).1

module _ (config : Config) (cmd : ProcessCommand) (hash : String) where
  process_new-Post :
      (now : Time) (x : List Name)
      → Post names_of x (process_new config cmd hash now) (λ out y. IsKept cmd hash y)
  unfolding process_new ◌>>◌ ◌>>=◌
  process_new-Post now x = Post-after names_of (Frames-draw _) (λ id.
      Post-bind names_of
        (Post-lift names_of {Q = λ t y. own_name t ≡ request_name cmd hash} _
          (λ t p. new_external-named id _ now t p))
        (λ t y named. Post-bind names_of (insert_transaction-Post t y) (λ a z found.
          Post-kept names_of (IsKept cmd hash)
            (Frames-names (
              Frames-bind _ (Frames-correlation_of cmd.correlation_id t.id)
                (λ c. Frames-apply_operation config t now c)))
            (subst (λ n. In n z) named found))))

  process_once-Post :
      (x : List Name) → Post names_of x (process_once config cmd hash) (λ out y. IsKept cmd hash y)
  unfolding process_once
  process_once-Post x = Post-after names_of (Frames-now_from_clock _) (λ now.
      Post-bind names_of (external-Post cmd.provider_id cmd.external_transaction_id x)
        (λ existing y found.
          by_external_then-Post cmd.provider_id cmd.external_transaction_id hash existing found (
            Post-bind names_of (key-Post cmd.provider_id cmd.idempotency_key y)
              (λ keyed z known. by_key_then-Post cmd hash keyed known (process_new-Post now z)))))

-- Whatever fails on the way, an operation for which `Process` returns an outcome is stored: some
-- transaction in the tables has the provider, the external id and the payload hash of the command.
pub process_stored :
    (env : Env) (config : Config) (cmd : ProcessCommand) (w : World) (out : Outcome)
    → (process config cmd env w).0 ≡ ok out
    → In
        (cmd.provider_id, (cmd.external_transaction_id, compute_payload_hash cmd env))
        (names_of (process config cmd env w).1.tables)
unfolding process ◌>>◌ lift
process_stored env config cmd w out h =
    let hash = compute_payload_hash cmd env in
    let rounds : Db Outcome = λ e v.
      retry config.max_wallet_retries (process_once config cmd (compute_payload_hash cmd e)) e v in
    let start = lift (validate_command cmd) in
    elim (Result-cases (validate_command cmd)) [
      | inl (a, valid) ↦
          let run : process config cmd env w ≡ rounds env w =
            chain_ok start (λ u. rounds) env w a valid in
          let kept =
            retry-After (λ o y. IsKept cmd hash y) config.max_wallet_retries
              (process_once config cmd hash) (process_once-Post config cmd hash) env w in
          After-ok names_of (λ o y. IsKept cmd hash y) (process config cmd env w) out
            (subst (λ q. After names_of (λ o y. IsKept cmd hash y) q) (sym run) kept) h
      | inr (e, refused) ↦
          let run : process config cmd env w ≡ (err e, w) =
            chain_err start (λ u. rounds) env w e refused in
          let no : err e ≡ ok out = sym (ap (λ q. q.0) run) ∙ h in cc no
    ]
