-- ===== src/Http/Wallets/Safety.antt =====
-- internal/adapters/httpapi/wallets.go: who is served, and what the requests change.
use junglegaming_backend_cha.Store.Post.{chain_ok, chain_err}
use junglegaming_backend_cha.Http.Decoded.{decode_json-single}
use junglegaming_backend_cha.Base.{
  ◌≡◌, refl, ap, ◌∙◌, true, String, Option, List, inl, inr, ◌⊎◌, ℕ, Bool-cases,
}
use junglegaming_backend_cha.Base.Int.{ℤ, pos}
use junglegaming_backend_cha.AppErr.{Error, Result, ok, err, Result-cases}
use junglegaming_backend_cha.Types.{Uuid}
use junglegaming_backend_cha.Store.{Env, World, Tables, Db, lift, ◌>>=◌}
use junglegaming_backend_cha.Store.Consistent.{Consistent}
use junglegaming_backend_cha.Store.Hoare.{accounts}
use junglegaming_backend_cha.Store.Frame.{
  Frames, Frames-query, Frames-lift, Frames-pure, Frames-bind, Frames-seq,
}
use junglegaming_backend_cha.Store.Wallets.{get_wallet}
use junglegaming_backend_cha.Store.Pages.{LedgerCursor, list_by_wallet}
use junglegaming_backend_cha.Store.Entries.{LedgerTotals, totals_by_wallet}
use junglegaming_backend_cha.Wallets.{get, ledger_page, reconcile, reconcile_totals}
use junglegaming_backend_cha.Wallets.Ledger.{open_keeps_ledger}
use junglegaming_backend_cha.Wager.Service.Ledger.{Preserves}
use junglegaming_backend_cha.Http.{JsonBody, respond, decode_json, write_error}
use junglegaming_backend_cha.Http.Lookup.{parse_uuid}
use junglegaming_backend_cha.Http.Access.{
  Principal, authenticate, require_roles, has_one_role, has_role, role_internal, forbidden_access,
}
use junglegaming_backend_cha.Http.Cursor.{Texts, decode_cursor, parse_limit}
use junglegaming_backend_cha.Http.Wallets.{
  OpenJson, WalletRequest, post_wallet, read_wallet, read_ledger, post_reconciliation,
  wallet_handler, serve_wallets, open_call, get_wallet_call, ledger_call, reconcile_call,
}

-- The whole of the tables.
abbrev whole : Tables → Tables
whole t = t

after_check :
    {A B : Type 0} (r : Result A) {f : A → Db B}
    → ((a : A) → Frames whole (f a))
    → Frames whole (lift r >>= f)
after_check r k = Frames-bind whole (Frames-lift whole r) k

Frames-parse_uuid : (code text : String) → Frames whole (parse_uuid code text)
unfolding parse_uuid
Frames-parse_uuid code text = record { frame = λ env w. refl }

Frames-get_wallet : (id : Uuid) → Frames whole (get_wallet id)
unfolding get_wallet
Frames-get_wallet id = Frames-query whole _ _

Frames-get_wallet_call : (id : String) → Frames whole (get_wallet_call id)
unfolding get_wallet_call get
Frames-get_wallet_call id =
    Frames-bind whole (Frames-parse_uuid "INVALID_IDENTIFIER" id) (λ u. Frames-get_wallet u)

Frames-ledger_page :
    (id : Uuid) (cursor : Option LedgerCursor) (limit : ℤ)
    → Frames whole (ledger_page id cursor limit)
unfolding ledger_page list_by_wallet
Frames-ledger_page id cursor limit =
    Frames-seq whole (Frames-get_wallet id) (Frames-query whole _ _)

Frames-ledger_call :
    (lib : Texts) (id : String) (limit : Option (Option ℤ)) (cursor : List ℕ)
    → Frames whole (ledger_call lib id limit cursor)
unfolding ledger_call
Frames-ledger_call lib id limit cursor =
    Frames-bind whole (Frames-parse_uuid "INVALID_IDENTIFIER" id) (λ u.
      after_check (parse_limit limit (pos 50))
        (λ l. after_check (decode_cursor lib cursor) (λ c. Frames-ledger_page u c l)))

Frames-reconcile_totals : (id : Uuid) (t : LedgerTotals) → Frames whole (reconcile_totals id t)
unfolding reconcile_totals
Frames-reconcile_totals id t = after_check _ (λ stored. after_check _ (λ credits.
    after_check _
      (λ debits. after_check _ (λ calculated. after_check _ (λ difference. Frames-pure whole _)))))

Frames-reconcile_call : (id : String) → Frames whole (reconcile_call id)
unfolding reconcile_call reconcile totals_by_wallet
Frames-reconcile_call id =
    Frames-bind whole (Frames-parse_uuid "INVALID_IDENTIFIER" id)
      (λ u. Frames-bind whole (Frames-query whole _ _) (λ t. Frames-reconcile_totals u t))

-- The route refuses without a change, or serves the internal role.
served :
    (lib : Texts) (env : Env) (caller : Result Principal) (id : String) (request : WalletRequest)
    (w : World)
    → ((e : Error) × (serve_wallets lib caller id request env w ≡ (write_error e, w)))
      ⊎ (p : Principal) × (caller ≡ ok p)
        × (has_role p.roles role_internal ≡ true)
        × (serve_wallets lib caller id request env w ≡ wallet_handler lib id request env w)
unfolding serve_wallets authenticate require_roles has_one_role
served lib env (err e) id request w = inl (e, refl)
served lib env (ok p) id request w = elim (Bool-cases (has_role p.roles role_internal)) [
  | inl y ↦ inr (p, refl, y, rw y refl)
  | inr n ↦ inl (forbidden_access, rw n refl)
]

-- The requests that read change no table.
handler-tables :
    (lib : Texts) (env : Env) (id : String) (request : WalletRequest) (w : World)
    → ((wallet_handler lib id request env w).1.tables ≡ w.tables)
      ⊎ ((body : JsonBody OpenJson) × (request ≡ post_wallet body))
unfolding wallet_handler respond
handler-tables lib env id (post_wallet body) w = inr (body, refl)
handler-tables lib env id (read_wallet wallet) w = inl ((Frames-get_wallet_call wallet).frame env w)
handler-tables lib env id (read_ledger wallet limit cursor) w =
    inl ((Frames-ledger_call lib wallet limit cursor).frame env w)
handler-tables lib env id (post_reconciliation wallet) w =
    inl ((Frames-reconcile_call wallet).frame env w)

-- A request to /wallets is answered with an error and touches nothing, or the token was accepted and
-- its principal has the internal role; only POST /wallets changes a table.
pub wallets_guarded :
    (lib : Texts) (env : Env) (caller : Result Principal) (id : String) (request : WalletRequest)
    (w : World)
    → ((e : Error) × (serve_wallets lib caller id request env w ≡ (write_error e, w)))
      ⊎ (p : Principal) × (caller ≡ ok p)
        × (has_role p.roles role_internal ≡ true)
        × (((serve_wallets lib caller id request env w).1.tables ≡ w.tables)
            ⊎ ((body : JsonBody OpenJson) × (request ≡ post_wallet body)))
wallets_guarded lib env caller id request w = elim (served lib env caller id request w) [
  | inl refused ↦ inl refused
  | inr (p, known, role, same) ↦ inr (
    p,
    known,
    role,
    elim (handler-tables lib env id request w) [
      | inl kept ↦ inl (ap (λ r. r.1.tables) same ∙ kept)
      | inr opening ↦ inr opening
    ],
  )
]

kept_tables :
    (before after : Tables)
    → after ≡ before
    → Consistent (accounts before)
    → Consistent (accounts after)
kept_tables before after e c = rw e c

-- A chain whose first call changes nothing.
after_frame :
    {A B : Type 0} (m : Db A) (f : A → Db B) (env : Env) (w : World)
    → Frames whole m
    → ((a : A) → (m env w).0 ≡ ok a → Preserves (f a) env)
    → Consistent (accounts w.tables)
    → Consistent (accounts ((m >>= f) env w).1.tables)
after_frame m f env w still k c = elim (Result-cases (m env w).0) [
  | inr (e, p) ↦ rw (chain_err m f env w e p) (kept_tables w.tables _ (still.frame env w) c)
  | inl (a, p) ↦
      rw (chain_ok m f env w a p) (k a p (m env w).1 (kept_tables w.tables _ (still.frame env w) c))
]

open_call-Preserves :
    (env : Env) (id : String) (body : JsonBody OpenJson) → Preserves (open_call id body) env
unfolding open_call lift
open_call-Preserves env id body w =
    after_frame (lift (decode_json (λ (b : OpenJson). b.money) body)) _ env w (Frames-lift whole _)
      (λ r p v.
        let word = (decode_json-single (λ (b : OpenJson). b.money) body r p).1 in
        after_frame (parse_uuid "INVALID_PLAYER_ID" r.0.player_id) _ env v
          (Frames-parse_uuid "INVALID_PLAYER_ID" r.0.player_id)
          (λ player q u. open_keeps_ledger env _ u word))

handler-Preserves :
    (lib : Texts) (env : Env) (id : String) (request : WalletRequest) (w : World)
    → Consistent (accounts w.tables)
    → Consistent (accounts (wallet_handler lib id request env w).1.tables)
unfolding wallet_handler respond
handler-Preserves lib env id (post_wallet body) w c = open_call-Preserves env id body w c
handler-Preserves lib env id (read_wallet wallet) w c =
    kept_tables w.tables _ ((Frames-get_wallet_call wallet).frame env w) c
handler-Preserves lib env id (read_ledger wallet limit cursor) w c =
    kept_tables w.tables _ ((Frames-ledger_call lib wallet limit cursor).frame env w) c
handler-Preserves lib env id (post_reconciliation wallet) w c =
    kept_tables w.tables _ ((Frames-reconcile_call wallet).frame env w) c

-- Whatever is requested of /wallets, by whom and with which failures: if the stored balances are
-- int64 and the credits less the debits of their ledgers, they are so afterwards.
pub wallets_keep_ledger :
    (lib : Texts) (env : Env) (caller : Result Principal) (id : String) (request : WalletRequest)
    (w : World)
    → Consistent (accounts w.tables)
    → Consistent (accounts (serve_wallets lib caller id request env w).1.tables)
wallets_keep_ledger lib env caller id request w c = elim (served lib env caller id request w) [
  | inl (e, same) ↦ rw same c
  | inr (p, known, role, same) ↦ rw same (handler-Preserves lib env id request w c)
]
