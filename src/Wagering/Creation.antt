-- ===== src/Wagering/Creation.antt =====
-- internal/domain/wagering/transaction.go: the constructor `NewExternal`.
use junglegaming_backend_cha.AppErr.{>>=-eq-ok, ErrorKind, Error, guard-inv, ok}
use junglegaming_backend_cha.Wagering.Kinds.{
  code_invalid_kind, Kind, is_external, requires_reference, is_reversal,
  requires_optional_reference, is_loss, is_opening,
}
use junglegaming_backend_cha.Base.{
  Bool, refl, eq_iff, nat_eq, ◌!=◌, not, ◌&&◌, ◌||◌, ◌==◌, ◌≡◌, ◌≢◌, true, false, string_eq, arith,
}
use junglegaming_backend_cha.Wagering.Statuses.{
  is_unsuccessful, is_external_origin, is_processed, pending,
}
use junglegaming_backend_cha.Wagering.Transitions.{validate}
use junglegaming_backend_cha.Wagering.Lifecycle.{IsPersistable}
use junglegaming_backend_cha.Types.{is_zero_time, nil_uuid, Uuid, Time}
use junglegaming_backend_cha.Wagering.{
  invalid, external_transaction, Transaction, ExternalParams, new_external,
  validate_amount_for_kind,
}
use junglegaming_backend_cha.Base.Int.{pos, ◌<ℤ◌}
use junglegaming_backend_cha.Money.{Money, is_valid, is_zero, is_positive, is_negative}

-- The amount that a kind requires: zero for a LOSS, a positive one for all others.
pub record FitsKind (kind : Kind) (amount : Money) : Type 0 where
  pub valid : is_valid amount ≡ true
  pub of_loss : is_loss kind ≡ true → amount.amount ≡ pos 0
  pub of_others : is_loss kind ≡ false → pos 0 <ℤ amount.amount

pub record IsOperation (t : Transaction) : Type 0 where
  pub fresh : t.status ≡ pending
  pub amount : FitsKind t.kind t.amount
  pub no_opening : is_opening t.kind ≡ false
  pub referenced : is_reversal t.kind ≡ true → t.reference_external_transaction_id ≢ ""
  pub unreferenced :
      is_reversal t.kind ≡ false
      → requires_optional_reference t.kind ≡ false
      → t.reference_external_transaction_id ≡ ""

amount_valid :
    (kind : Kind) (amount : Money)
    → validate_amount_for_kind kind amount ≡ ok tt
    → FitsKind kind amount
unfolding validate_amount_for_kind is_zero is_positive is_negative
amount_valid kind amount h = ground arith

-- The guards of `NewExternal`.
pub record Checked (p : ExternalParams) (now : Time) : Type 0 where
  pub provider : (p.provider_id == "") ≡ false
  pub external : (p.external_transaction_id == "") ≡ false
  pub key : (p.idempotency_key == "") ≡ false
  pub hash : (p.payload_hash == "") ≡ false
  pub ids : (p.wallet_id == nil_uuid || p.player_id == nil_uuid) ≡ false
  pub round : (p.round_id == "") ≡ false
  pub game : (p.game_id == "") ≡ false
  pub from_outside : is_external p.kind ≡ true
  pub amount : validate_amount_for_kind p.kind p.amount ≡ ok tt
  pub referenced : (requires_reference p.kind && p.reference_external_transaction_id == "") ≡ false
  pub unreferenced :
      (not (is_reversal p.kind)
        && not (requires_optional_reference p.kind)
        && p.reference_external_transaction_id != "")
      ≡ false
  pub later : is_zero_time now ≡ false

negated : (b : Bool) → not b ≡ false → b ≡ true
negated true h = refl
negated false h = cc

pub new_external-inv :
    (id : Uuid) (p : ExternalParams) (now : Time) (t : Transaction)
    → new_external id p now ≡ ok t
    → Checked p now × (t ≡ external_transaction id p now)
unfolding new_external
new_external-inv id p now t h0 =
    let (c1, h1) = guard-inv (p.provider_id == "") invalid _ h0 in
    let (c2, h2) = guard-inv (p.external_transaction_id == "") invalid _ h1 in
    let (c3, h3) = guard-inv (p.idempotency_key == "") invalid _ h2 in
    let (c4, h4) = guard-inv (p.payload_hash == "") invalid _ h3 in
    let (c5, h5) = guard-inv (p.wallet_id == nil_uuid || p.player_id == nil_uuid) invalid _ h4 in
    let (c6, h6) = guard-inv (p.round_id == "") invalid _ h5 in
    let (c7, h7) = guard-inv (p.game_id == "") invalid _ h6 in
    let (c8, h8) =
      guard-inv (not (is_external p.kind)) (Error.new ErrorKind.invalid code_invalid_kind) _ h7 in
    let (u, c9, h9) = >>=-eq-ok (validate_amount_for_kind p.kind p.amount) _ h8 in
    let (c10, h10) =
      guard-inv (requires_reference p.kind && p.reference_external_transaction_id == "") invalid _
        h9 in
    let (c11, h11) =
      guard-inv
        (not (is_reversal p.kind)
          && not (requires_optional_reference p.kind)
          && p.reference_external_transaction_id != "")
        invalid _ h10 in
    let (c12, h12) = guard-inv (is_zero_time now) invalid _ h11 in
    (
      record {
        provider = c1;
        external = c2;
        key = c3;
        hash = c4;
        ids = c5;
        round = c6;
        game = c7;
        from_outside = negated (is_external p.kind) c8;
        amount = c9;
        referenced = c10;
        unreferenced = c11;
        later = c12;
      },
      cc h12,
    )

module _ (id : Uuid) (p : ExternalParams) (now : Time) (c : Checked p now) where
  external_transaction-IsPersistable : id ≢ 0 → IsPersistable (external_transaction id p now)
  unfolding external_transaction is_processed is_unsuccessful
  external_transaction-IsPersistable h =
      let f = amount_valid p.kind p.amount c.amount in
      let ids = c.ids in
      let later = c.later in
      record {
        id = h;
        wallet = ground (arith, ids);
        player = ground (arith, ids);
        amount = f.valid;
        attempts = omega arith;
        balance = λ x y. cc x;
        code = λ x. cc x;
        created = ground (arith, later);
        updated = ground (arith, later);
      }

  external_transaction-validate : id ≢ 0 → validate (external_transaction id p now) ≡ ok tt
  unfolding external_transaction validate is_external_origin is_external
  external_transaction-validate h =
      ground
        (arith, c.provider, c.external, c.key, c.hash, c.round, c.game, c.from_outside, c.amount)

  external_transaction-IsOperation : IsOperation (external_transaction id p now)
  unfolding external_transaction is_external requires_reference is_reversal
  external_transaction-IsOperation = record {
    fresh = refl;
    amount = amount_valid p.kind p.amount c.amount;
    no_opening = ground (arith, c.from_outside);
    referenced = ground (arith, c.referenced, eq_iff p.reference_external_transaction_id "");
    unreferenced = ground (arith, c.unreferenced, eq_iff p.reference_external_transaction_id "");
  }

-- A transaction that `NewExternal` returns under an id that is not nil is PENDING, is no OPENING,
-- has the amount of its kind (zero for a LOSS, positive for all others), has a reference if it is
-- a REFUND or a ROLLBACK and none if it is a BET or a LOSS, passes `Validate`, and passes the checks
-- that `Rehydrate` makes of what it reads.
pub new_external_sound :
    (id : Uuid) (p : ExternalParams) (now : Time) (t : Transaction)
    → id ≢ 0
    → new_external id p now ≡ ok t
    → IsOperation t × IsPersistable t × (validate t ≡ ok tt)
new_external_sound id p now t h made =
    let (c, e) = new_external-inv id p now t made in
    rw e (
      external_transaction-IsOperation id p now c,
      external_transaction-IsPersistable id p now c h,
      external_transaction-validate id p now c h,
    )
