-- ===== src/Wallet/Movement.antt =====
-- internal/domain/wallet/wallet.go: `Debit` and `Credit`.
use junglegaming_backend_cha.Base.Int.{
  fits_int64, wrap64, sub-eq-add_neg, int_laws, leb_ℤ, sub-IsInt64, ℤ, pos, ◌+ℤ◌, ◌-ℤ◌, ◌≤ℤ◌, ◌<ℤ◌,
  IsInt64, -ℤ_parts,
}
use junglegaming_backend_cha.Base.{
  if◌then◌else◌, Bool-cases, inl, inr, refl, ◌∙◌, ◌≡◌, true, string_eq, arith, eq_iff, ◌≢◌, nat_eq,
  sym,
}
use mathlib.Core.Path.{subst}
use junglegaming_backend_cha.AppErr.{>>=-eq-ok, ErrorKind, Error, ok, err}
use junglegaming_backend_cha.Types.{Time}
use junglegaming_backend_cha.Money.{code_overflow, Money, is_valid, is_positive, is_negative}
use junglegaming_backend_cha.Money.Arith.{IsInt64-cases, Compatible, add_exact, sub_exact}
use junglegaming_backend_cha.Wallet.{
  Wallet, BalanceChange, code_insufficient_funds, assert_movement, apply_balance, debit, credit,
}

-- A wallet whose balance is an initialised, non-negative int64 amount in its own currency.
pub record IsValid (w : Wallet) : Type 0 where
  pub valid : is_valid w.balance ≡ true
  pub own : w.balance.currency ≡ w.currency
  pub nonneg : pos 0 ≤ℤ w.balance.amount
  pub word : IsInt64 w.balance.amount

-- A movement that the guards let through: a positive int64 amount in the wallet's currency, at a
-- proper instant.
pub record IsMovement (w : Wallet) (amount : Money) (now : Time) : Type 0 where
  pub positive : pos 0 <ℤ amount.amount
  pub word : IsInt64 amount.amount
  pub same : amount.currency ≡ w.currency
  pub later : now ≢ 0

-- The report and the wallet of a movement to a balance of `units`: of the wallet only the balance,
-- the version, which is an int64, and the instant of the last change are new.
abbrev pub moved_to : Wallet → Time → ℤ → BalanceChange × Wallet
moved_to w now units =
    let after : Money = record { amount = units; currency = w.balance.currency } in
    (
      record { before_change = w.balance; after_change = after },
      record {
        id = w.id;
        player_id = w.player_id;
        currency = w.currency;
        balance = after;
        version = wrap64 (w.version +ℤ pos 1);
        created_at = w.created_at;
        updated_at = now;
      },
    )

module _ (w : Wallet) (amount : Money) (now : Time) (v : IsValid w)
    (m : IsMovement w amount now) where
  compatible : Compatible w.balance amount
  compatible = record { valid = v.valid; same = m.same ∙ sym v.own; left = v.word; right = m.word }

  movement-ok : assert_movement w amount now ≡ ok tt
  unfolding assert_movement is_valid is_positive
  movement-ok = ground (
    arith,
    eq_iff amount.currency "",
    eq_iff w.balance.currency "",
    eq_iff amount.currency w.currency,
    v.valid,
    v.own,
    m.same,
  )

  -- A debit that the balance covers takes exactly the amount, and bumps the version.
  pub debit_covered :
      amount.amount ≤ℤ w.balance.amount
      → debit w amount now ≡ ok (moved_to w now (w.balance.amount -ℤ amount.amount))
  unfolding debit is_negative apply_balance
  debit_covered cover = ground (
    arith,
    movement-ok,
    (sub_exact w.balance amount compatible).0
        (sub-IsInt64 _ _ v.word m.word v.nonneg (omega arith)),
    -ℤ_parts w.balance.amount amount.amount,
  )

  pub debit_uncovered :
      ¬ (amount.amount ≤ℤ w.balance.amount)
      → debit w amount now ≡ err (Error.new ErrorKind.rejected code_insufficient_funds)
  unfolding debit is_negative apply_balance
  debit_uncovered short = ground (
    arith,
    movement-ok,
    (sub_exact w.balance amount compatible).0
        (sub-IsInt64 _ _ v.word m.word v.nonneg (omega arith)),
    -ℤ_parts w.balance.amount amount.amount,
  )

  pub credit_fits :
      IsInt64 (w.balance.amount +ℤ amount.amount)
      → credit w amount now ≡ ok (moved_to w now (w.balance.amount +ℤ amount.amount))
  unfolding credit apply_balance
  credit_fits fits = ground (arith, movement-ok, (add_exact w.balance amount compatible).0 fits)

  credit_overflows :
      ¬ IsInt64 (w.balance.amount +ℤ amount.amount)
      → credit w amount now ≡ err (Error.new ErrorKind.invalid code_overflow)
  unfolding credit apply_balance
  credit_overflows out = ground (arith, movement-ok, (add_exact w.balance amount compatible).1 out)

  -- A debit of a valid wallet by a proper movement takes exactly the amount off the balance, adds
  -- one to the version, sets the instant and reports the balances before and after, if the balance
  -- covers the amount; if it does not, it is rejected with INSUFFICIENT_FUNDS.
  pub debit_outcome : debit w amount now ≡ (
      if leb_ℤ amount.amount w.balance.amount
      then ok (moved_to w now (w.balance.amount -ℤ amount.amount))
      else err (Error.new ErrorKind.rejected code_insufficient_funds))
  debit_outcome = elim (Bool-cases (leb_ℤ amount.amount w.balance.amount)) [
    | inl e ↦ rw e (debit_covered (ground arith))
    | inr e ↦ rw e (debit_uncovered (ground arith))
  ]

  -- A credit of a valid wallet by a proper movement adds exactly the amount to the balance, adds
  -- one to the version, sets the instant and reports the balances before and after, if the sum is
  -- an int64; if it is not, it is the overflow error.
  pub credit_outcome : credit w amount now ≡ (
      if fits_int64 (w.balance.amount +ℤ amount.amount)
      then ok (moved_to w now (w.balance.amount +ℤ amount.amount))
      else err (Error.new ErrorKind.invalid code_overflow))
  credit_outcome = elim (Bool-cases (fits_int64 (w.balance.amount +ℤ amount.amount))) [
    | inl e ↦ rw e (credit_fits (ground arith))
    | inr e ↦ rw e (credit_overflows (ground arith))
  ]

-- The guards of a movement that went through.
pub assert_movement-inv :
    (w : Wallet) (amount : Money) (now : Time)
    → IsInt64 amount.amount
    → assert_movement w amount now ≡ ok tt
    → IsMovement w amount now
unfolding assert_movement is_positive is_valid
assert_movement-inv w amount now word h = record {
  positive = ground arith;
  word = word;
  same = ground (arith, eq_iff amount.currency w.currency);
  later = ground arith;
}

-- How a successful movement changed the balance: from the wallet's own, by an integer.
pub record Moved (w : Wallet) (delta : ℤ) (now : Time) (r : BalanceChange × Wallet) : Type 0 where
  pub before_own : r.0.before_change ≡ w.balance
  pub after_eq :
      r.0.after_change
      ≡ record { amount = w.balance.amount +ℤ delta; currency = w.balance.currency }
  pub wallet_eq : r.1 ≡ apply_balance w r.0.after_change now
  pub nonneg : pos 0 ≤ℤ w.balance.amount +ℤ delta
  pub word : IsInt64 (w.balance.amount +ℤ delta)

debit-guard :
    (w : Wallet) (amount : Money) (now : Time) (r : BalanceChange × Wallet)
    → debit w amount now ≡ ok r
    → assert_movement w amount now ≡ ok tt
unfolding debit
debit-guard w amount now r h = (>>=-eq-ok (assert_movement w amount now) _ h).1

credit-guard :
    (w : Wallet) (amount : Money) (now : Time) (r : BalanceChange × Wallet)
    → credit w amount now ≡ ok r
    → assert_movement w amount now ≡ ok tt
unfolding credit
credit-guard w amount now r h = (>>=-eq-ok (assert_movement w amount now) _ h).1

moved_to-Moved :
    (w : Wallet) (amount : Money) (now : Time) (units delta : ℤ) (r : BalanceChange × Wallet)
    → moved_to w now units ≡ r
    → units ≡ w.balance.amount +ℤ delta
    → pos 0 ≤ℤ units
    → IsInt64 units
    → Moved w delta now r
unfolding apply_balance
moved_to-Moved w amount now units delta r e u n b = subst (Moved w delta now) e (record {
  before_own = refl;
  after_eq = rw u;
  wallet_eq = refl;
  nonneg = rw (← u) n;
  word = rw (← u) b;
})

module _ (w : Wallet) (amount : Money) (now : Time) (r : BalanceChange × Wallet) (v : IsValid w)
    (word : IsInt64 amount.amount) where
  pub debit-Moved : debit w amount now ≡ ok r → Moved w (pos 0 -ℤ amount.amount) now r
  debit-Moved h =
      let m = assert_movement-inv w amount now word (debit-guard w amount now r h) in
      elim (Bool-cases (leb_ℤ amount.amount w.balance.amount)) [
        | inl e ↦
            let cover : amount.amount ≤ℤ w.balance.amount = ground arith in
            moved_to-Moved w amount now _ _ r (cc (debit_covered w amount now v m cover))
              (sub-eq-add_neg _ _) (omega int_laws)
              (sub-IsInt64 _ _ v.word word v.nonneg (omega arith))
        | inr e ↦ absurd (cc (debit_uncovered w amount now v m (ground arith)))
      ]

  pub credit-Moved : credit w amount now ≡ ok r → Moved w amount.amount now r
  credit-Moved h =
      let m = assert_movement-inv w amount now word (credit-guard w amount now r h) in
      elim (IsInt64-cases (w.balance.amount +ℤ amount.amount)) [
        | inl fits ↦
            moved_to-Moved w amount now _ _ r (cc (credit_fits w amount now v m fits)) refl
              (omega int_laws) fits
        | inr out ↦ absurd (cc (credit_overflows w amount now v m (omega arith)))
      ]
