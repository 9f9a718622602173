-- ===== src/Wallets/Reconcile.antt =====
-- internal/app/wallets/service.go: `Reconcile`.
use junglegaming_backend_cha.AppErr.{err, Result, ok}
use junglegaming_backend_cha.Base.{
  ◌∙◌, inr, inl, Bool-cases, arith, eq_iff, ◌+◌, ◌==◌, count_where, some, false, select, ℕ, String,
  ◌≡◌, refl, ap, string_eq, nat_eq,
}
use junglegaming_backend_cha.Money.Arith.{Compatible, sub_exact}
use junglegaming_backend_cha.Store.Consistent.{net_balance}
use junglegaming_backend_cha.Money.{
  Currency, currency_pattern, is_zero, is_valid, from_minor_units, new_currency,
}
use junglegaming_backend_cha.Store.Wallets.{by_id}
use junglegaming_backend_cha.Base.Int.{pos, ◌-ℤ◌, int_eq, IsInt64, ℤ}
use mathlib.Core.Path.{subst}
use junglegaming_backend_cha.Store.{Db, ◌>>=◌, query, EntryRow, WalletRow, World, Env, lift, pure}
use junglegaming_backend_cha.Types.{Uuid}
use junglegaming_backend_cha.Store.Entries.{sum_side, totals_of, totals_by_wallet, LedgerTotals}
use junglegaming_backend_cha.Wallets.{reconcile, reconcile_totals, Reconciliation}

-- The totals of a wallet whose columns are what Go reads: int64 sums and a valid currency.
pub record IsReadable (id : Uuid) (w : World) (row : WalletRow) : Type 0 where
  pub found : select (by_id id) w.tables.wallets ≡ some row
  pub currency : new_currency row.currency ≡ ok row.currency
  pub balance : IsInt64 row.balance_minor
  pub credits : IsInt64 (sum_side "CREDIT" id w.tables.entries)
  pub debits : IsInt64 (sum_side "DEBIT" id w.tables.entries)

-- The report on a wallet whose ledger adds up to `credits` less `debits`.
abbrev pub report : Uuid → String → ℤ → ℤ → ℕ → Reconciliation
report id cur stored calculated entries = record {
  wallet_id = id;
  stored_balance = record { amount = stored; currency = cur };
  calculated_balance = record { amount = calculated; currency = cur };
  difference = record { amount = stored -ℤ calculated; currency = cur };
  consistent = stored == calculated;
  checked_entries = entries;
}

difference-zero : (s c : ℤ) → (s -ℤ c == pos 0) ≡ (s == c)
unfolding ◌-ℤ◌
difference-zero s c = ground arith

currency_not_empty : (cur : Currency) → new_currency cur ≡ ok cur → (cur == "") ≡ false
unfolding new_currency currency_pattern
currency_not_empty cur h = elim (Bool-cases (cur == "")) [
  | inl p ↦
      let q : cur ≡ "" = ground (arith, eq_iff cur "", p) in
      absurd (cc (subst (λ c. new_currency c ≡ ok c) q h))
  | inr p ↦ p
]

from_minor_units-ok :
    (units : ℤ) (cur : Currency)
    → new_currency cur ≡ ok cur
    → from_minor_units units cur ≡ ok (record { amount = units; currency = cur })
unfolding from_minor_units
from_minor_units-ok units cur h = rw (currency_not_empty cur h, h) refl

compatible :
    (cur : Currency) (a b : ℤ)
    → (cur == "") ≡ false
    → IsInt64 a
    → IsInt64 b
    → Compatible (record { amount = a; currency = cur }) (record { amount = b; currency = cur })
unfolding is_valid
compatible cur a b h wa wb = record { valid = rw h refl; same = refl; left = wa; right = wb }

-- A call that returned a value, and what follows it.
then_ok :
    {A B : Type 0} (m : Db A) (f : A → Db B) (env : Env) (w next : World) (a : A)
    → m env w ≡ (ok a, next)
    → (m >>= f) env w ≡ f a env next
unfolding ◌>>=◌
then_ok {A} {B} m f env w next a h =
    ap
      (λ (p : Result A × World). elim p.0 as (λ r. Result B × World) [
        | ok x ↦ f x env p.1
        | err e ↦ (err e, p.1)
      ])
      h

module _ (id : Uuid) (totals : LedgerTotals) (env : Env) (w : World)
    (known : new_currency totals.currency ≡ ok totals.currency)
    (stored : IsInt64 totals.stored_balance_minor) (credits : IsInt64 totals.credits_minor)
    (debits : IsInt64 totals.debits_minor) where
  abbrev calculated : ℤ
  calculated = totals.credits_minor -ℤ totals.debits_minor

  reconcile_totals-outcome :
      IsInt64 calculated
      → IsInt64 (totals.stored_balance_minor -ℤ calculated)
      → reconcile_totals id totals env w
        ≡ (ok (report id totals.currency totals.stored_balance_minor calculated totals.entries), w)
  unfolding reconcile_totals ◌>>=◌ lift pure is_zero
  reconcile_totals-outcome fits fits' =
      let cur = totals.currency in
      let proper = currency_not_empty cur known in
      rw
        (
          from_minor_units-ok totals.stored_balance_minor cur known,
          from_minor_units-ok totals.credits_minor cur known,
          from_minor_units-ok totals.debits_minor cur known,
          (sub_exact _ _
                (compatible cur totals.credits_minor totals.debits_minor proper credits debits)).0
              fits,
          (sub_exact _ _
                (compatible cur totals.stored_balance_minor calculated proper stored fits)).0
              fits',
          difference-zero totals.stored_balance_minor calculated,
        )
        refl

module _ (id : Uuid) (env : Env) (w : World) (row : WalletRow) (r : IsReadable id w row)
    (up : env.faulty w.trips ≡ false) where
  abbrev totals : LedgerTotals
  totals = record {
    currency = row.currency;
    stored_balance_minor = row.balance_minor;
    credits_minor = sum_side "CREDIT" id w.tables.entries;
    debits_minor = sum_side "DEBIT" id w.tables.entries;
    entries = count_where (λ (x : EntryRow). x.wallet_id == id) w.tables.entries;
  }

  totals_by_wallet-ok : totals_by_wallet id env w ≡ (ok totals, record w { trips = w.trips + 1 })
  unfolding totals_by_wallet query totals_of
  totals_by_wallet-ok = rw (up, r.found, r.currency) refl

  -- If the round trip does not fail, `reconcile` of a wallet with readable columns, whose credits
  -- less debits and whose divergence from them are int64, reports the stored balance, the credits
  -- less the debits, their difference, and that they are consistent exactly if they are equal.
  pub reconcile_outcome :
      IsInt64 (net_balance id w.tables.entries)
      → IsInt64 (row.balance_minor -ℤ net_balance id w.tables.entries)
      → (reconcile id env w).0
        ≡ ok (
            report id row.currency row.balance_minor
              (net_balance id w.tables.entries)
              (count_where (λ (x : EntryRow). x.wallet_id == id) w.tables.entries))
  unfolding reconcile
  reconcile_outcome fits fits' =
      let next : World = record w { trips = w.trips + 1 } in
      ap (λ (p : Result Reconciliation × World). p.0)
        (then_ok (totals_by_wallet id) (reconcile_totals id) env w next totals totals_by_wallet-ok
          ∙ reconcile_totals-outcome id totals env next r.currency r.balance r.credits r.debits fits
              fits')
