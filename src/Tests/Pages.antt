-- ===== src/Tests/Pages.antt =====
-- The pages of a ledger of two entries, one entry on each.
use junglegaming_backend_cha.Base.{
  ◌≡◌, refl, arith, ◌∷◌, [], none, inl, inr, select, sorted_where, nat_eq, string_eq, IsComparable,
}
use junglegaming_backend_cha.Base.Int.{pos, ◌+ℤ◌, ◌-ℤ◌, wrap64}
use junglegaming_backend_cha.AppErr.{ok}
use junglegaming_backend_cha.Money.{
  new_currency, currency_pattern, from_minor_units, is_valid, is_positive, is_negative, add, sub,
  assert_compatible, equal,
}
use junglegaming_backend_cha.Wallet.{rehydrate}
use junglegaming_backend_cha.Ledger.{parse_direction, new_entry, validate, expected_after}
use junglegaming_backend_cha.Store.Wallets.{scan_wallet, by_id}
use junglegaming_backend_cha.Store.Pages.{newer, of_wallet, scan_entries}
use junglegaming_backend_cha.Wallets.Pages.{walk}
use junglegaming_backend_cha.Wallets.Pages.Complete.{pages_complete}
use junglegaming_backend_cha.Tests.Samples.{moved, wallet, healthy_env, opening_entry, later_entry}

moved_wallet : scan_wallet (select (by_id 1) moved.tables.wallets) ≡ ok wallet
unfolding select scan_wallet new_currency currency_pattern rehydrate from_minor_units
moved_wallet = refl

moved-IsComparable : IsComparable newer moved.tables.entries
moved-IsComparable = (
  (λ y m. elim m [ inl e ↦ inr (ground (arith, e)) | inr k ↦ absurd k ]),
  ((λ y m. absurd m), tt),
)

moved_listing :
    scan_entries (sorted_where newer (of_wallet 1) moved.tables.entries)
    ≡ ok (later_entry ∷ opening_entry ∷ [])
unfolding scan_entries sorted_where new_currency from_minor_units parse_direction new_entry validate
    is_valid is_positive is_negative expected_after sub assert_compatible wrap64 ◌-ℤ◌ equal add ◌+ℤ◌
moved_listing = refl

pages_complete_example :
    ((walk 3 1 (pos 1) none healthy_env moved).0 ≡ ok (later_entry ∷ opening_entry ∷ []))
    × ((walk 3 1 (pos 1) none healthy_env moved).1.tables ≡ moved.tables)
pages_complete_example =
    pages_complete healthy_env moved 1 (pos 1) 3 wallet (later_entry ∷ opening_entry ∷ [])
      (λ n. refl) moved_wallet moved-IsComparable moved_listing (omega arith)
