-- ===== src/Store/Transactions/RoundTrip.antt =====
-- internal/adapters/postgres/transaction_repo.go: a transaction is read back from its row.
use junglegaming_backend_cha.Base.{
  ◌≡◌, refl, sym, String, Bool, true, false, Option, inl, inr, ◌==◌, string_eq, nat_eq, Bool-cases,
}
use mathlib.Core.Option.{map}
use junglegaming_backend_cha.Types.{in_microseconds}
use junglegaming_backend_cha.Money.{Money, currency_pattern, codes}
use junglegaming_backend_cha.Wagering.{Transaction}
use junglegaming_backend_cha.Wagering.Kinds.{Kind}
use junglegaming_backend_cha.Wagering.Statuses.{Origin}
use junglegaming_backend_cha.Store.Transactions.{nullable_string, deref_string}
use junglegaming_backend_cha.Wagering.Kinds

pub deref_string-nullable_string : (s : String) → deref_string (nullable_string s) ≡ s
unfolding deref_string nullable_string
deref_string-nullable_string s = elim (Bool-cases (s == "")) [
  | inl e ↦ rw e (sym ((string_eq.beq_iff s "").0 e))
  | inr e ↦ rw e refl
]

-- One of the six kinds.
abbrev pub is_named_kind : Kind → Bool
is_named_kind (Kinds.other raw) = false
is_named_kind _ = true

-- One of the two origins.
abbrev pub is_named_origin : Origin → Bool
is_named_origin (Origin.other raw) = false
is_named_origin _ = true

-- What the columns can hold: a three-letter currency, and a kind and an origin that have a name.
pub record HasNames (t : Transaction) : Type 0 where
  pub currency : currency_pattern (codes t.amount.currency) ≡ true
  pub kind : is_named_kind t.kind ≡ true
  pub origin : is_named_origin t.origin ≡ true

-- The transaction with its instants as the columns keep them.
abbrev pub in_columns : Transaction → Transaction
in_columns t = record t {
  next_attempt_at = map in_microseconds t.next_attempt_at;
  created_at = in_microseconds t.created_at;
  updated_at = in_microseconds t.updated_at;
}
