-- ===== src/Http/Decoded.antt =====
-- internal/adapters/httpapi/errors.go: `decodeJSON`, when it succeeds.
use junglegaming_backend_cha.Base.{◌≡◌, arith, inl, inr}
use junglegaming_backend_cha.Base.Int.{IsInt64}
use junglegaming_backend_cha.AppErr.{ok, Result-cases}
use junglegaming_backend_cha.Money.{Money}
use junglegaming_backend_cha.Consumer.Request.{MoneyJson, unmarshal_money}
use junglegaming_backend_cha.Consumer.Ledger.{unmarshal_money-word}
use junglegaming_backend_cha.Http.{JsonBody, unreadable, followed, single, decode_json}

-- The body was one object, and the amount is an int64.
pub decode_json-single :
    {B : Type 0} (money : B → MoneyJson) (body : JsonBody B) (r : B × Money)
    → decode_json money body ≡ ok r
    → (body ≡ single r.0) × IsInt64 r.1.amount
unfolding decode_json
decode_json-single money unreadable r h = absurd (ground (arith, h))
decode_json-single money (followed b) r h = elim (Result-cases (unmarshal_money (money b))) [
  | inr (x, p) ↦ absurd (ground (arith, h, p))
  | inl (m, p) ↦ absurd (ground (arith, h, p))
]
decode_json-single money (single b) r h = elim (Result-cases (unmarshal_money (money b))) [
  | inr (x, p) ↦ absurd (ground (arith, h, p))
  | inl (m, p) ↦ let word = unmarshal_money-word (money b) m p in ground (arith, h, p, word)
]
