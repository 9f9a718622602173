-- ===== src/Wager/Backoff/Capped.antt =====
-- internal/app/wager/service.go: `referenceBackoff` in numbers.
use junglegaming_backend_cha.Base.{
  ℕ, zero, suc, ◌+◌, ◌-◌, ◌≤◌, ◌<◌, ◌^◌, ◌≡◌, arith, leb, inl, inr, Bool-cases, if◌then◌else◌,
}
use junglegaming_backend_cha.Base.Int.{ℤ, pos, ◌+ℤ◌, wrap64, pos_part}
use junglegaming_backend_cha.Wager.Backoff.{reference_backoff, backoff_rounds}

-- `b` doubled `n` times.
unfoldable pub doublings : ℕ → ℕ → ℕ
doublings zero b = b
doublings (suc n) b = doublings n (b + b)

abbrev pub capped : ℕ → ℕ → ℕ
capped b max = if leb b max then b else max

doublings-above : (n b : ℕ) → b ≤ doublings n b
unfolding doublings
doublings-above zero b = omega arith
doublings-above (suc n) b = let h = doublings-above n (b + b) in omega arith

wrap-double : (b : ℕ) → b < 2 ^ 62 → wrap64 (pos b +ℤ pos b) ≡ pos (b + b)
unfolding wrap64 ◌+ℤ◌
wrap-double b h = ground arith

pub backoff_rounds-capped :
    (n b max : ℕ)
    → b < 2 ^ 62
    → max < 2 ^ 62
    → backoff_rounds n (pos b) (pos max) ≡ pos (capped (doublings n b) max)
unfolding backoff_rounds doublings
backoff_rounds-capped zero b max h k = ground arith
backoff_rounds-capped (suc n) b max h k =
    rw (wrap-double b h) (elim (Bool-cases (leb max (b + b))) [
      | inl e ↦ let above = doublings-above n (b + b) in ground (arith, e, above)
      | inr e ↦
          let rest = backoff_rounds-capped n (b + b) max (ground (arith, e)) k in
          ground (arith, e, rest)
    ])

-- With a base and a maximum below 2 ^ 62, the backoff of an attempt is the base, doubled once for
-- every attempt after the first, or the maximum where that is more.
pub reference_backoff-capped :
    (base max : ℕ) (attempt : ℤ)
    → base < 2 ^ 62
    → max < 2 ^ 62
    → reference_backoff (pos base) (pos max) attempt
      ≡ pos (capped (doublings (pos_part attempt - 1) base) max)
unfolding reference_backoff
reference_backoff-capped base max attempt h k =
    backoff_rounds-capped (pos_part attempt - 1) base max h k
