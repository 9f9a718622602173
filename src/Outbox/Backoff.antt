-- ===== src/Outbox/Backoff.antt =====
-- internal/app/outbox/publisher.go: `backoff` in numbers.
use junglegaming_backend_cha.Base.{
  sym, ℕ, zero, suc, ◌+◌, ◌-◌, ◌*◌, ◌^◌, ◌<◌, ◌≡◌, refl, arith, ap, ◌∙◌, if◌then◌else◌,
}
use native.Mathlib.Omega.{pow_step}
use junglegaming_backend_cha.Base.Int.{ℤ, pos, pos_part, ltb_ℤ, ◌+ℤ◌, leb_ℤ, wrap64}
use junglegaming_backend_cha.Types.{Duration}
use junglegaming_backend_cha.Outbox.{PublisherConfig, publisher_backoff, publisher_rounds}
use junglegaming_backend_cha.Wager.Backoff.{backoff_rounds}
use junglegaming_backend_cha.Wager.Backoff.Capped.{doublings, capped, backoff_rounds-capped}

rounds-agree :
    (n : ℕ) (backoff max : Duration) → publisher_rounds n backoff max ≡ backoff_rounds n backoff max
unfolding publisher_rounds backoff_rounds
rounds-agree zero backoff max = refl
rounds-agree (suc n) backoff max =
    let doubled = wrap64 (backoff +ℤ backoff) in
    ap (λ rest. if leb_ℤ max doubled then max else rest) (rounds-agree n doubled max)

rounds_of :
    (attempt : ℤ)
    → pos_part (if ltb_ℤ attempt (pos 1) then pos 1 else attempt) - 1 ≡ pos_part attempt - 1
rounds_of attempt = ground arith

shift-double : (b p : ℕ) → (b + b) * p ≡ b * (2 * p)
shift-double b p = omega arith

doublings-power : (n b : ℕ) → doublings n b ≡ b * 2 ^ n
unfolding doublings
doublings-power zero b = omega arith
doublings-power (suc n) b =
    doublings-power n (b + b) ∙ shift-double b (2 ^ n) ∙ ap (λ p. b * p) (sym (pow_step 2 n))

-- With a base and a maximum below 2 ^ 62, the publisher's wait before an attempt is
-- base * 2 ^ (attempt - 1), or the maximum where that is more; an attempt below 1 counts as 1.
pub publisher_backoff_exact :
    (c : PublisherConfig) (base max : ℕ) (attempt : ℤ)
    → c.base_backoff ≡ pos base
    → c.max_backoff ≡ pos max
    → base < 2 ^ 62
    → max < 2 ^ 62
    → publisher_backoff c attempt ≡ pos (capped (base * 2 ^ (pos_part attempt - 1)) max)
unfolding publisher_backoff
publisher_backoff_exact c base max attempt b m h k =
    let n = pos_part attempt - 1 in
    ap (λ r. publisher_rounds r c.base_backoff c.max_backoff) (rounds_of attempt)
    ∙ rounds-agree n c.base_backoff c.max_backoff
    ∙ rw (b, m) (backoff_rounds-capped n base max h k)
    ∙ ap (λ d. pos (capped d max)) (doublings-power n base)
