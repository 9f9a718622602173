-- ===== src/Wager/Backoff.antt =====
-- internal/app/wager/service.go: `referenceBackoff`.
pub mod Capped
use junglegaming_backend_cha.Base.{ℕ, zero, suc, ◌-◌, if◌then◌else◌}
use junglegaming_backend_cha.Base.Int.{ℤ, ◌+ℤ◌, leb_ℤ, ltb_ℤ, wrap64, pos_part}
use junglegaming_backend_cha.Types.{Duration}

-- The rounds that are left of `for i := 1; i < attempt; i++`, and the test after the loop.
unfoldable pub backoff_rounds : ℕ → Duration → Duration → Duration
backoff_rounds zero backoff max = if ltb_ℤ max backoff then max else backoff
backoff_rounds (suc n) backoff max =
    let doubled = wrap64 (backoff +ℤ backoff) in
    let rest = backoff_rounds n doubled max in if leb_ℤ max doubled then max else rest

-- `referenceBackoff`: an attempt below 1 counts as 1.
unfoldable pub reference_backoff : Duration → Duration → ℤ → Duration
unfolding backoff_rounds
reference_backoff base max attempt = backoff_rounds (pos_part attempt - 1) base max
