-- ===== src/Types.antt =====
-- Identities and instants. A `uuid.UUID` is a number, `uuid.Nil` is 0. A `time.Time` is the number
-- of nanoseconds since the zero instant, so `IsZero` is a test for 0 and `UTC` changes nothing.
use junglegaming_backend_cha.Base.{ℕ, ◌*◌, ◌/◌, ◌+◌, ◌-◌, Bool, ltb, nat_beq}
use junglegaming_backend_cha.Base.Int.{ℤ, pos_part, neg_part}

abbrev pub Uuid : Type 0
Uuid = ℕ

abbrev pub nil_uuid : Uuid
nil_uuid = 0

abbrev pub Time : Type 0
Time = ℕ

abbrev pub is_zero_time : Time → Bool
is_zero_time t = nat_beq t 0

-- The instant that a TIMESTAMPTZ column takes: whole microseconds, the rest is cut off.
unfoldable pub in_microseconds : Time → Time
in_microseconds t = t / 1000 * 1000

-- `t.Before(u)`
abbrev pub before : Time → Time → Bool
before t u = ltb t u

-- `time.Duration`: an int64 of nanoseconds.
abbrev pub Duration : Type 0
Duration = ℤ

-- `t.Add(d)`
abbrev pub add_duration : Time → Duration → Time
add_duration t d = t + pos_part d - neg_part d
