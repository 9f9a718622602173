-- ===== src/Base/Int.antt =====
-- Signed integers over the native numbers, and Go's int64 arithmetic on them.
use junglegaming_backend_cha.Base.{
  ◌&&◌, ◌⊎◌, ℕ, suc, ◌+◌, ◌-◌, ◌%◌, ◌^◌, ◌≤◌, ◌<◌, ◌≡◌, Bool, true, arith, ltb, leb, if◌then◌else◌,
  Eq, nat_beq, ◌↔◌,
}

-- `negsuc n` is -(n + 1).
pub data ℤ : Type 0 where
  pos : ℕ → ℤ
  negsuc : ℕ → ℤ

abbrev pub pos_part : ℤ → ℕ
pos_part (pos n) = n
pos_part (negsuc n) = 0

abbrev pub neg_part : ℤ → ℕ
neg_part (pos n) = 0
neg_part (negsuc n) = suc n

abbrev pub sub_ℕ : ℕ → ℕ → ℤ
sub_ℕ a b = if leb b a then pos (a - b) else negsuc (b - a - 1)

infixl 65 ◌+ℤ◌ ◌-ℤ◌
infix 50 ◌≤ℤ◌ ◌<ℤ◌
unfoldable pub ◌+ℤ◌ : ℤ → ℤ → ℤ
a +ℤ b = sub_ℕ (pos_part a + pos_part b) (neg_part a + neg_part b)

unfoldable pub ◌-ℤ◌ : ℤ → ℤ → ℤ
a -ℤ b = sub_ℕ (pos_part a + neg_part b) (neg_part a + pos_part b)

abbrev pub ◌≤ℤ◌ : ℤ → ℤ → Type 0
a ≤ℤ b = pos_part a + neg_part b ≤ pos_part b + neg_part a

abbrev pub ◌<ℤ◌ : ℤ → ℤ → Type 0
a <ℤ b = suc (pos_part a + neg_part b) ≤ pos_part b + neg_part a

abbrev pub ltb_ℤ : ℤ → ℤ → Bool
ltb_ℤ a b = ltb (pos_part a + neg_part b) (pos_part b + neg_part a)

abbrev pub leb_ℤ : ℤ → ℤ → Bool
leb_ℤ a b = leb (pos_part a + neg_part b) (pos_part b + neg_part a)

abbrev pub int_beq : ℤ → ℤ → Bool
int_beq a b = nat_beq (pos_part a + neg_part b) (pos_part b + neg_part a)

pub int_beq_iff : (a b : ℤ) → (int_beq a b ≡ true) ↔ (a ≡ b)
int_beq_iff a b = ground arith

instance abbrev pub int_eq : Eq ℤ
int_eq = record { beq = int_beq; beq_iff = int_beq_iff }

-- With these the operations can stay shut.
pub +ℤ_parts :
    (a b : ℤ)
    → pos_part (a +ℤ b) + neg_part a + neg_part b ≡ neg_part (a +ℤ b) + pos_part a + pos_part b
unfolding ◌+ℤ◌
+ℤ_parts a b = ground arith

pub -ℤ_parts :
    (a b : ℤ)
    → pos_part (a -ℤ b) + neg_part a + pos_part b ≡ neg_part (a -ℤ b) + pos_part a + neg_part b
unfolding ◌-ℤ◌
-ℤ_parts a b = ground arith

pub eq_of_parts : (a b : ℤ) → pos_part a + neg_part b ≡ pos_part b + neg_part a → a ≡ b
eq_of_parts a b h = ground arith

-- One of the two parts is zero.
pub parts_disjoint : (z : ℤ) → (pos_part z ≡ 0) ⊎ (neg_part z ≡ 0)
parts_disjoint z = ground arith

pub ruleset int_laws = (arith, +ℤ_parts, -ℤ_parts, eq_of_parts)

-- int64

abbrev pub min_int64 : ℤ
min_int64 = negsuc (2 ^ 63 - 1)

abbrev pub max_int64 : ℤ
max_int64 = pos (2 ^ 63 - 1)

abbrev pub IsInt64 : ℤ → Type 0
IsInt64 z = (pos_part z ≤ 2 ^ 63 - 1) × (neg_part z ≤ 2 ^ 63)

-- Whether an integer is an int64.
abbrev pub fits_int64 : ℤ → Bool
fits_int64 z = leb (pos_part z) (2 ^ 63 - 1) && leb (neg_part z) (2 ^ 63)

-- The int64 that the low 64 bits of an integer stand for.
unfoldable pub wrap64 : ℤ → ℤ
wrap64 z =
    let bits = (pos_part z % 2 ^ 64 + (2 ^ 64 - neg_part z % 2 ^ 64)) % 2 ^ 64 in
    if ltb bits (2 ^ 63) then pos bits else negsuc (2 ^ 64 - bits - 1)

pub wrap64-IsInt64 : (z : ℤ) → IsInt64 (wrap64 z)
unfolding wrap64
wrap64-IsInt64 z = ground arith

-- In range nothing wraps.
pub wrap64_exact : (z : ℤ) → IsInt64 z → wrap64 z ≡ z
unfolding wrap64
wrap64_exact z h = ground arith

-- One wrap at most after an addition or a subtraction: the result is off by 2 ^ 64 at most.
pub wrap64_above :
    (z : ℤ) → 2 ^ 63 ≤ pos_part z → pos_part z < 2 ^ 64 → wrap64 z ≡ z -ℤ pos (2 ^ 64)
unfolding wrap64 ◌-ℤ◌
wrap64_above z h k = ground arith

pub wrap64_below :
    (z : ℤ) → 2 ^ 63 < neg_part z → neg_part z ≤ 2 ^ 64 → wrap64 z ≡ z +ℤ pos (2 ^ 64)
unfolding wrap64 ◌+ℤ◌
wrap64_below z h k = ground arith

-- The difference of two non-negative int64 values is an int64.
pub sub-IsInt64 : (a b : ℤ) → IsInt64 a → IsInt64 b → pos 0 ≤ℤ a → pos 0 ≤ℤ b → IsInt64 (a -ℤ b)
unfolding ◌-ℤ◌
sub-IsInt64 a b ha hb na nb = ground arith

pub sub-eq-add_neg : (a b : ℤ) → a -ℤ b ≡ a +ℤ (pos 0 -ℤ b)
sub-eq-add_neg a b = omega int_laws
