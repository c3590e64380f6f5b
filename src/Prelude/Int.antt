-- ===== src/Prelude/Int.antt =====
-- Signed integers over the native numbers, and the i64 of the sources among them.
use Prim.Native.Nat.{ℕ, suc, ◌+◌, ◌-◌, ◌*◌, ◌^◌}
use mathlib.Core.Bool.{Bool, ◌&&◌}
use mathlib.Core.Option.{Option, none, some}
use pyrsedis.Prelude.Tests.{ltb, leb, if◌then◌else◌}

-- `negsuc n` is -(n + 1).
pub data ℤ : Type 0 where
  pos : ℕ → ℤ
  negsuc : ℕ → ℤ

abbrev pub pos_part : ℤ → ℕ
pos_part (pos n) = n
pos_part (negsuc n) = 0

abbrev pub neg_part : ℤ → ℕ
neg_part (pos n) = 0
neg_part (negsuc n) = suc n

-- a - b, as an integer.
abbrev pub sub_ℕ : ℕ → ℕ → ℤ
sub_ℕ a b = if leb b a then pos (a - b) else negsuc (b - a - 1)

infixl 65 ◌-ℤ◌
infixl 70 ◌*ℤ◌
unfoldable pub ◌-ℤ◌ : ℤ → ℤ → ℤ
a -ℤ b = sub_ℕ (pos_part a + neg_part b) (neg_part a + pos_part b)

unfoldable pub ◌*ℤ◌ : ℤ → ℤ → ℤ
a *ℤ b =
    sub_ℕ (pos_part a * pos_part b + neg_part a * neg_part b)
      (pos_part a * neg_part b + neg_part a * pos_part b)

abbrev pub is_negative : ℤ → Bool
is_negative a = ltb 0 (neg_part a)

-- i64::MAX is 2^63 - 1 and i64::MIN is -2^63.
abbrev pub i64_limit : ℕ
i64_limit = 2 ^ 63

abbrev pub in_i64 : ℤ → Bool
in_i64 a = ltb (pos_part a) i64_limit && leb (neg_part a) i64_limit

-- i64::checked_mul and i64::checked_sub.
unfoldable pub checked_mul : ℤ → ℤ → Option ℤ
unfolding ◌*ℤ◌
checked_mul a b = if in_i64 (a *ℤ b) then some (a *ℤ b) else none

unfoldable pub checked_sub : ℤ → ℤ → Option ℤ
unfolding ◌-ℤ◌
checked_sub a b = if in_i64 (a -ℤ b) then some (a -ℤ b) else none

-- The i64 that 64 bits of two's complement make of an integer in (-2^64, 2^63 + 2^63).
abbrev pub wrap_i64 : ℤ → ℤ
wrap_i64 (pos n) = if ltb n i64_limit then pos n else negsuc (2 ^ 64 - n - 1)
wrap_i64 (negsuc n) = if ltb n i64_limit then negsuc n else pos (2 ^ 64 - n - 1)

-- `-a` where overflow is not checked, as the release profile builds it: -i64::MIN is i64::MIN.
unfoldable pub neg_i64 : ℤ → ℤ
unfolding ◌-ℤ◌
neg_i64 a = wrap_i64 (pos 0 -ℤ a)

-- -n, for a natural number.
abbrev pub minus : ℕ → ℤ
minus n = sub_ℕ 0 n
