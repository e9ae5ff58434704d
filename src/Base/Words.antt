-- ===== src/Base/Words.antt =====
-- Go's uint64 and int64 as numbers below 2 ^ 64, with the wrap-around written out.
use Prim.Native.Nat.{ℕ, ◌+◌, ◌-◌, ◌%◌}
use mathlib.Core.Bool.{Bool}
use topia.Base.Tests.{leb}

abbrev pub u64_mod : ℕ
u64_mod = 18446744073709551616

abbrev pub i64_sign : ℕ
i64_sign = 9223372036854775808

abbrev pub add_u64 : ℕ → ℕ → ℕ
add_u64 a b = (a + b) % u64_mod

abbrev pub sub_u64 : ℕ → ℕ → ℕ
sub_u64 a b = (a + u64_mod - b) % u64_mod

-- -a in uint64.
abbrev pub neg_u64 : ℕ → ℕ
neg_u64 a = (u64_mod - a) % u64_mod

-- int64(a) < 0
abbrev pub is_neg_i64 : ℕ → Bool
is_neg_i64 a = leb i64_sign a
