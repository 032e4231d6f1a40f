-- ===== src/Prelude/Int.antt =====
-- Signed integers, for Go's int and int64. `negsuc n` is -(n + 1).
use Prim.Native.Nat.{ℕ, zero, suc, ◌+◌, ◌<◌}
use mathlib.Core.Bool.{Bool}
use native.Mathlib.Omega.{arith}
use native.Mathlib.Decide.{ℕ_discrete}
use gas_city.Prelude.Tests.{ltb, leb, if◌then◌else◌}
use gas_city.Prelude.Equality.{Eq}

pub data ℤ : Type 0 where
  pos : ℕ → ℤ
  negsuc : ℕ → ℤ

abbrev pub pos_part : ℤ → ℕ
pos_part (pos n) = n
pos_part (negsuc n) = 0

abbrev pub neg_part : ℤ → ℕ
neg_part (pos n) = 0
neg_part (negsuc n) = suc n

abbrev pub ltb_ℤ : ℤ → ℤ → Bool
ltb_ℤ a b = ltb (pos_part a + neg_part b) (pos_part b + neg_part a)

abbrev pub leb_ℤ : ℤ → ℤ → Bool
leb_ℤ a b = leb (pos_part a + neg_part b) (pos_part b + neg_part a)

infix 50 ◌<ℤ◌
abbrev pub ◌<ℤ◌ : ℤ → ℤ → Type 0
a <ℤ b = pos_part a + neg_part b < pos_part b + neg_part a

-- `x + 1` in int64, which wraps at 2 ^ 63.
abbrev pub increment : ℤ → ℤ
increment (pos n) = if ltb n 9223372036854775807 then pos (n + 1) else negsuc 9223372036854775807
increment (negsuc zero) = pos 0
increment (negsuc (suc n)) = negsuc n

unfoldable pub ℤ-discrete : Discrete ℤ
unfolding ℕ_discrete
ℤ-discrete = hlevel ℕ_discrete

instance abbrev pub int_eq : Eq ℤ
int_eq = record { dec = ℤ-discrete }

pub <ℤ_trans : (a b c : ℤ) → a <ℤ b → b <ℤ c → a <ℤ c
<ℤ_trans a b c h k = omega arith
