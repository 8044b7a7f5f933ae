-- ===== src/Prelude/Int.antt =====
-- Integers over the native numbers.
use Prim.Native.Nat.{ℕ, suc, ◌+◌, ◌-◌, ◌*◌, ◌≤◌}
use mathlib.Core.Path.{◌≡◌}
use native.Mathlib.Omega.{arith}
use chanx_kit.Prelude.Tests.{if◌then◌else◌, leb}

-- `negsuc n` is -(n + 1).
pub data ℤ : Type 0 where
  pos : ℕ → ℤ
  negsuc : ℕ → ℤ

abbrev pub pos_part : ℤ → ℕ
pos_part (pos n) = n
pos_part (negsuc n) = 0

abbrev pub neg_part : ℤ → ℕ
neg_part (pos n) = 0
neg_part (negsuc n) = suc n

-- up - down
abbrev pub sub_ℕ : ℕ → ℕ → ℤ
sub_ℕ up down = if leb down up then pos (up - down) else negsuc (down - up - 1)

infixl 65 ◌+ℤ◌
abbrev pub ◌+ℤ◌ : ℤ → ℤ → ℤ
a +ℤ b = sub_ℕ (pos_part a + pos_part b) (neg_part a + neg_part b)

-- An integer times a natural number.
abbrev pub times : ℕ → ℤ → ℤ
times k a = sub_ℕ (pos_part a * k) (neg_part a * k)

-- The sum in terms of the parts of what is added.
pub +ℤ_parts :
    (a b : ℤ)
    → pos_part (a +ℤ b) + neg_part a + neg_part b ≡ neg_part (a +ℤ b) + pos_part a + pos_part b
+ℤ_parts a b = ground arith

pub zero-+ℤ : (a : ℤ) → pos 0 +ℤ a ≡ a
zero-+ℤ (pos n) = ground arith
zero-+ℤ (negsuc n) = ground arith

-- A difference is no further from 0 than what it is made of.
pub sub_ℕ_le : (up down : ℕ) → (pos_part (sub_ℕ up down) ≤ up) × (neg_part (sub_ℕ up down) ≤ down)
sub_ℕ_le up down = ground arith
