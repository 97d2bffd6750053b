-- ===== src/Prelude/Int.antt =====
-- Go's `int`, and its conversion to a 32-bit word.
use Prim.Native.Nat.{ℕ, suc, ◌-◌, ◌%◌, ◌^◌}

-- `negsuc n` is -(n + 1).
pub data ℤ : Type 0 where
  pos : ℕ → ℤ
  negsuc : ℕ → ℤ

-- `uint32(x)`: the residue modulo 2³².
abbrev pub to_uint32 : ℤ → ℕ
to_uint32 (pos n) = n % 2 ^ 32
to_uint32 (negsuc n) = 2 ^ 32 - suc (n % 2 ^ 32)
