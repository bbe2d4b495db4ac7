-- ===== src/Base/Int.antt =====
-- Signed integers over the native numbers: the values of `int` and `long long`.
use Prim.Native.Nat.{ℕ, ◌-◌, ◌%◌, ◌^◌}

-- `negsuc n` is -(n + 1).
pub data ℤ : Type 0 where
  pos : ℕ → ℤ
  negsuc : ℕ → ℤ

-- -n
abbrev pub neg : ℕ → ℤ
neg n = elim n [ ℕ.zero ↦ pos 0 | ℕ.suc m ↦ negsuc m ]

-- The cast to `uint32_t`: the residue modulo 2^32.
abbrev pub to_uint32 : ℤ → ℕ
to_uint32 (pos n) = n % 2 ^ 32
to_uint32 (negsuc n) = 2 ^ 32 - 1 - n % 2 ^ 32
