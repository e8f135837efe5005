-- ===== src/Prelude/Words.antt =====
-- `uint64_t`: a number below 2 ^ 64, with the wrap-around written out.
use Prim.Native.Nat.{ℕ, ◌+◌, ◌%◌, ◌^◌}

abbrev pub u64_mod : ℕ
u64_mod = 2 ^ 64

-- UINT64_MAX
abbrev pub u64_max : ℕ
u64_max = 18446744073709551615

-- `++x` on a `uint64_t`.
abbrev pub inc64 : ℕ → ℕ
inc64 x = (x + 1) % u64_mod
