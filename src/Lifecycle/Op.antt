-- ===== src/Lifecycle/Op.antt =====
-- `enum tcs_lc_op` of include/tcs/lifecycle.h.
use Prim.Native.Nat.{ℕ}

abbrev pub reserve : ℕ
reserve = 1

abbrev pub started : ℕ
started = 2

abbrev pub activate : ℕ
activate = 3

abbrev pub begin : ℕ
begin = 4

abbrev pub complete : ℕ
complete = 5

abbrev pub contain : ℕ
contain = 6

abbrev pub stopped : ℕ
stopped = 7

abbrev pub drained : ℕ
drained = 8
