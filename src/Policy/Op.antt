-- ===== src/Policy/Op.antt =====
-- `enum tcs_op` of include/tcs/policy.h, as the numbers that requests carry.
use Prim.Native.Nat.{ℕ}

abbrev pub grant : ℕ
grant = 1

abbrev pub check : ℕ
check = 2

abbrev pub revoke : ℕ
revoke = 3

abbrev pub quarantine : ℕ
quarantine = 4

abbrev pub restore : ℕ
restore = 5
