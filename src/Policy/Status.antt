-- ===== src/Policy/Status.antt =====
-- `enum tcs_status` of include/tcs/policy.h, as the numbers that results carry.
use Prim.Native.Nat.{ℕ}

abbrev pub ok : ℕ
ok = 0

abbrev pub denied : ℕ
denied = 1

abbrev pub bad_message : ℕ
bad_message = 2

abbrev pub stale : ℕ
stale = 3

abbrev pub isolated : ℕ
isolated = 4

abbrev pub audit_full : ℕ
audit_full = 5

abbrev pub exhausted : ℕ
exhausted = 6
