-- ===== src/Lifecycle/Status.antt =====
-- `enum tcs_lc_status` of include/tcs/lifecycle.h.
use Prim.Native.Nat.{ℕ}

abbrev pub ok : ℕ
ok = 0

abbrev pub invalid : ℕ
invalid = 1

abbrev pub denied : ℕ
denied = 2

abbrev pub stale : ℕ
stale = 3

abbrev pub bad_state : ℕ
bad_state = 4

abbrev pub audit_required : ℕ
audit_required = 5

abbrev pub exhausted : ℕ
exhausted = 6
