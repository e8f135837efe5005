-- ===== src/Lifecycle/Phase.antt =====
-- `enum tcs_lc_state` of include/tcs/lifecycle.h: what a slot's `state` word holds.
use Prim.Native.Nat.{ℕ}

abbrev pub unused : ℕ
unused = 0

abbrev pub starting : ℕ
starting = 1

abbrev pub ready : ℕ
ready = 2

abbrev pub active : ℕ
active = 3

abbrev pub closing : ℕ
closing = 4

abbrev pub retired : ℕ
retired = 5
