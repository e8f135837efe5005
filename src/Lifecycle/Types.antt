-- ===== src/Lifecycle/Types.antt =====
-- The data of include/tcs/lifecycle.h.
use Prim.Native.Nat.{ℕ}

-- `enum tcs_lc_actor`
pub data Actor : Type 0 where
  unknown admin supervisor broker detector worker : Actor

-- TCS_LC_SLOTS
abbrev pub slot_count : ℕ
slot_count = 2

-- `struct tcs_lc_slot`
pub record Slot : Type 0 where
  pub state : ℕ
  pub incarnation : ℕ
  pub issued : ℕ
  pub pending : ℕ
  pub stopped : ℕ
  pub drained : ℕ

-- `struct tcs_lifecycle`: the array as a function of the index, read and written below `slot_count`.
pub record Lifecycle : Type 0 where
  pub last_incarnation : ℕ
  pub slots : ℕ → Slot

-- `struct tcs_lc_event`
pub record Event : Type 0 where
  pub op : ℕ
  pub slot : ℕ
  pub incarnation : ℕ
  pub sequence : ℕ

-- `struct tcs_lc_result`
pub record Result : Type 0 where
  pub status : ℕ
  pub value : ℕ
