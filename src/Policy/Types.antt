-- ===== src/Policy/Types.antt =====
-- The data of include/tcs/policy.h. Fields are `uint64_t`; the two C enums that never come from a
-- message are data types.
use Prim.Native.Nat.{ℕ}
use mathlib.Core.Bool.{Bool, true, false}

-- `enum tcs_actor`
pub data Actor : Type 0 where
  unknown admin storage : Actor

-- `enum tcs_state`
pub data State : Type 0 where
  restricted active quarantined : State

abbrev pub state_code : State → ℕ
state_code restricted = 0
state_code active = 1
state_code quarantined = 2

abbrev pub is_active : State → Bool
is_active active = true
is_active _ = false

abbrev pub is_quarantined : State → Bool
is_quarantined quarantined = true
is_quarantined _ = false

abbrev pub is_admin : Actor → Bool
is_admin admin = true
is_admin _ = false

abbrev pub is_storage : Actor → Bool
is_storage storage = true
is_storage _ = false

-- TCS_SUBJECTS
abbrev pub subject_count : ℕ
subject_count = 4

-- TCS_CLIENT_SUBJECT
abbrev pub client_subject : ℕ
client_subject = 1

-- TCS_OBJECT
abbrev pub the_object : ℕ
the_object = 42

-- TCS_READ
abbrev pub read_right : ℕ
read_right = 1

-- `struct tcs_subject`
pub record Subject : Type 0 where
  pub generation : ℕ
  pub object : ℕ
  pub rights : ℕ
  pub state : State

-- `struct tcs_policy`: the array as a function of the index, read and written below `subject_count`.
pub record Policy : Type 0 where
  pub subjects : ℕ → Subject

-- `struct tcs_request`
pub record Request : Type 0 where
  pub op : ℕ
  pub subject : ℕ
  pub object : ℕ
  pub rights : ℕ
  pub generation : ℕ

-- `struct tcs_result`
pub record Result : Type 0 where
  pub status : ℕ
  pub value : ℕ

-- `struct tcs_snapshot`
pub record Snapshot : Type 0 where
  pub status : ℕ
  pub state : ℕ
  pub generation : ℕ
  pub object : ℕ
  pub rights : ℕ
