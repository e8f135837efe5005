-- ===== src/Admin/Types.antt =====
-- The data of include/tcs/admin.h.
use Prim.Native.Nat.{ℕ}
use mathlib.Core.Bool.{Bool}
use mathlib.Core.List.{List}
use tcs.Policy.Types.{Request}

-- TCS_ADMIN_PACKET_BYTES
abbrev pub packet_bytes : ℕ
packet_bytes = 192

-- `enum tcs_admin_status`
pub data AdminStatus : Type 0 where
  accepted not_ready bad_packet bad_context bad_signature replay busy exhausted bad_completion :
      AdminStatus

-- `struct tcs_admin_command`
pub record Command : Type 0 where
  pub sequence : ℕ
  pub expected_generation : ℕ
  pub request : Request

-- `struct tcs_admin`
pub record Admin : Type 0 where
  pub public_key : List ℕ
  pub realm : List ℕ
  pub boot : List ℕ
  pub next_sequence : ℕ
  pub pending_sequence : ℕ
  pub initialized : Bool
  pub exhausted : Bool
