-- ===== src/Reduction/Valid.antt =====
-- What `tcs_rd_valid` of lib/reduction.c decides.
use tcs.Prelude.{ℕ, ◌≤◌, ◌≡◌, ◌⊎◌, ◌↔◌, true, bit, arith}
use tcs.Lifecycle
use tcs.Lifecycle.Phase
use tcs.Lifecycle.Types.{Slot}
use tcs.Reduction.{Reduction, all_slots, none_live, valid}

-- A slot that is inhibited has not started, or is closing or retired.
abbrev pub IsHeld : ℕ → Slot → Type 0
IsHeld b s = (b ≡ 0) ⊎ (s.state ≡ Phase.unused) ⊎ (Phase.closing ≤ s.state)

pub record IsValid (c : Reduction) : Type 0 where
  pub life_ok : Lifecycle.valid c.life ≡ true
  pub mask : c.inhibited ≤ all_slots
  pub fault_flag : c.input_fault ≤ 1
  pub fault_holds : (c.input_fault ≡ 0) ⊎ (c.inhibited ≡ all_slots)
  pub first : IsHeld (bit c.inhibited 0) (c.life.slots 0)
  pub second : IsHeld (bit c.inhibited 1) (c.life.slots 1)

-- `tcs_rd_valid` accepts exactly the states that satisfy the invariant.
pub valid_iff_latch : (c : Reduction) → (valid c ≡ true) ↔ IsValid c
unfolding valid none_live
valid_iff_latch c = (λ h. ground arith, λ v. ground arith)
