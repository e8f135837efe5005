-- ===== src/Deadline/Valid.antt =====
-- What `tcs_dl_valid` of lib/deadline.c decides.
use tcs.Prelude.{ℕ, ◌≤◌, ◌<◌, ◌≡◌, ◌≢◌, ◌⊎◌, ◌↔◌, true, bit, arith, u64_max}
use tcs.Lifecycle.Phase
use tcs.Lifecycle.Types.{Slot}
use tcs.Lifecycle.Invariant.{IsWords}
use tcs.Reduction
use tcs.Reduction.{all_slots}
use tcs.Deadline.{Deadline, times_ok, valid}

-- A slot in use has an end, and once that has come its bit of the inhibited mask is set.
abbrev pub IsTimed : ℕ → Slot → ℕ → ℕ → Type 0
IsTimed b s end last =
    ((s.state ≡ Phase.unused) × (end ≡ 0))
    ⊎ ((s.state ≢ Phase.unused) × (end ≢ 0) × ((last < end) ⊎ (b ≡ 1)))

pub record IsValid (d : Deadline) : Type 0 where
  pub control_ok : Reduction.valid d.control ≡ true
  pub fault_flag : d.clock_fault ≤ 1
  pub fault_holds : (d.clock_fault ≡ 0) ⊎ (d.control.inhibited ≡ all_slots)
  pub first : IsTimed (bit d.control.inhibited 0) (d.control.life.slots 0) (d.end 0) d.last_tick
  pub second : IsTimed (bit d.control.inhibited 1) (d.control.life.slots 1) (d.end 1) d.last_tick

-- The counters and the clock fit their words, as they do in C.
pub record InWords (d : Deadline) : Type 0 where
  pub counters : IsWords d.control.life
  pub clock : d.last_tick ≤ u64_max

-- `tcs_dl_valid` accepts exactly the states that satisfy the invariant.
pub valid_iff_deadline : (d : Deadline) → (valid d ≡ true) ↔ IsValid d
unfolding valid times_ok
valid_iff_deadline d = (λ h. ground arith, λ v. ground arith)
