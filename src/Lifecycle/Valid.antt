-- ===== src/Lifecycle/Valid.antt =====
-- What `tcs_lc_valid` of lib/lifecycle.c decides.
use tcs.Prelude.{ℕ, ◌≤◌, ◌<◌, ◌≡◌, ◌≢◌, ◌⊎◌, ◌↔◌, true, arith}
use tcs.Lifecycle.{slot_ok, valid_from, valid}
use tcs.Lifecycle.Phase
use tcs.Lifecycle.Types.{Slot, Lifecycle}

-- A slot between two events, with the last incarnation given out.
pub record IsValidSlot (last : ℕ) (s : Slot) : Type 0 where
  pub phase : s.state ≤ Phase.retired
  pub stopped_flag : s.stopped ≤ 1
  pub drained_flag : s.drained ≤ 1
  pub clear : s.state ≡ Phase.unused → (s.incarnation ≡ 0) × (s.issued ≡ 0) × (s.pending ≡ 0)
  pub named : s.state ≢ Phase.unused → (s.incarnation ≢ 0) × (s.incarnation ≤ last)
  pub latest : (s.pending ≡ 0) ⊎ (s.pending ≡ s.issued)
  pub idle : s.state < Phase.active → (s.issued ≡ 0) × (s.pending ≡ 0)
  pub open_gate : s.state < Phase.closing → (s.stopped ≡ 0) × (s.drained ≡ 0)
  pub settled : s.drained ≡ 1 → s.pending ≡ 0
  pub unconfirmed : s.state ≡ Phase.closing → (s.stopped ≡ 0) ⊎ (s.drained ≡ 0)
  pub confirmed : s.state ≡ Phase.retired → (s.stopped ≡ 1) × (s.drained ≡ 1)

abbrev pub IsFree : Slot → Type 0
IsFree s = (s.state ≡ Phase.unused) ⊎ (s.state ≡ Phase.retired)

pub record IsValid (life : Lifecycle) : Type 0 where
  pub first : IsValidSlot life.last_incarnation (life.slots 0)
  pub second : IsValidSlot life.last_incarnation (life.slots 1)
  pub distinct :
      ((life.slots 1).state ≡ Phase.unused)
      ⊎ ((life.slots 0).incarnation ≢ (life.slots 1).incarnation)
  pub one_at_a_time : IsFree (life.slots 0) ⊎ IsFree (life.slots 1)

first_ok :
    (life : Lifecycle) → (slot_ok life 0 ≡ true) ↔ IsValidSlot life.last_incarnation (life.slots 0)
unfolding slot_ok
first_ok life = (λ h. ground arith, λ v. ground arith)

second_ok :
    (life : Lifecycle)
    → (slot_ok life 1 ≡ true) ↔ (
        IsValidSlot life.last_incarnation (life.slots 1)
        × (((life.slots 1).state ≡ Phase.unused)
            ⊎ ((life.slots 0).incarnation ≢ (life.slots 1).incarnation)))
unfolding slot_ok
second_ok life = (λ h. ground arith, λ v. ground arith)

-- `tcs_lc_valid` accepts exactly the states that satisfy the invariant.
pub valid_iff : (life : Lifecycle) → (valid life ≡ true) ↔ IsValid life
unfolding valid valid_from
valid_iff life = (
  λ h. ground (arith, (first_ok life).0, (second_ok life).0),
  λ v. ground (arith, (first_ok life).1, (second_ok life).1),
)
