-- ===== src/Lifecycle/Examples.antt =====
-- The theorems on lib/lifecycle.c at concrete inputs, and a replacement of a worker from start to end.
use tcs.Prelude.{ℕ, ◌≡◌, ◌≢◌, ◌⊎◌, inr, refl, true, false, List, [], ◌∷◌, arith}
use tcs.Lifecycle.{
  slot_ok, valid_from, valid, allows, permitted, any_occupied, reserve, started, activate, begin,
  contain, confirm, dispatch, apply, update, containment, distinct_below,
}
use tcs.Lifecycle.Op
use tcs.Lifecycle.Phase
use tcs.Lifecycle.Types.{Actor, admin, supervisor, broker, detector, Slot, Lifecycle}
use tcs.Lifecycle.Invariant.{IsWords, apply-valid}
use tcs.Lifecycle.Gate.{reserve_needs_settled}
use tcs.Lifecycle.History.{Call, run, contained_forever}

abbrev unused_slot : Slot
unused_slot = record {
  state = 0;
  incarnation = 0;
  issued = 0;
  pending = 0;
  stopped = 0;
  drained = 0;
}

-- Slot 0 works on request 3.
abbrev busy_slot : Slot
busy_slot = record { state = 3; incarnation = 5; issued = 3; pending = 3; stopped = 0; drained = 0 }

abbrev retired_slot : Slot
retired_slot = record {
  state = 5;
  incarnation = 5;
  issued = 3;
  pending = 0;
  stopped = 1;
  drained = 1;
}

abbrev initial : Lifecycle
initial = record { last_incarnation = 0; slots = λ i. unused_slot }

abbrev busy : Lifecycle
busy = record { last_incarnation = 5; slots = update (λ i. unused_slot) 0 busy_slot }

abbrev settled : Lifecycle
settled = record { last_incarnation = 5; slots = update (λ i. unused_slot) 0 retired_slot }

abbrev call : Actor → ℕ → ℕ → ℕ → ℕ → Call
call actor op slot incarnation sequence = record {
  actor = actor;
  event = record { op = op; slot = slot; incarnation = incarnation; sequence = sequence };
  audit_ok = true;
}

abbrev replacement : List Call
replacement =
    call admin Op.reserve 0 0 0
    ∷ call supervisor Op.started 0 1 0
    ∷ call admin Op.activate 0 1 0
    ∷ call broker Op.begin 0 1 0
    ∷ call detector Op.contain 0 1 0
    ∷ call supervisor Op.stopped 0 1 1
    ∷ call broker Op.drained 0 1 1
    ∷ call admin Op.reserve 1 0 0
    ∷ []

busy-IsWords : IsWords busy
busy-IsWords = record { last = omega arith; issued = λ i h. ground arith }

busy-valid : valid busy ≡ true
unfolding valid valid_from slot_ok distinct_below
busy-valid = refl

settled-valid : valid settled ≡ true
unfolding valid valid_from slot_ok distinct_below
settled-valid = refl

-- After stop and drain the second slot takes incarnation 2, the first one is retired.
replaced :
    let life = run initial replacement in
    ((life.slots 0).state ≡ Phase.retired)
    × ((life.slots 1).state ≡ Phase.starting)
    × ((life.slots 1).incarnation ≡ 2)
unfolding run apply valid valid_from slot_ok distinct_below permitted dispatch reserve any_occupied
    started activate begin contain confirm
replaced = (refl, refl, refl)

apply-valid_example :
    (valid (apply busy detector (containment busy 0) false).0 ≡ true)
    × IsWords (apply busy detector (containment busy 0) false).0
apply-valid_example = apply-valid busy detector (containment busy 0) false busy-IsWords busy-valid

reserve_needs_settled_example :
    (retired_slot.state ≡ 0)
    ⊎ ((retired_slot.state ≡ 5)
        × (1 ≡ retired_slot.stopped)
        × (retired_slot.drained ≡ 1)
        × (retired_slot.pending ≡ 0))
unfolding apply valid valid_from slot_ok distinct_below permitted dispatch reserve any_occupied
reserve_needs_settled_example =
    reserve_needs_settled settled admin (call admin Op.reserve 1 0 0).event true 0 refl refl
      (omega arith)

contained_forever_example :
    allows (run (apply busy detector (containment busy 0) false).0 replacement) 0 5 ≢ true
contained_forever_example =
    contained_forever busy detector 0 false replacement 5 busy-valid (omega arith) (omega arith)
      (inr (inr refl))
