-- ===== src/Deadline/Examples.antt =====
-- The theorems on lib/deadline.c at concrete inputs.
use tcs.Prelude.{ℕ, ◌≡◌, ◌≢◌, inl, refl, true, [], ◌∷◌, arith}
use tcs.Lifecycle
use tcs.Lifecycle.Op
use tcs.Lifecycle.Types.{broker, Slot}
use tcs.Reduction
use tcs.Reduction.{Reduction}
use tcs.Deadline.{
  Deadline, times_ok, expire_from, poll, apply_polled, apply, allows, valid, update, stop_mask,
}
use tcs.Deadline.Valid.{InWords}
use tcs.Deadline.Lifetime.{Call, act, run, expired_forever}

abbrev unused_slot : Slot
unused_slot = record {
  state = 0;
  incarnation = 0;
  issued = 0;
  pending = 0;
  stopped = 0;
  drained = 0;
}

abbrev busy_slot : Slot
busy_slot = record { state = 3; incarnation = 5; issued = 3; pending = 3; stopped = 0; drained = 0 }

-- Slot 0 may work until tick 100, and the clock was read at 40.
abbrev timed : Deadline
timed = record {
  control = record {
    life = record { last_incarnation = 5; slots = Lifecycle.update (λ i. unused_slot) 0 busy_slot };
    inhibited = 0;
    input_fault = 0;
  };
  last_tick = 40;
  clock_fault = 0;
  end = update (λ i. 0) 0 100;
}

abbrev call_at : ℕ → Call
call_at tick = record {
  requests = 0;
  reading = record { tick = tick; ok = true };
  actor = broker;
  event = record { op = Op.complete; slot = 0; incarnation = 5; sequence = 3 };
  audit_ok = true;
  duration = 0;
}

timed-valid : valid timed ≡ true
unfolding valid times_ok Reduction.valid Reduction.none_live Lifecycle.valid Lifecycle.valid_from
    Lifecycle.slot_ok
timed-valid = refl

timed-InWords : InWords timed
timed-InWords = record {
  counters = record { last = omega arith; issued = λ i h. ground arith };
  clock = omega arith;
}

-- At 99 the slot may work, at 100 it may not and must be stopped.
ends_on_time :
    (allows (act timed (call_at 99)) 0 5 ≡ true) × (stop_mask (act timed (call_at 100)) ≡ 1)
unfolding apply apply_polled poll expire_from allows stop_mask valid times_ok Reduction.valid
    Reduction.none_live Reduction.poll Reduction.contain_from Reduction.contain_one Reduction.apply
    Reduction.apply_polled Reduction.allows Reduction.stop_mask Reduction.mask_from Lifecycle.valid
    Lifecycle.valid_from Lifecycle.slot_ok Lifecycle.distinct_below Lifecycle.apply
    Lifecycle.permitted Lifecycle.dispatch Lifecycle.contain Lifecycle.complete Lifecycle.allows
ends_on_time = (refl, refl)

expired_forever_example : allows (run timed (call_at 100 ∷ call_at 120 ∷ [])) 0 5 ≢ true
expired_forever_example =
    expired_forever timed (call_at 100) (call_at 120 ∷ []) 0 5 timed-valid timed-InWords
      (omega arith) (omega arith) (inl (omega arith))
