-- ===== src/Reduction/Examples.antt =====
-- The theorems on lib/reduction.c at concrete inputs.
use tcs.Prelude.{◌≡◌, ◌≢◌, inl, refl, true, [], ◌∷◌, arith}
use tcs.Lifecycle
use tcs.Lifecycle.Op
use tcs.Lifecycle.Phase
use tcs.Lifecycle.Types.{admin, broker, Slot}
use tcs.Lifecycle.Invariant.{IsWords}
use tcs.Reduction.{
  Reduction, none_live, contain_one, contain_from, poll, apply_polled, apply, allows, valid,
  stop_mask, mask_from, publish,
}
use tcs.Reduction.Poll.{Polled, poll_lem}
use tcs.Reduction.Latch.{Call, run, latched_forever}
use tcs.Reduction.Stop.{publish_all, published_latches}

abbrev unused_slot : Slot
unused_slot = record {
  state = 0;
  incarnation = 0;
  issued = 0;
  pending = 0;
  stopped = 0;
  drained = 0;
}

abbrev busy_slot : Slot
busy_slot = record { state = 3; incarnation = 5; issued = 3; pending = 3; stopped = 0; drained = 0 }

-- Slot 0 works, nothing is inhibited.
abbrev busy : Reduction
busy = record {
  life = record { last_incarnation = 5; slots = Lifecycle.update (λ i. unused_slot) 0 busy_slot };
  inhibited = 0;
  input_fault = 0;
}

abbrev finish_call : Call
finish_call = record {
  sample = 1;
  actor = broker;
  event = record { op = Op.complete; slot = 0; incarnation = 5; sequence = 3 };
  audit_ok = true;
}

abbrev reserve_call : Call
reserve_call = record {
  sample = 0;
  actor = admin;
  event = record { op = Op.reserve; slot = 1; incarnation = 0; sequence = 0 };
  audit_ok = true;
}

busy-valid : valid busy ≡ true
unfolding valid none_live Lifecycle.valid Lifecycle.valid_from Lifecycle.slot_ok
busy-valid = refl

busy-IsWords : IsWords busy.life
busy-IsWords = record { last = omega arith; issued = λ i h. ground arith }

-- The poll comes first: the completion finds the slot closing, and the worker must be stopped.
contained_before_event :
    let (c, r) = apply busy 1 broker finish_call.event true in
    ((c.life.slots 0).state ≡ Phase.closing) × (r.status ≡ 4) × (stop_mask c ≡ 1)
unfolding apply poll apply_polled contain_from contain_one valid none_live Lifecycle.apply
    Lifecycle.valid Lifecycle.valid_from Lifecycle.slot_ok Lifecycle.permitted Lifecycle.dispatch
    Lifecycle.contain Lifecycle.complete stop_mask mask_from
contained_before_event = (refl, refl, refl)

poll_lem_example :
    let (next, status) = poll busy 4 in
    Polled busy 4 next status × (valid next ≡ true) × IsWords next.life
poll_lem_example = poll_lem busy 4 busy-valid busy-IsWords

latched_forever_example :
    let next = run busy (finish_call ∷ reserve_call ∷ []) in
    (allows next 0 5 ≢ true) × (Lifecycle.allows next.life 0 5 ≢ true)
latched_forever_example =
    latched_forever busy finish_call (reserve_call ∷ []) 0 5 busy-valid busy-IsWords (omega arith)
      (inl refl)

-- Slot 0 is requested, then slot 1, before the sample.
published_latches_example :
    ((publish 0 1).1 ≡ true)
    × (allows (run busy (record finish_call { sample = 3 } ∷ [])) 0 5 ≢ true)
unfolding publish publish_all
published_latches_example =
    published_latches 0 1 (2 ∷ []) busy (record finish_call { sample = 3 }) [] 0 5 (omega arith)
      refl (omega arith) refl busy-valid busy-IsWords
