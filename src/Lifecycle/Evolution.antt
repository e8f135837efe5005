-- ===== src/Lifecycle/Evolution.antt =====
-- How an event can change a slot, read off the cases of lib/lifecycle.c once for the other proofs.
use tcs.Prelude.{◌≤◌, ◌<◌, ◌≡◌, ◌≢◌, ◌⊎◌, Bool, true, false, arith, u64_max, inc64}
use tcs.Lifecycle.{
  any_occupied, reserve, started, activate, begin, complete, contain, confirm, retire, dispatch,
  apply, valid, permitted, malformed, update, store,
}
use tcs.Lifecycle.Op
use tcs.Lifecycle.Phase
use tcs.Lifecycle.Status
use tcs.Lifecycle.Types.{Actor, Slot, Lifecycle, Event, Result, slot_count}
use tcs.Lifecycle.Valid.{IsFree}

-- A slot that is unused takes a new incarnation; every slot must be free.
pub record Reserves (life : Lifecycle) (e : Event) (audit_ok : Bool) (next : Lifecycle)
    : Type 0 where
  pub is_reserve : e.op ≡ Op.reserve
  pub audited : audit_ok ≡ true
  pub was : (life.slots e.slot).state ≡ Phase.unused
  pub free : IsFree (life.slots 0) × IsFree (life.slots 1)
  pub left : life.last_incarnation ≢ u64_max
  pub result : next ≡ record {
    last_incarnation = inc64 life.last_incarnation;
    slots = update life.slots e.slot (record (life.slots e.slot) {
      incarnation = inc64 life.last_incarnation;
      state = Phase.starting;
    });
  }

-- An event other than a reservation moves a slot in use.
pub record Starts (e : Event) (s t : Slot) : Type 0 where
  pub is_started : e.op ≡ Op.started
  pub was : s.state ≡ Phase.starting
  pub result : t ≡ record s { state = Phase.ready }

pub record Activates (e : Event) (audit_ok : Bool) (s t : Slot) : Type 0 where
  pub is_activate : e.op ≡ Op.activate
  pub audited : audit_ok ≡ true
  pub was : s.state ≡ Phase.ready
  pub result : t ≡ record s { state = Phase.active }

pub record Begins (e : Event) (s t : Slot) : Type 0 where
  pub is_begin : e.op ≡ Op.begin
  pub was : s.state ≡ Phase.active
  pub idle : s.pending ≡ 0
  pub left : s.issued ≢ u64_max
  pub result : t ≡ record s { issued = inc64 s.issued; pending = inc64 s.issued }

pub record Completes (e : Event) (s t : Slot) : Type 0 where
  pub is_complete : e.op ≡ Op.complete
  pub was : s.state ≡ Phase.active
  pub pending : s.pending ≡ e.sequence
  pub result : t ≡ record s { pending = 0 }

pub record Contains (e : Event) (s t : Slot) : Type 0 where
  pub is_contain : e.op ≡ Op.contain
  pub was : (Phase.starting ≤ s.state) × (s.state ≤ Phase.active)
  pub result : t ≡ record s { state = Phase.closing }

pub record Stops (e : Event) (s t : Slot) : Type 0 where
  pub is_stopped : e.op ≡ Op.stopped
  pub was : s.state ≡ Phase.closing
  pub bound : e.sequence ≡ s.issued
  pub once : s.stopped ≡ 0
  pub result : t ≡ retire (record s { stopped = 1 })

pub record Drains (e : Event) (s t : Slot) : Type 0 where
  pub is_drained : e.op ≡ Op.drained
  pub was : s.state ≡ Phase.closing
  pub bound : e.sequence ≡ s.issued
  pub once : s.drained ≡ 0
  pub result : t ≡ retire (record s { drained = 1; pending = 0 })

abbrev pub Works : Event → Bool → Slot → Slot → Type 0
Works e audit_ok s t =
    Starts e s t
    ⊎ Activates e audit_ok s t
    ⊎ Begins e s t
    ⊎ Completes e s t
    ⊎ Contains e s t
    ⊎ Stops e s t
    ⊎ Drains e s t

-- A refusal gives no value and changes nothing.
pub record Refuses (life next : Lifecycle) (r : Result) : Type 0 where
  pub same : next ≡ life
  pub refused : r.status ≢ Status.ok
  pub no_value : r.value ≡ 0

-- Work changes the slot of the event and nothing else.
pub record Changes (life : Lifecycle) (e : Event) (audit_ok : Bool) (next : Lifecycle)
    : Type 0 where
  pub step : Works e audit_ok (life.slots e.slot) (next.slots e.slot)
  pub others : next ≡ store life e.slot (next.slots e.slot)

-- What every case of the switch leads to.
abbrev pub Outcome : Lifecycle → Event → Bool → Lifecycle × Result → Type 0
Outcome life e audit_ok (next, r) =
    Refuses life next r
    ⊎ ((r.status ≡ Status.ok) × (Reserves life e audit_ok next ⊎ Changes life e audit_ok next))

module _ (life : Lifecycle) (e : Event) (audit_ok : Bool) where
  reserve-Outcome : e.op ≡ Op.reserve → Outcome life e audit_ok (reserve life e audit_ok)
  unfolding reserve any_occupied
  reserve-Outcome h = ground arith

  started-Outcome : e.op ≡ Op.started → Outcome life e audit_ok (started life e)
  unfolding started
  started-Outcome h = ground arith

  activate-Outcome : e.op ≡ Op.activate → Outcome life e audit_ok (activate life e audit_ok)
  unfolding activate
  activate-Outcome h = ground arith

  begin-Outcome : e.op ≡ Op.begin → Outcome life e audit_ok (begin life e)
  unfolding begin
  begin-Outcome h = ground arith

  complete-Outcome : e.op ≡ Op.complete → Outcome life e audit_ok (complete life e)
  unfolding complete
  complete-Outcome h = ground arith

  contain-Outcome : e.op ≡ Op.contain → Outcome life e audit_ok (contain life e)
  unfolding contain
  contain-Outcome h = ground arith

  confirm-Outcome :
      (e.op ≡ Op.stopped) ⊎ (e.op ≡ Op.drained) → Outcome life e audit_ok (confirm life e)
  unfolding confirm
  confirm-Outcome h = ground arith

  dispatch-Outcome : Outcome life e audit_ok (dispatch life e audit_ok)
  unfolding dispatch
  dispatch-Outcome = ground (
    arith, reserve-Outcome, started-Outcome, activate-Outcome, begin-Outcome, complete-Outcome,
    contain-Outcome, confirm-Outcome,
  )

-- What an event must satisfy before the switch is reached.
pub record Passes (life : Lifecycle) (actor : Actor) (e : Event) : Type 0 where
  pub valid_before : valid life ≡ true
  pub in_range : e.slot < slot_count
  pub allowed : permitted actor e.op ≡ true
  pub formed : malformed e ≡ false
  pub named : (e.op ≡ Op.reserve) ⊎ (e.incarnation ≡ (life.slots e.slot).incarnation)

-- `tcs_lc_apply` refuses with value zero and leaves the state as it was, or answers OK, having
-- passed every test and made one of the changes listed above.
pub apply-Outcome :
    (life : Lifecycle) (actor : Actor) (e : Event) (audit_ok : Bool)
    → let (next, r) = apply life actor e audit_ok in
      Refuses life next r
      ⊎ ((r.status ≡ Status.ok)
          × Passes life actor e
          × (Reserves life e audit_ok next ⊎ Changes life e audit_ok next))
unfolding apply
apply-Outcome life actor e audit_ok = ground (arith, dispatch-Outcome life e audit_ok)
