-- ===== src/Deadline.antt =====
-- lib/deadline.c and include/tcs/deadline.h: nonrenewable lifetimes over the reduction latch. A
-- function that updates `*owner` returns the new state beside its result; pointers are not null.
pub mod Valid
pub mod Poll
pub mod Admission
pub mod Lifetime
mod Examples
use tcs.Prelude.{
  ℕ, zero, suc, ◌+◌, ◌-◌, ◌%◌, ◌^◌, Bool, true, false, not, ◌&&◌, ◌||◌, ltb, leb, ◌==◌, ◌!=◌,
  if◌then◌else◌, u64_max, u64_mod, bit, bit_or,
}
use tcs.Lifecycle
use tcs.Lifecycle.Op
use tcs.Lifecycle.Phase
use tcs.Lifecycle.Status
use tcs.Lifecycle.Types.{Actor, Event, Result, slot_count}
use tcs.Reduction
use tcs.Reduction.{Reduction, PollStatus, all_slots}

-- `struct tcs_deadline`
pub record Deadline : Type 0 where
  pub control : Reduction
  pub last_tick : ℕ
  pub clock_fault : ℕ
  pub end : ℕ → ℕ

-- `struct tcs_dl_reading`
pub record Reading : Type 0 where
  pub tick : ℕ
  pub ok : Bool

-- `enum tcs_dl_status`
pub data DeadlineStatus : Type 0 where
  on_time fault invalid : DeadlineStatus

-- The loop of `tcs_dl_valid`, over the slots below `n`.
unfoldable pub times_ok : Deadline → ℕ → Bool
times_ok d zero = true
times_ok d (suc i) =
    let unused = (d.control.life.slots i).state == Phase.unused in
    let rest = times_ok d i in
    if (if unused then d.end i != 0 else d.end i == 0)
    then false
    else if (d.end i != 0) && leb (d.end i) d.last_tick && (bit d.control.inhibited i == 0)
    then false
    else rest

-- `tcs_dl_valid`
unfoldable pub valid : Deadline → Bool
valid d =
    if not (Reduction.valid d.control)
      || ltb 1 d.clock_fault
      || ((d.clock_fault != 0) && (d.control.inhibited != all_slots))
    then false
    else times_ok d slot_count

-- The loop of `tcs_dl_poll` over `n` slots from `i` on.
unfoldable pub expire_from : Deadline → ℕ → ℕ → ℕ → ℕ → ℕ
expire_from d tick zero i requests = requests
expire_from d tick (suc n) i requests =
    expire_from d tick n (i + 1)
      (if (d.end i != 0) && leb (d.end i) tick then bit_or requests (2 ^ i) else requests)

-- `tcs_dl_poll`
unfoldable pub poll : Deadline → ℕ → Reading → Deadline × DeadlineStatus
poll d requests reading =
    let clock_fault = if not reading.ok || ltb reading.tick d.last_tick then 1 else d.clock_fault in
    let failed = clock_fault != 0 in
    let wanted =
      if failed
      then bit_or requests all_slots
      else expire_from d reading.tick slot_count 0 requests in
    let (control, status) = Reduction.poll d.control wanted in
    if not (valid d) then (d, invalid) else elim status [
      | PollStatus.invalid_state ↦ (d, invalid)
      | _ ↦ (
        record {
          control = control;
          last_tick = if failed then d.last_tick else reading.tick;
          clock_fault = clock_fault;
          end = d.end;
        },
        if failed || (control.input_fault != 0) then fault else on_time,
      )
    ]

-- The test of `tcs_dl_apply` on the duration.
abbrev pub bad_duration : Deadline → Event → ℕ → Bool
bad_duration d e duration =
    if e.op == Op.reserve
    then (duration == 0) || ltb (u64_max - d.last_tick) duration
    else duration != 0

abbrev pub update : (ℕ → ℕ) → ℕ → ℕ → ℕ → ℕ
update f i x j = if j == i then x else f j

-- The part of `tcs_dl_apply` after its poll.
unfoldable pub apply_polled : Deadline → Actor → Event → Bool → ℕ → Deadline × Result
apply_polled d actor e audit_ok duration =
    let (control, r) = Reduction.apply d.control 0 actor e audit_ok in
    let end =
      if e.op == Op.reserve
      then update d.end e.slot ((d.last_tick + duration) % u64_mod)
      else d.end in
    if bad_duration d e duration
    then (d, Lifecycle.result Status.invalid 0)
    else if r.status == Status.ok
    then (record d { control = control; end = end }, r)
    else (d, r)

-- `tcs_dl_apply`
unfoldable pub apply : Deadline → ℕ → Reading → Actor → Event → Bool → ℕ → Deadline × Result
apply d requests reading actor e audit_ok duration =
    let (polled, status) = poll d requests reading in
    elim status [
      | invalid ↦ (polled, Lifecycle.result Status.invalid 0)
      | _ ↦ apply_polled polled actor e audit_ok duration
    ]

-- `tcs_dl_stop_mask`
unfoldable pub stop_mask : Deadline → ℕ
stop_mask d = if valid d then Reduction.stop_mask d.control else all_slots

-- `tcs_dl_allows`
unfoldable pub allows : Deadline → ℕ → ℕ → Bool
allows d slot incarnation = valid d && Reduction.allows d.control slot incarnation
