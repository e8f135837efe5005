-- ===== src/Reduction.antt =====
-- lib/reduction.c and include/tcs/reduction.h: the sticky reduction latch over the lifecycle. A
-- function that updates `*control` returns the new state beside its result; pointers are not null.
-- `x & (1 << i)` is read as the bit `x >> i & 1`, and `x & ~TCS_RD_ALL` as `x >> 2`.
pub mod Valid
pub mod Poll
pub mod Latch
pub mod Stop
mod Examples
use tcs.Prelude.{
  ℕ, zero, suc, ◌+◌, ◌/◌, ◌^◌, Bool, true, false, not, ◌&&◌, ◌||◌, ltb, leb, ◌==◌, ◌!=◌,
  if◌then◌else◌, Option, none, some, bit, bit_or,
}
use tcs.Lifecycle
use tcs.Lifecycle.Op
use tcs.Lifecycle.Phase
use tcs.Lifecycle.Status
use tcs.Lifecycle.Types.{Actor, detector, Slot, Lifecycle, Event, Result, slot_count}

-- TCS_RD_ALL
abbrev pub all_slots : ℕ
all_slots = 3

-- `struct tcs_reduction`
pub record Reduction : Type 0 where
  pub life : Lifecycle
  pub inhibited : ℕ
  pub input_fault : ℕ

-- `enum tcs_rd_poll_status`
pub data PollStatus : Type 0 where
  ok malformed invalid_state : PollStatus

-- `phase >= TCS_LC_STARTING && phase <= TCS_LC_ACTIVE`
abbrev pub is_live : Slot → Bool
is_live s = leb Phase.starting s.state && leb s.state Phase.active

-- The loop of `tcs_rd_valid`: no slot below `n` is inhibited and live.
unfoldable pub none_live : Lifecycle → ℕ → ℕ → Bool
none_live life inhibited zero = true
none_live life inhibited (suc i) =
    not ((bit inhibited i != 0) && is_live (life.slots i)) && none_live life inhibited i

-- `tcs_rd_valid`
unfoldable pub valid : Reduction → Bool
valid c =
    if not (Lifecycle.valid c.life)
      || (c.inhibited / 4 != 0)
      || ltb 1 c.input_fault
      || ((c.input_fault != 0) && (c.inhibited != all_slots))
    then false
    else none_live c.life c.inhibited slot_count

-- The body of the loop of `tcs_rd_poll`; `none` is its early return.
unfoldable pub contain_one : Lifecycle → ℕ → ℕ → Option Lifecycle
contain_one life inhibited i =
    let (next, r) = Lifecycle.apply life detector (Lifecycle.containment life i) false in
    if (bit inhibited i != 0) && is_live (life.slots i)
    then if r.status != Status.ok then none else some next
    else some life

-- The loop of `tcs_rd_poll` over `n` slots from `i` on.
unfoldable pub contain_from : Lifecycle → ℕ → ℕ → ℕ → Option Lifecycle
contain_from life inhibited zero i = some life
contain_from life inhibited (suc n) i = elim (contain_one life inhibited i) [
  | none ↦ none
  | some next ↦ contain_from next inhibited n (i + 1)
]

-- `tcs_rd_poll`
unfoldable pub poll : Reduction → ℕ → Reduction × PollStatus
poll c sample =
    let bad = sample / 4 != 0 in
    let inhibited = bit_or c.inhibited (if bad then all_slots else sample) in
    let fault = if bad then 1 else c.input_fault in
    if not (valid c)
    then (c, invalid_state)
    else elim (contain_from c.life inhibited slot_count 0) [
      | none ↦ (c, invalid_state)
      | some life ↦ (
        record { life = life; inhibited = inhibited; input_fault = fault },
        if bad then malformed else ok,
      )
    ]

-- The part of `tcs_rd_apply` after its poll.
unfoldable pub apply_polled : Reduction → Actor → Event → Bool → Reduction × Result
apply_polled c actor e audit_ok =
    let (life, r) = Lifecycle.apply c.life actor e audit_ok in
    if ltb e.slot slot_count
      && (bit c.inhibited e.slot != 0)
      && ((e.op == Op.reserve) || (e.op == Op.activate))
    then (c, Lifecycle.result Status.denied 0)
    else (record c { life = life }, r)

-- `tcs_rd_apply`
unfoldable pub apply : Reduction → ℕ → Actor → Event → Bool → Reduction × Result
apply c sample actor e audit_ok =
    let (polled, status) = poll c sample in
    elim status [
      | invalid_state ↦ (polled, Lifecycle.result Status.invalid 0)
      | _ ↦ apply_polled polled actor e audit_ok
    ]

-- The loop of `tcs_rd_stop_mask`
unfoldable pub mask_from : Lifecycle → ℕ → ℕ → ℕ → ℕ
mask_from life zero i mask = mask
mask_from life (suc n) i mask =
    let s = life.slots i in
    mask_from life n (i + 1)
      (if (s.state == Phase.closing) && (s.stopped == 0) then bit_or mask (2 ^ i) else mask)

-- `tcs_rd_stop_mask`
unfoldable pub stop_mask : Reduction → ℕ
stop_mask c = if not (valid c) then all_slots else mask_from c.life slot_count 0 0

-- `tcs_rd_allows`
unfoldable pub allows : Reduction → ℕ → ℕ → Bool
allows c slot incarnation =
    valid c
    && ltb slot slot_count
    && not (bit c.inhibited slot != 0)
    && Lifecycle.allows c.life slot incarnation

-- `tcs_rd_publish`: the mailbox word after it, and whether the request was published.
unfoldable pub publish : ℕ → ℕ → ℕ × Bool
publish mailbox requests =
    if requests / 4 != 0 then (mailbox, false) else (bit_or mailbox requests, true)
