-- ===== src/Lifecycle.antt =====
-- lib/lifecycle.c and include/tcs/lifecycle.h: the one-use lifecycle of two worker slots. A function
-- that updates `*life` returns the new state beside its result; pointers are not null.
pub mod Types
pub mod Op
pub mod Phase
pub mod Status
pub mod Valid
pub mod Evolution
pub mod Invariant
pub mod Gate
pub mod History
mod Examples
use tcs.Prelude.{
  ℕ, zero, suc, ◌+◌, Bool, true, false, not, ◌&&◌, ◌||◌, ltb, leb, ◌==◌, ◌!=◌, if◌then◌else◌,
  u64_max, inc64,
}
use Types.{
  Actor, unknown, admin, supervisor, broker, detector, worker, Slot, Lifecycle, Event, Result,
  slot_count,
}

-- The tests of `tcs_lc_valid` on one slot in use, before and after those on the incarnations.
abbrev pub slot_in_use_ok : Slot → Bool
slot_in_use_ok s =
    if ((s.state == Phase.starting) || (s.state == Phase.ready))
      && ((s.issued != 0) || (s.pending != 0))
    then false
    else if ltb s.state Phase.closing && ((s.stopped != 0) || (s.drained != 0))
    then false
    else if (s.drained != 0) && (s.pending != 0)
    then false
    else if (s.state == Phase.closing) && (s.stopped != 0) && (s.drained != 0)
    then false
    else if (s.state == Phase.retired) && ((s.stopped == 0) || (s.drained == 0) || (s.pending != 0))
    then false
    else true

-- The inner loop: no slot below `i` has this incarnation.
unfoldable pub distinct_below : Lifecycle → ℕ → ℕ → Bool
distinct_below life incarnation zero = true
distinct_below life incarnation (suc j) =
    (incarnation != (life.slots j).incarnation) && distinct_below life incarnation j

-- The body of the loop of `tcs_lc_valid`, without its count.
unfoldable pub slot_ok : Lifecycle → ℕ → Bool
unfolding distinct_below
slot_ok life i =
    let s = life.slots i in
    if ltb Phase.retired s.state || ltb 1 s.stopped || ltb 1 s.drained
    then false
    else if s.state == Phase.unused
    then not (
        (s.incarnation != 0)
        || (s.issued != 0)
        || (s.pending != 0)
        || (s.stopped != 0)
        || (s.drained != 0))
    else if (s.incarnation == 0)
        || ltb life.last_incarnation s.incarnation
        || ((s.pending != 0) && (s.pending != s.issued))
    then false
    else if not (distinct_below life s.incarnation i)
    then false
    else slot_in_use_ok s

-- What the body adds to `occupied`.
abbrev pub occupies : Slot → ℕ
occupies s = if (s.state != Phase.unused) && (s.state != Phase.retired) then 1 else 0

-- The loop of `tcs_lc_valid` over the slots from `i` on, `n` of them, and the test at its end.
unfoldable pub valid_from : Lifecycle → ℕ → ℕ → ℕ → Bool
valid_from life zero i occupied = leb occupied 1
valid_from life (suc n) i occupied =
    let rest = valid_from life n (i + 1) (occupied + occupies (life.slots i)) in
    if slot_ok life i then rest else false

-- `tcs_lc_valid`
unfoldable pub valid : Lifecycle → Bool
valid life = valid_from life slot_count 0 0

-- `tcs_lc_allows`
unfoldable pub allows : Lifecycle → ℕ → ℕ → Bool
allows life slot incarnation =
    valid life
    && ltb slot slot_count
    && (incarnation != 0)
    && ((life.slots slot).state == Phase.active)
    && ((life.slots slot).incarnation == incarnation)

abbrev pub is_admin : Actor → Bool
is_admin admin = true
is_admin _ = false

abbrev pub is_supervisor : Actor → Bool
is_supervisor supervisor = true
is_supervisor _ = false

abbrev pub is_broker : Actor → Bool
is_broker broker = true
is_broker _ = false

abbrev pub is_detector : Actor → Bool
is_detector detector = true
is_detector _ = false

-- `permitted`
unfoldable pub permitted : Actor → ℕ → Bool
permitted actor op =
    if (op == Op.reserve) || (op == Op.activate)
    then is_admin actor
    else if (op == Op.started) || (op == Op.stopped)
    then is_supervisor actor
    else if (op == Op.begin) || (op == Op.complete) || (op == Op.drained)
    then is_broker actor
    else if op == Op.contain
    then is_admin actor || is_supervisor actor || is_detector actor
    else false

abbrev pub result : ℕ → ℕ → Result
result status value = record { status = status; value = value }

abbrev pub update : (ℕ → Slot) → ℕ → Slot → ℕ → Slot
update f i s j = if j == i then s else f j

-- `next.slots[i] = s`, the rest of `next` as in `life`
abbrev pub store : Lifecycle → ℕ → Slot → Lifecycle
store life i s = record life { slots = update life.slots i s }

-- The loop of the reserve case: some slot is neither unused nor retired.
unfoldable pub any_occupied : Lifecycle → ℕ → Bool
any_occupied life zero = false
any_occupied life (suc i) =
    let s = life.slots i in
    ((s.state != Phase.unused) && (s.state != Phase.retired)) || any_occupied life i

-- `case TCS_LC_RESERVE`
unfoldable pub reserve : Lifecycle → Event → Bool → Lifecycle × Result
unfolding any_occupied
reserve life e audit_ok =
    let s = life.slots e.slot in
    let incarnation = inc64 life.last_incarnation in
    if s.state != Phase.unused
    then (life, result Status.bad_state 0)
    else if any_occupied life slot_count
    then (life, result Status.bad_state 0)
    else if life.last_incarnation == u64_max
    then (life, result Status.exhausted 0)
    else if not audit_ok
    then (life, result Status.audit_required 0)
    else (
      record {
        last_incarnation = incarnation;
        slots =
            update life.slots e.slot
              (record s { incarnation = incarnation; state = Phase.starting });
      },
      result Status.ok incarnation,
    )

-- `case TCS_LC_STARTED`
unfoldable pub started : Lifecycle → Event → Lifecycle × Result
started life e =
    let s = life.slots e.slot in
    if s.state != Phase.starting
    then (life, result Status.bad_state 0)
    else (store life e.slot (record s { state = Phase.ready }), result Status.ok s.incarnation)

-- `case TCS_LC_ACTIVATE`
unfoldable pub activate : Lifecycle → Event → Bool → Lifecycle × Result
activate life e audit_ok =
    let s = life.slots e.slot in
    if s.state != Phase.ready
    then (life, result Status.bad_state 0)
    else if not audit_ok
    then (life, result Status.audit_required 0)
    else (store life e.slot (record s { state = Phase.active }), result Status.ok s.incarnation)

-- `case TCS_LC_BEGIN`
unfoldable pub begin : Lifecycle → Event → Lifecycle × Result
begin life e =
    let s = life.slots e.slot in
    let issued = inc64 s.issued in
    if (s.state != Phase.active) || (s.pending != 0)
    then (life, result Status.bad_state 0)
    else if s.issued == u64_max
    then (life, result Status.exhausted 0)
    else (
      store life e.slot (record s { issued = issued; pending = issued }),
      result Status.ok issued,
    )

-- `case TCS_LC_COMPLETE`
unfoldable pub complete : Lifecycle → Event → Lifecycle × Result
complete life e =
    let s = life.slots e.slot in
    if s.state != Phase.active
    then (life, result Status.bad_state 0)
    else if s.pending != e.sequence
    then (life, result Status.stale 0)
    else (store life e.slot (record s { pending = 0 }), result Status.ok e.sequence)

-- `case TCS_LC_CONTAIN`
unfoldable pub contain : Lifecycle → Event → Lifecycle × Result
contain life e =
    let s = life.slots e.slot in
    if ltb s.state Phase.starting || ltb Phase.active s.state
    then (life, result Status.bad_state 0)
    else (store life e.slot (record s { state = Phase.closing }), result Status.ok s.incarnation)

-- The last line of the stop and drain case.
abbrev pub retire : Slot → Slot
retire s = record s {
  state = if (s.stopped != 0) && (s.drained != 0) then Phase.retired else s.state;
}

-- `case TCS_LC_STOPPED: case TCS_LC_DRAINED`
unfoldable pub confirm : Lifecycle → Event → Lifecycle × Result
confirm life e =
    let s = life.slots e.slot in
    if s.state != Phase.closing
    then (life, result Status.bad_state 0)
    else if e.sequence != s.issued
    then (life, result Status.stale 0)
    else if e.op == Op.stopped
    then if s.stopped != 0
      then (life, result Status.bad_state 0)
      else (store life e.slot (retire (record s { stopped = 1 })), result Status.ok s.incarnation)
    else if s.drained != 0
    then (life, result Status.bad_state 0)
    else (
      store life e.slot (retire (record s { drained = 1; pending = 0 })),
      result Status.ok s.incarnation,
    )

-- The `switch` of `tcs_lc_apply`
unfoldable pub dispatch : Lifecycle → Event → Bool → Lifecycle × Result
dispatch life e audit_ok =
    if e.op == Op.reserve
    then reserve life e audit_ok
    else if e.op == Op.started
    then started life e
    else if e.op == Op.activate
    then activate life e audit_ok
    else if e.op == Op.begin
    then begin life e
    else if e.op == Op.complete
    then complete life e
    else if e.op == Op.contain
    then contain life e
    else if (e.op == Op.stopped) || (e.op == Op.drained)
    then confirm life e
    else (life, result Status.invalid 0)

-- The tests of `tcs_lc_apply` on the numbers that an event carries.
abbrev pub malformed : Event → Bool
malformed e =
    ((e.op != Op.complete) && (e.op != Op.stopped) && (e.op != Op.drained) && (e.sequence != 0))
    || ((e.op == Op.complete) && (e.sequence == 0))
    || (if e.op == Op.reserve then e.incarnation != 0 else e.incarnation == 0)

-- `tcs_lc_apply`
unfoldable pub apply : Lifecycle → Actor → Event → Bool → Lifecycle × Result
apply life actor e audit_ok =
    if not (valid life) || leb slot_count e.slot || ltb e.op Op.reserve || ltb Op.drained e.op
    then (life, result Status.invalid 0)
    else if not (permitted actor e.op)
    then (life, result Status.denied 0)
    else if malformed e
    then (life, result Status.invalid 0)
    else if (e.op != Op.reserve) && (e.incarnation != (life.slots e.slot).incarnation)
    then (life, result Status.stale 0)
    else dispatch life e audit_ok

-- The event that contains the current incarnation of a slot.
abbrev pub containment : Lifecycle → ℕ → Event
containment life i = record {
  op = Op.contain;
  slot = i;
  incarnation = (life.slots i).incarnation;
  sequence = 0;
}
