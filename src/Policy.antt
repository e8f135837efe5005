-- ===== src/Policy.antt =====
-- lib/policy.c and include/tcs/policy.h: the allocation-free policy state machine. A function that
-- updates `*policy` returns the new policy beside its result.
pub mod Types
pub mod Op
pub mod Status
pub mod Evolution
pub mod Invariant
pub mod Access
pub mod History
mod Examples
use tcs.Prelude.{
  ℕ, ◌+◌, Bool, true, false, not, ◌&&◌, ◌||◌, ltb, leb, ◌==◌, ◌!=◌, if◌then◌else◌, u64_max, inc64,
}
use Types.{
  Actor, State, restricted, active, quarantined, Subject, Policy, Request, Result, Snapshot,
  is_admin, is_storage, is_active, is_quarantined, state_code, subject_count, client_subject,
  the_object, read_right,
}

abbrev pub result : ℕ → ℕ → Result
result status value = record { status = status; value = value }

abbrev pub update : (ℕ → Subject) → ℕ → Subject → ℕ → Subject
update f i s j = if j == i then s else f j

-- `policy->subjects[i] = s`
abbrev pub store : Policy → ℕ → Subject → Policy
store p i s = record p { subjects = update p.subjects i s }

abbrev pub no_snapshot : ℕ → Snapshot
no_snapshot status = record { status = status; state = 0; generation = 0; object = 0; rights = 0 }

-- `tcs_snapshot_valid`
unfoldable pub snapshot_valid : Snapshot → Bool
snapshot_valid s =
    if (s.status != Status.ok) || ltb (state_code quarantined) s.state
    then false
    else if s.state == state_code active
    then (s.generation != 0) && (s.object == the_object) && (s.rights == read_right)
    else (s.object == 0) && (s.rights == 0)

-- `tcs_policy_self_status`
unfoldable pub self_status : Policy → Actor → Snapshot
unfolding snapshot_valid
self_status p actor =
    let s = p.subjects client_subject in
    let snapshot : Snapshot = record {
      status = Status.ok;
      state = state_code s.state;
      generation = s.generation;
      object = s.object;
      rights = s.rights;
    } in
    if not (is_storage actor)
    then no_snapshot Status.denied
    else if snapshot_valid snapshot
    then snapshot
    else no_snapshot Status.bad_message

-- The generation after a reduction: it stays at its last value.
abbrev pub next_generation : ℕ → ℕ
next_generation g = if g != u64_max then inc64 g else g

-- The state that a revocation, a quarantine or a restoration leaves.
abbrev pub reduced_state : ℕ → State → State
reduced_state op state =
    if op == Op.quarantine
    then quarantined
    else if (op == Op.restore) || not (is_quarantined state)
    then restricted
    else state

-- The branch of `tcs_policy_apply` for revoke, quarantine and restore.
unfoldable pub apply_reduction : Policy → Request → Policy × Result
apply_reduction p r =
    let s = p.subjects r.subject in
    let generation = next_generation s.generation in
    if (r.object != 0) || (r.rights != 0) || (r.generation != 0)
    then (p, result Status.bad_message 0)
    else if (r.op == Op.restore) && not (is_quarantined s.state)
    then (p, result Status.denied 0)
    else (
      store p r.subject (record {
        generation = generation;
        object = 0;
        rights = 0;
        state = reduced_state r.op s.state;
      }),
      result Status.ok generation,
    )

-- The branch for grant, past the tests on quarantine, object and rights.
unfoldable pub apply_grant : Policy → Request → Policy × Result
apply_grant p r =
    let s = p.subjects r.subject in
    let generation = inc64 s.generation in
    if r.generation != 0
    then (p, result Status.bad_message 0)
    else if s.generation == u64_max
    then (p, result Status.exhausted 0)
    else (
      store p r.subject (record {
        generation = generation;
        object = r.object;
        rights = r.rights;
        state = active;
      }),
      result Status.ok generation,
    )

-- The branch for check, past the same tests.
unfoldable pub check : Subject → Request → Result
check s r =
    if not (is_active s.state) || (s.rights != read_right)
    then result Status.denied 0
    else if (r.generation == 0) || (r.generation != s.generation)
    then result Status.stale 0
    else if s.object != r.object
    then result Status.denied 0
    else result Status.ok s.generation

abbrev pub is_reduction : ℕ → Bool
is_reduction op = (op == Op.revoke) || (op == Op.quarantine) || (op == Op.restore)

-- `tcs_policy_apply`
unfoldable pub apply : Policy → Actor → Request → Policy × Result
apply p actor r =
    let s = p.subjects r.subject in
    if leb subject_count r.subject || ltb r.op Op.grant || ltb Op.restore r.op
    then (p, result Status.bad_message 0)
    else if ((r.op == Op.check) && not (is_storage actor))
        || ((r.op != Op.check) && not (is_admin actor))
    then (p, result Status.denied 0)
    else if is_reduction r.op
    then apply_reduction p r
    else if is_quarantined s.state
    then (p, result Status.isolated 0)
    else if (r.object != the_object) || (r.rights != read_right)
    then (p, result Status.denied 0)
    else if r.op == Op.grant
    then apply_grant p r
    else (p, check s r)

-- `tcs_policy_commit`: the new live policy, and the result that is reported.
unfoldable pub commit : Policy → Policy → Request → Result → Bool → Policy × Result
commit live candidate r decision audit_ok =
    let reduction = (r.op == Op.revoke) || (r.op == Op.quarantine) in
    (
      if (decision.status == Status.ok) && (audit_ok || reduction) then candidate else live,
      if audit_ok then decision else result Status.audit_full 0,
    )

-- One request as servers/policy.c serves it: a decision on a copy, then a commit that depends on the
-- answer of the audit server.
unfoldable pub serve : Policy → Actor → Request → Bool → Policy × Result
unfolding commit
serve live actor r audit_ok =
    let (candidate, decision) = apply live actor r in commit live candidate r decision audit_ok
