-- ===== src/Admin/Receipt.antt =====
-- The execution of an admitted command and its receipt: lib/admin_policy.c, lib/admin_receipt.c and
-- the handler of servers/admin_policy.c, past the decoding of its message.
use tcs.Prelude.{
  ℕ, Bool, true, false, not, ◌&&◌, ◌||◌, ltb, leb, ◌==◌, ◌!=◌, if◌then◌else◌, u64_max, inc64,
}
use tcs.Policy
use tcs.Policy.Op
use tcs.Policy.Status
use tcs.Policy.Types.{
  Actor, admin, restricted, active, quarantined, state_code, is_admin, Policy, Result, Snapshot,
  subject_count, the_object, read_right,
}
use tcs.Admin.Types.{Command}

-- `struct tcs_admin_receipt`
pub record Receipt : Type 0 where
  pub command : Command
  pub decision : ℕ
  pub audit_ok : ℕ
  pub applied : ℕ
  pub post : Snapshot

-- `tcs_admin_execution_valid`
unfoldable pub execution_valid : Command → Bool
execution_valid c =
    let r = c.request in
    if (c.sequence == 0) || leb subject_count r.subject || (r.generation != 0)
    then false
    else if r.op == Op.grant
    then (r.object == the_object) && (r.rights == read_right)
    else ((r.op == Op.revoke) || (r.op == Op.quarantine) || (r.op == Op.restore))
      && (r.object == 0)
      && (r.rights == 0)

abbrev pub flag : Bool → ℕ
flag b = if b then 1 else 0

abbrev pub is_reduction : ℕ → Bool
is_reduction op = (op == Op.revoke) || (op == Op.quarantine)

-- The first test of `tcs_admin_receipt_valid`: the receipt answers the command, with fields in range.
unfoldable pub answers : Command → Receipt → Bool
answers c r =
    let e = r.command in
    not (
      not (execution_valid c)
      || not (execution_valid e)
      || (c.sequence != e.sequence)
      || (c.expected_generation != e.expected_generation)
      || (c.request.op != e.request.op)
      || (c.request.subject != e.request.subject)
      || (c.request.object != e.request.object)
      || (c.request.rights != e.request.rights)
      || ltb 1 r.audit_ok
      || ltb 1 r.applied
      || not (Policy.snapshot_valid r.post))

-- The denials that a receipt may report.
unfoldable pub denial_ok : Command → Receipt → Bool
denial_ok c r =
    let op = c.request.op in
    if r.post.generation != c.expected_generation
    then false
    else ((r.decision == Status.isolated)
        && (op == Op.grant)
        && (r.post.state == state_code quarantined))
      || ((r.decision == Status.denied)
          && (op == Op.restore)
          && (r.post.state != state_code quarantined))
      || ((r.decision == Status.exhausted)
          && (op == Op.grant)
          && (r.post.generation == u64_max)
          && (r.post.state != state_code quarantined))

-- The state that the command leaves, from `if (!applied)` on.
unfoldable pub state_ok : Command → Receipt → Bool → Bool
state_ok c r applied =
    let op = c.request.op in
    if not applied
    then if op == Op.restore
      then r.post.state == state_code quarantined
      else (op == Op.grant) && (r.post.state != state_code quarantined)
    else if op == Op.grant
    then r.post.state == state_code active
    else if op == Op.quarantine
    then r.post.state == state_code quarantined
    else if op == Op.restore
    then r.post.state == state_code restricted
    else r.post.state != state_code active

-- `tcs_admin_receipt_valid`
unfoldable pub receipt_valid : Command → Receipt → Bool
receipt_valid c r =
    let op = c.request.op in
    let applied = (r.decision == Status.ok) && ((r.audit_ok != 0) || is_reduction op) in
    let generation =
      if applied && (c.expected_generation != u64_max)
      then inc64 c.expected_generation
      else c.expected_generation in
    if not (answers c r)
    then false
    else if r.applied != flag applied
    then false
    else if r.decision == Status.stale
    then r.post.generation != c.expected_generation
    else if r.decision != Status.ok
    then denial_ok c r
    else if (op == Op.grant) && (c.expected_generation == u64_max)
    then false
    else if r.post.generation != generation
    then false
    else state_ok c r applied

-- `tcs_policy_admin_compare_apply`: the new candidate and the decision.
unfoldable pub compare_apply : Policy → Actor → Command → Policy × Result
compare_apply p actor c =
    let r = c.request in
    if not (is_admin actor)
    then (p, Policy.result Status.denied 0)
    else if (c.sequence == 0)
        || leb subject_count r.subject
        || ltb r.op Op.grant
        || ltb Op.restore r.op
        || (r.op == Op.check)
    then (p, Policy.result Status.bad_message 0)
    else if (p.subjects r.subject).generation != c.expected_generation
    then (p, Policy.result Status.stale 0)
    else Policy.apply p actor r

-- The state of servers/admin_policy.c
pub record Server : Type 0 where
  pub live : Policy
  pub ready : Bool
  pub execution_sequence : ℕ
  pub execution_exhausted : Bool

pub data Reply : Type 0 where
  refused : ℕ → Reply
  executed : Receipt → Reply

-- The decision, its commit and the receipt; `audit_ok` is the answer of the audit server.
unfoldable pub execute_command : Policy → Command → Bool → Policy × Receipt
execute_command live c audit_ok =
    let (candidate, decision) = compare_apply live admin c in
    let next = (Policy.commit live candidate c.request decision audit_ok).0 in
    let s = next.subjects c.request.subject in
    (
      next,
      record {
        command = c;
        decision = decision.status;
        audit_ok = flag audit_ok;
        applied = flag ((decision.status == Status.ok) && (audit_ok || is_reduction c.request.op));
        post = record {
          status = Status.ok;
          state = state_code s.state;
          generation = s.generation;
          object = s.object;
          rights = s.rights;
        };
      },
    )

-- The handler of an execution message.
unfoldable pub execute : Server → Command → Bool → Server × Reply
execute server c audit_ok =
    let (next, receipt) = execute_command server.live c audit_ok in
    let last = server.execution_sequence == u64_max in
    if not (execution_valid c)
    then (server, refused Status.bad_message)
    else if server.execution_exhausted || (c.sequence != server.execution_sequence)
    then (server, refused Status.stale)
    else (
      record server {
        live = next;
        execution_sequence =
            if last then server.execution_sequence else inc64 server.execution_sequence;
        execution_exhausted = if last then true else server.execution_exhausted;
      },
      executed receipt,
    )
