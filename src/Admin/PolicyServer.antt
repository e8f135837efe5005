-- ===== src/Admin/PolicyServer.antt =====
-- servers/admin_policy.c: the owner of the live policy that executes the administrator's commands.
use tcs.Prelude.{ℕ, Bool, not, ◌&&◌, ◌||◌, ltb, leb, ◌==◌, ◌!=◌, if◌then◌else◌, length}
use tcs.Policy
use tcs.Policy.Op
use tcs.Policy.Status
use tcs.Policy.Types.{Actor, admin, storage, Request, Result}
use tcs.Ipc.{
  Message, message, op_label, reply, response, snapshot_reply, self_status, audit_append,
  audit_capacity,
}
use tcs.Servers.PolicyServer.{request, decision_record}
use tcs.Admin.Ipc.{execute_label, execution_from_words, receipt_reply}
use tcs.Admin.Receipt.{compare_apply, Server, refused, executed, execute}
use tcs.Admin.Types.{Command}

-- The server of channel 2, called with the record of each decision.
module _ {S : Type 0} (audit : S → Message → S × Message) where
  -- `record_decision`: whether the decision is on record.
  unfoldable pub record_decision : S → Request → Actor → Result → S × Bool
  unfolding response
  record_decision s r actor decision =
      let (next, answer) =
        audit s (message (op_label audit_append) (decision_record r actor decision)) in
      let logged = response answer in
      (next, (logged.status == Status.ok) && leb 1 logged.value && leb logged.value audit_capacity)

  -- A request of storage, from the decision on.
  unfoldable pub decide_check : Server → S → Request → Server × S × Message
  unfolding record_decision reply
  decide_check server s r =
      let (candidate, decision) = Policy.apply server.live storage r in
      let (next, audit_ok) = record_decision s r storage decision in
      let (live, committed) = Policy.commit server.live candidate r decision audit_ok in
      (record server { live = live }, next, reply committed)

  -- The branch of channel 1.
  unfoldable pub serve_storage : Server → S → Message → Server × S × Message
  unfolding decide_check snapshot_reply reply
  serve_storage server s m =
      if m.label == op_label self_status
      then if length m.words != 0
        then (server, s, reply (Policy.result Status.bad_message 0))
        else (server, s, snapshot_reply (Policy.self_status server.live storage))
      else if (length m.words != 4)
          || ltb m.label (op_label Op.grant)
          || ltb (op_label Op.restore) m.label
      then (server, s, reply (Policy.result Status.bad_message 0))
      else decide_check server s (request m)

  -- The execution of a decoded command: only one that is executed is put on record.
  unfoldable pub serve_command : Server → S → Command → Server × S × Message
  unfolding record_decision receipt_reply reply
  serve_command server s c =
      let (next, audit_ok) =
        record_decision s c.request admin (compare_apply server.live admin c).1 in
      let (after, answer) = execute server c audit_ok in
      elim answer [
        | refused status ↦ (server, s, reply (Policy.result status 0))
        | executed receipt ↦ (after, next, receipt_reply receipt)
      ]

  -- `protected`
  unfoldable pub protected : Server → S → ℕ → Message → Server × S × Message
  unfolding serve_storage serve_command reply
  protected server s ch m =
      if not server.ready || ((ch != 0) && (ch != 1))
      then (server, s, reply (Policy.result Status.denied 0))
      else if ch == 1
      then serve_storage server s m
      else if (m.label != execute_label) || (length m.words != 6)
      then (server, s, reply (Policy.result Status.bad_message 0))
      else serve_command server s (execution_from_words m)
