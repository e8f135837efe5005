-- ===== src/Servers/Examples.antt =====
-- The servers at concrete inputs.
use tcs.Prelude.{
  ◌≡◌, ◌≢◌, ◌⊎◌, ◌<◌, inl, refl, true, [], ◌∷◌, ◌++◌, ℕ, false, ◌==◌, if◌then◌else◌, replicate,
  arith,
}
use tcs.Policy
use tcs.Policy.Op
use tcs.Policy.Status
use tcs.Policy.Types.{restricted, active, client_subject, the_object, read_right}
use tcs.Policy.Invariant
use tcs.Policy.Access.{MayRead}
use tcs.Ipc.{
  Message, message, op_label, reply, response, policy_call, snapshot_response, audit_append,
  audit_capacity,
}
use tcs.Servers.Audit
use tcs.Servers.Audit.{Audit}
use tcs.Servers.Audit.Log
use tcs.Servers.Audit.Log.{log, keep, protected_refines}
use tcs.Servers.Client
use tcs.Servers.Console
use tcs.Servers.PolicyServer
use tcs.Servers.PolicyServer.{channel_actor, request, decision_record}
use tcs.Servers.Storage
use tcs.Servers.Storage.{sample}
use tcs.Servers.System.{
  System, inspect, step, administer, use_client, policy_step, storage_step, client_step, run,
}
use tcs.Servers.System.Reads.{read_of, read_message, client_reads}
use tcs.Servers.System.Trail.{policy_step_trail}
use tcs.Servers.System.Revocation.{control_message, client_revoked}

abbrev fresh : System
fresh = record {
  policy = record {
    live = record {
      subjects = λ i. record { generation = 0; object = 0; rights = 0; state = restricted };
    };
    ready = true;
  };
  audit = record { records = replicate 64 []; count = 0 };
}

abbrev grant_message : Message
grant_message = message (op_label Op.grant) (client_subject ∷ the_object ∷ read_right ∷ 0 ∷ [])

-- The console opens session 1 of the client.
abbrev opened : System
opened = (policy_step fresh 0 grant_message).0

fresh-IsValid : Invariant.IsValid fresh.policy.live
fresh-IsValid i h = record { bounded = ground arith; holds = ground arith; empty = ground arith }

fresh_log-IsValid : Log.IsValid fresh.audit
fresh_log-IsValid = record { storage = refl; fits = omega arith }

-- The channels of the console.
abbrev console_call : System → ℕ → Message → System × Message
console_call s ch m =
    if ch == 0 then policy_step s 0 m else if ch == 1 then client_step s 0 m else step s (inspect m)

-- The console finds nothing wrong with the servers that have just started.
console_passes : (Console.init console_call fresh).1 ≡ false
unfolding Console.init Console.whole Console.open_session Console.close_sessions Console.misuse
    Console.exhaust_log Console.fill Console.expect Console.expect_self Console.control
    Console.grant Console.read_object step policy_step client_step storage_step
    PolicyServer.protected Storage.protected Client.protected Audit.protected policy_call
    Policy.apply Policy.apply_grant Policy.check Policy.commit Policy.self_status
    Policy.apply_reduction reply response snapshot_response Audit.append PolicyServer.decide
console_passes = refl

-- The client reads the fixture in its session, and the log tells it.
session_read : (client_step opened 0 (read_message 42 1 1)).1 ≡ reply (Policy.result 0 sample)
unfolding policy_step client_step storage_step PolicyServer.protected Storage.protected
    Client.protected Audit.protected policy_call Policy.apply Policy.apply_grant Policy.check
    Policy.commit reply response Audit.append PolicyServer.decide
session_read = refl

-- Session 3 of the client is open, and nothing is on record.
abbrev reading : System
reading = record {
  policy = record {
    live = record {
      subjects =
          Policy.update (λ i. record { generation = 0; object = 0; rights = 0; state = restricted })
            1 (record { generation = 3; object = the_object; rights = read_right; state = active });
    };
    ready = true;
  };
  audit = fresh.audit;
}

reading-IsValid : Invariant.IsValid reading.policy.live
reading-IsValid i h = record { bounded = ground arith; holds = ground arith; empty = ground arith }

protected_refines_example :
    let (next, answer) =
      Audit.protected fresh.audit 0 (message (op_label audit_append) (replicate 7 5)) in
    Log.IsValid next
    × ((log next, answer)
        ≡ keep (log fresh.audit) 0 (message (op_label audit_append) (replicate 7 5)))
protected_refines_example =
    protected_refines fresh.audit 0 (message (op_label audit_append) (replicate 7 5))
      fresh_log-IsValid

client_reads_example :
    let answer = (client_step reading 0 (read_message 42 1 3)).1 in
    ((answer ≡ reply (Policy.result Status.ok sample))
      × MayRead (reading.policy.live.subjects client_subject) (read_of 42 1 3)
      × (reading.audit.count < audit_capacity))
    ⊎ (((response answer).status ≢ Status.ok)
        × ((response answer).value ≡ 0)
        × (¬ (
            MayRead (reading.policy.live.subjects client_subject) (read_of 42 1 3)
            × (reading.audit.count < audit_capacity))))
client_reads_example = client_reads reading refl 42 1 3 reading-IsValid fresh_log-IsValid

policy_step_trail_example :
    let next = (policy_step reading 0 (control_message Op.revoke)).0 in
    let r = request (control_message Op.revoke) in
    let decision = (Policy.apply reading.policy.live (channel_actor 0) r).1 in
    Log.IsValid next.audit
    × (((next.policy ≡ reading.policy) × (log next.audit ≡ log reading.audit))
        ⊎ (log next.audit ≡ log reading.audit ++ decision_record r (channel_actor 0) decision ∷ [])
        ⊎ ((log next.audit ≡ log reading.audit)
            × (reading.audit.count ≡ audit_capacity)
            × ((r.op ≡ Op.revoke) ⊎ (r.op ≡ Op.quarantine))))
policy_step_trail_example =
    policy_step_trail reading 0 (control_message Op.revoke) fresh_log-IsValid

-- The console revokes the client, opens a new session, and the client tries the old one.
client_revoked_example :
    let after = (policy_step reading 0 (control_message Op.revoke)).0 in
    let answer =
      (client_step
        (run after (administer grant_message ∷ use_client (read_message 42 1 5) ∷ []))
        0
        (read_message 42 1 3)).1 in
    ((response answer).status ≢ Status.ok) × ((response answer).value ≡ 0)
client_revoked_example =
    client_revoked reading Op.revoke
      (administer grant_message ∷ use_client (read_message 42 1 5) ∷ []) 42 1 3 refl reading-IsValid
      (inl refl) (omega arith)
