-- ===== src/Servers/System/Trail.antt =====
-- What is on record of the decisions that the policy server makes.
use tcs.Prelude.{ℕ, ◌≡◌, ◌⊎◌, ap, ◌∙◌, false, ltb, if◌then◌else◌, arith, List, [], ◌∷◌, ◌++◌}
use tcs.Policy
use tcs.Policy.Op
use tcs.Policy.Types.{Actor, Request}
use tcs.Ipc.{Message, message, op_label, audit_append, audit_capacity}
use tcs.Servers.Audit.Log
use tcs.Servers.Audit.Log.{log, keep, protected_refines, length-log}
use tcs.Servers.PolicyServer.{channel_actor, request, decision_record}
use tcs.Servers.PolicyServer.Decisions.{protected_cases, served, on_record, logged}
use tcs.Servers.System.{System, audit_step, policy_step}
use tcs.Servers.System.Reads.{on_record-room}

-- A record is added exactly while there is room.
logged-log :
    (s : System) (actor : Actor) (r : Request)
    → Log.IsValid s.audit
    → let next = (logged audit_step s.policy s.audit actor r).0 in
      let d = decision_record r actor (Policy.apply s.policy.live actor r).1 in
      Log.IsValid next
      × (log next
          ≡ (if ltb s.audit.count audit_capacity then log s.audit ++ d ∷ [] else log s.audit))
unfolding keep
logged-log s actor r v =
    let d = decision_record r actor (Policy.apply s.policy.live actor r).1 in
    let (valid, kept) = protected_refines s.audit 0 (message (op_label audit_append) d) v in
    (valid, ap (λ (x : List (List ℕ) × Message). x.0) kept ∙ ground (arith, length-log s.audit v))

-- Where nothing is on record, only a revocation or a quarantine changes the policy.
served-unrecorded :
    (s : System) (actor : Actor) (r : Request)
    → on_record audit_step s.policy s.audit actor r ≡ false
    → ((served audit_step s.policy s.audit actor r).0 ≡ s.policy.live)
      ⊎ (r.op ≡ Op.revoke)
      ⊎ (r.op ≡ Op.quarantine)
unfolding Policy.serve Policy.commit
served-unrecorded s actor r h = ground arith

-- With a valid log, any message on any channel of the policy server either leaves the policy and the
-- log as they were, or puts exactly its decision on record behind the others, or is a revocation or a
-- quarantine that comes while the log is full, which stays as it was.
pub policy_step_trail :
    (s : System) (ch : ℕ) (m : Message)
    → Log.IsValid s.audit
    → let next = (policy_step s ch m).0 in
      let r = request m in
      let decision = (Policy.apply s.policy.live (channel_actor ch) r).1 in
      Log.IsValid next.audit
      × (((next.policy ≡ s.policy) × (log next.audit ≡ log s.audit))
          ⊎ (log next.audit ≡ log s.audit ++ decision_record r (channel_actor ch) decision ∷ [])
          ⊎ ((log next.audit ≡ log s.audit)
              × (s.audit.count ≡ audit_capacity)
              × ((r.op ≡ Op.revoke) ⊎ (r.op ≡ Op.quarantine))))
unfolding policy_step
policy_step_trail s ch m v =
    let actor = channel_actor ch in
    let r = request m in
    ground (
      arith,
      protected_cases audit_step s.policy s.audit ch m,
      logged-log s actor r v,
      on_record-room s actor r v,
      served-unrecorded s actor r,
    )
