-- ===== src/Servers/System/Reads.antt =====
-- What a read through the client gives.
use tcs.Prelude.{
  ℕ, ◌<◌, ◌≡◌, ◌≢◌, ◌⊎◌, refl, ap, true, ltb, ◌==◌, ◌↔◌, if◌then◌else◌, arith, [], ◌∷◌,
}
use tcs.Policy
use tcs.Policy.Op
use tcs.Policy.Status
use tcs.Policy.Types.{storage, Actor, Request, client_subject, Result}
use tcs.Policy.Invariant
use tcs.Policy.Access.{MayRead, check-ok_iff}
use tcs.Ipc.{Message, message, op_label, client_read, audit_capacity, policy_call, response, reply}
use tcs.Servers.Audit
use tcs.Servers.Audit.{Audit}
use tcs.Servers.Audit.Log
use tcs.Servers.Storage
use tcs.Servers.Storage.{sample}
use tcs.Servers.Client
use tcs.Servers.PolicyServer
use tcs.Servers.PolicyServer.{PolicyServer}
use tcs.Servers.PolicyServer.Decisions.{decide_lem, decided, on_record, served}
use tcs.Servers.System.{System, audit_step, policy_step, storage_step, client_step}
use tcs.Servers.System.Confinement.{check_message}

-- A decision gets on record exactly while the log has room.
pub on_record-room :
    (s : System) (actor : Actor) (r : Request)
    → Log.IsValid s.audit
    → on_record audit_step s.policy s.audit actor r ≡ ltb s.audit.count audit_capacity
unfolding Audit.protected Audit.append response reply
on_record-room s actor r v = ground arith

-- The request of a read.
abbrev pub read_of : ℕ → ℕ → ℕ → Request
read_of object rights generation = record {
  op = Op.check;
  subject = client_subject;
  object = object;
  rights = rights;
  generation = generation;
}

-- A read as it is sent to the client.
abbrev pub read_message : ℕ → ℕ → ℕ → Message
read_message object rights generation =
    message (op_label client_read) (object ∷ rights ∷ generation ∷ [])

-- The words that the client gets back for a result of the policy server.
abbrev pub disclosed : Result → Result
disclosed d = Policy.result d.status (if d.status == Status.ok then sample else 0)

module _ (s : System) (ready : s.policy.ready ≡ true) (object rights generation : ℕ) where
  abbrev pub wanted : Request
  wanted = read_of object rights generation

  abbrev pub granted : Result
  granted = (served audit_step s.policy s.audit storage wanted).1

  check_decided :
      PolicyServer.protected audit_step s.policy s.audit 1 (check_message wanted)
      ≡ decided audit_step s.policy s.audit storage wanted
  unfolding PolicyServer.protected
  check_decided = ground (arith, decide_lem audit_step s.policy s.audit storage wanted)

  check_granted :
      response (PolicyServer.protected audit_step s.policy s.audit 1 (check_message wanted)).2
      ≡ granted
  unfolding response reply
  check_granted = ap (λ (x : PolicyServer × Audit × Message). response x.2) check_decided

  pub client_read_lem :
      (client_step s 0 (read_message object rights generation)).1 ≡ reply (disclosed granted)
  unfolding client_step Client.protected storage_step Storage.protected policy_call policy_step
  client_read_lem = ap (λ (x : Result). reply (disclosed x)) check_granted

  pub granted_iff : (granted.status ≡ Status.ok) ↔ (
      ((Policy.apply s.policy.live storage wanted).1.status ≡ Status.ok)
      × (on_record audit_step s.policy s.audit storage wanted ≡ true))
  unfolding Policy.serve Policy.commit
  granted_iff = (ground arith, ground arith)

  -- A read through the client is answered with the fixture exactly if the client's subject may read,
  -- in its current session, and the log has room for the decision; otherwise the answer is a refusal
  -- with the value zero.
  pub client_reads :
      Policy.Invariant.IsValid s.policy.live
      → Log.IsValid s.audit
      → let answer = (client_step s 0 (read_message object rights generation)).1 in
        ((answer ≡ reply (Policy.result Status.ok sample))
          × MayRead (s.policy.live.subjects client_subject) wanted
          × (s.audit.count < audit_capacity))
        ⊎ (((response answer).status ≢ Status.ok)
            × ((response answer).value ≡ 0)
            × (¬ (
                MayRead (s.policy.live.subjects client_subject) wanted
                × (s.audit.count < audit_capacity))))
  unfolding response reply
  client_reads v l =
      let room = on_record-room s storage wanted l in
      let may = check-ok_iff s.policy.live storage wanted v refl in
      rw client_read_lem (ground (arith, granted_iff, room, may))
