-- ===== src/Servers/PolicyServer/Decisions.antt =====
-- The handler of servers/policy.c against the serving of requests in Policy.
use tcs.Prelude.{ℕ, ◌≡◌, ◌⊎◌, inr, refl, Bool, true, ◌==◌, arith, length, ◌≤◌}
use tcs.Policy
use tcs.Policy.Op
use tcs.Policy.Status
use tcs.Policy.Types.{Actor, Policy, Request, Result}
use tcs.Policy.Invariant.{apply_unchanged}
use tcs.Ipc.{Message, message, op_label, reply, response, audit_append}
use tcs.Servers.PolicyServer.{
  PolicyServer, decide, protected, request, channel_actor, decision_record,
}

module _ {S : Type 0} (audit : S → Message → S × Message) (p : PolicyServer) (s : S) where
  -- The protected call of the audit server for a request.
  abbrev pub logged : Actor → Request → S × Message
  logged actor r =
      audit s
        (message (op_label audit_append) (decision_record r actor (Policy.apply p.live actor r).1))

  -- Whether the decision is on record.
  abbrev pub on_record : Actor → Request → Bool
  on_record actor r = (response (logged actor r).1).status == Status.ok

  abbrev pub served : Actor → Request → Policy × Result
  served actor r = Policy.serve p.live actor r (on_record actor r)

  -- What deciding a request leaves and answers.
  abbrev pub decided : Actor → Request → PolicyServer × S × Message
  decided actor r =
      (record p { live = (served actor r).0 }, (logged actor r).0, reply (served actor r).1)

  pub decide_lem : (actor : Actor) (r : Request) → decide audit p s actor r ≡ decided actor r
  unfolding decide Policy.serve
  decide_lem actor r = refl

  -- A message that carries a request from one of the two callers.
  pub record IsRequest (ch : ℕ) (m : Message) : Type 0 where
    pub is_ready : p.ready ≡ true
    pub caller : (ch ≡ 0) ⊎ (ch ≡ 1)
    pub size : length m.words ≡ 4
    pub lowest : op_label Op.grant ≤ m.label
    pub highest : m.label ≤ op_label Op.restore

  -- Every message is either a request, which is decided and recorded for the actor of its channel,
  -- or it changes neither the policy nor the audit server.
  pub protected_cases :
      (ch : ℕ) (m : Message)
      → (IsRequest ch m × (protected audit p s ch m ≡ decided (channel_actor ch) (request m)))
        ⊎ (((protected audit p s ch m).0 ≡ p) × ((protected audit p s ch m).1 ≡ s))
  unfolding protected
  protected_cases ch m = ground (arith, decide_lem (channel_actor ch) (request m))

  -- A check leaves the policy as it was, whatever the audit server answers.
  pub served-check : (actor : Actor) (r : Request) → r.op ≡ Op.check → (served actor r).0 ≡ p.live
  unfolding Policy.serve Policy.commit
  served-check actor r e = ground (arith, apply_unchanged p.live actor r (inr e))
