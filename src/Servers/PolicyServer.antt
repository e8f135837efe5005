-- ===== src/Servers/PolicyServer.antt =====
-- servers/policy.c: the owner of the live policy.
pub mod Decisions
use tcs.Prelude.{
  ℕ, ◌%◌, Bool, true, false, not, ◌&&◌, ◌||◌, ltb, ◌==◌, ◌!=◌, if◌then◌else◌, List, [], ◌∷◌, length,
}
use tcs.Policy
use tcs.Policy.Op
use tcs.Policy.Status
use tcs.Policy.Types.{Actor, unknown, admin, storage, Policy, Request, Result}
use tcs.Ipc.{
  Message, message, word, op_label, reply, response, snapshot_reply, self_status, audit_append,
}

-- `live` and `ready`
pub record PolicyServer : Type 0 where
  pub live : Policy
  pub ready : Bool

-- `init`
abbrev pub init : PolicyServer → PolicyServer
init p = record p { ready = true }

abbrev pub actor_code : Actor → ℕ
actor_code unknown = 0
actor_code admin = 1
actor_code storage = 2

-- The request that a message carries.
abbrev pub request : Message → Request
request m = record {
  op = m.label % 256;
  subject = word m 0;
  object = word m 1;
  rights = word m 2;
  generation = word m 3;
}

-- The record of a decision, as it is sent to the audit server.
abbrev pub decision_record : Request → Actor → Result → List ℕ
decision_record r actor decision =
    r.op ∷ actor_code actor ∷ r.subject ∷ r.object ∷ r.rights ∷ r.generation ∷ decision.status ∷ []

-- The actor of a channel.
abbrev pub channel_actor : ℕ → Actor
channel_actor ch = if ch == 0 then admin else storage

-- The server of channel 2, called with the record of each decision.
module _ {S : Type 0} (audit : S → Message → S × Message) where
  -- `protected` from the decision on.
  unfoldable pub decide : PolicyServer → S → Actor → Request → PolicyServer × S × Message
  unfolding reply response
  decide p s actor r =
      let (candidate, decision) = Policy.apply p.live actor r in
      let (next, logged) =
        audit s (message (op_label audit_append) (decision_record r actor decision)) in
      let (live, committed) =
        Policy.commit p.live candidate r decision ((response logged).status == Status.ok) in
      (record p { live = live }, next, reply committed)

  -- `protected`
  unfoldable pub protected : PolicyServer → S → ℕ → Message → PolicyServer × S × Message
  unfolding decide reply snapshot_reply
  protected p s ch m =
      if not p.ready || ((ch != 0) && (ch != 1))
      then (p, s, reply (Policy.result Status.denied 0))
      else if m.label == op_label self_status
      then if ch != 1
        then (p, s, reply (Policy.result Status.denied 0))
        else if length m.words != 0
        then (p, s, reply (Policy.result Status.bad_message 0))
        else (p, s, snapshot_reply (Policy.self_status p.live storage))
      else if (length m.words != 4)
          || ltb m.label (op_label Op.grant)
          || ltb (op_label Op.restore) m.label
      then (p, s, reply (Policy.result Status.bad_message 0))
      else decide p s (channel_actor ch) (request m)
