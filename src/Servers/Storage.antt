-- ===== src/Servers/Storage.antt =====
-- servers/storage.c: the owner of the fixture, which asks the policy server before each read.
use tcs.Prelude.{ℕ, not, ◌==◌, ◌!=◌, if◌then◌else◌, []}
use tcs.Policy
use tcs.Policy.Op
use tcs.Policy.Status
use tcs.Policy.Types.{Request, client_subject}
use tcs.Ipc.{
  Message, message, word, op_label, is_message, reply, policy_call, self_status, store_status,
  store_read,
}

-- TCS_SAMPLE
abbrev pub sample : ℕ
sample = 0x43494e4958

-- The request that storage makes for its client; the subject is fixed.
abbrev pub read_request : Message → Request
read_request m = record {
  op = Op.check;
  subject = client_subject;
  object = word m 0;
  rights = word m 1;
  generation = word m 2;
}

-- The server of channel 1.
module _ {S : Type 0} (policy : S → Message → S × Message) where
  -- `protected`
  unfoldable pub protected : S → ℕ → Message → S × Message
  unfolding reply policy_call
  protected s ch m =
      let (next, decision) = policy_call policy s (read_request m) in
      if ch != 0
      then (s, reply (Policy.result Status.denied 0))
      else if is_message m store_status 0
      then policy s (message (op_label self_status) [])
      else if not (is_message m store_read 3)
      then (s, reply (Policy.result Status.bad_message 0))
      else (
        next,
        reply (Policy.result decision.status (if decision.status == Status.ok then sample else 0)),
      )
