-- ===== src/Servers/Client.antt =====
-- servers/client.c: an unprivileged reader, which passes its messages on to storage.
use tcs.Prelude.{ℕ, not, ◌!=◌, if◌then◌else◌, []}
use tcs.Policy
use tcs.Policy.Op
use tcs.Policy.Status
use tcs.Ipc.{
  Message, message, op_label, is_message, reply, client_status, client_bad_length, client_try_grant,
  client_read, store_status, store_read,
}

-- The server of channel 1.
module _ {S : Type 0} (storage : S → Message → S × Message) where
  -- `protected`; a read passes its three words on as they are.
  unfoldable pub protected : S → ℕ → Message → S × Message
  unfolding reply
  protected s ch m =
      if ch != 0
      then (s, reply (Policy.result Status.denied 0))
      else if is_message m client_status 0
      then storage s (message (op_label store_status) [])
      else if is_message m client_bad_length 0
      then storage s (message (op_label store_read) [])
      else if is_message m client_try_grant 0
      then storage s (message (op_label Op.grant) [])
      else if not (is_message m client_read 3)
      then (s, reply (Policy.result Status.bad_message 0))
      else storage s (message (op_label store_read) m.words)
