-- ===== src/Admin/Server.antt =====
-- include/tcs/admin_server.h: the handler of the administrator.
use tcs.Prelude.{ℕ, ◌||◌, not, ◌!=◌, if◌then◌else◌, List, length, some, none}
use tcs.Policy
use tcs.Policy.Status
use tcs.Ipc.{Message, message, reply}
use tcs.Admin.{admit, complete}
use tcs.Admin.Ipc.{
  submit_label, execute_label, packet_words, bytes_from_words, execution_words, receipt_reply,
  receipt_decode, admission_reply,
}
use tcs.Admin.Receipt.{receipt_valid}
use tcs.Admin.Types.{
  AdminStatus, accepted, not_ready, bad_packet, bad_context, bad_signature, replay, busy, exhausted,
  bad_completion, Admin, Command, packet_bytes,
}

-- The number of a status.
abbrev pub status_code : AdminStatus → ℕ
status_code accepted = 0
status_code not_ready = 1
status_code bad_packet = 2
status_code bad_context = 3
status_code bad_signature = 4
status_code replay = 5
status_code busy = 6
status_code exhausted = 7
status_code bad_completion = 8

-- The end of the handler, with the answer of the policy server to an admitted command.
unfoldable pub settle : Admin → Command → Message → Admin × Message
unfolding admission_reply receipt_reply
settle a c answer = elim (receipt_decode answer) [
  | none ↦ (a, admission_reply (status_code bad_completion))
  | some receipt ↦
      let (after, status) = complete a c.sequence in
      if not (receipt_valid c receipt)
      then (a, admission_reply (status_code bad_completion))
      else if status_code status != status_code accepted
      then (after, admission_reply (status_code bad_completion))
      else (after, receipt_reply receipt)
]

-- The server of channel 2 is the policy server.
module _ {S : Type 0} (crypto_ed25519_check : List ℕ → List ℕ → List ℕ → ℕ → ℕ)
    (policy : S → Message → S × Message) where
  -- `tcs_admin_server_request`
  unfoldable pub serve : Admin → S → ℕ → Message → Admin × S × Message
  unfolding settle admission_reply reply
  serve a s ch m =
      let (admitted, status, c) =
        admit crypto_ed25519_check a (some (bytes_from_words m.words packet_words)) packet_bytes in
      let (next, answer) = policy s (message execute_label (execution_words c)) in
      let (after, last) = settle admitted c answer in
      if ch != 0
      then (a, s, reply (Policy.result Status.denied 0))
      else if (m.label != submit_label) || (length m.words != packet_words)
      then (a, s, admission_reply (status_code bad_packet))
      else if status_code status != status_code accepted
      then (admitted, s, admission_reply (status_code status))
      else (after, next, last)
