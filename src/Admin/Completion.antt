-- ===== src/Admin/Completion.antt =====
-- The administrator of include/tcs/admin_server.h over the policy server of servers/admin_policy.c.
use tcs.Prelude.{
  ℕ, ◌≡◌, ◌≢◌, ◌⊎◌, inl, inr, refl, sym, ap, ◌∙◌, true, false, List, length, some, arith,
}
use tcs.Policy
use tcs.Policy.Status
use tcs.Ipc.{Message, message, reply}
use tcs.Admin.{packet_command, admit, consume, valid}
use tcs.Admin.Admission.{admit_lem, admit-bad_completion, admit-packet_command}
use tcs.Admin.Execution.{execute_command-receipt_valid}
use tcs.Admin.Ipc.{
  execute_label, submit_label, packet_words, bytes_from_words, execution_words, receipt_reply,
  receipt_decode, admission_reply,
}
use tcs.Admin.PolicyServer.{protected}
use tcs.Admin.Receipt.{Server}
use tcs.Admin.Server.{settle, serve, status_code}
use tcs.Admin.Types.{
  Admin, Command, AdminStatus, accepted, bad_packet, bad_completion, packet_bytes,
}
use tcs.Admin.Executing.{
  InStep, execution_valid-valid, status_code-accepted, consume-pending, consume-initialized,
  receipt_decode-receipt_reply, execute_command_lem, settle_lem, after_command, on_record, receipt,
  serve_command_lem, protected-serve_command, after_command-InStep,
}

module _ {S : Type 0} (crypto_ed25519_check : List ℕ → List ℕ → List ℕ → ℕ → ℕ)
    (audit : S → Message → S × Message) where
  abbrev pub policy : Server × S → Message → (Server × S) × Message
  policy (server, s) m =
      let (server, s, answer) = protected audit server s 0 m in ((server, s), answer)

  completed :
      (a : Admin) (server : Server) (s : S) (c : Command)
      → InStep a server
      → c.sequence ≡ a.next_sequence
      → a.exhausted ≡ false
      → valid c ≡ true
      → let ((after, _), answer) = policy (server, s) (message execute_label (execution_words c)) in
        let last = record (consume a c.sequence) { pending_sequence = 0 } in
        (receipt_decode (receipt_reply (receipt audit server s c))
          ≡ some (receipt audit server s c))
        × (after ≡ after_command audit server s c)
        × (settle (consume a c.sequence) c answer
            ≡ (last, receipt_reply (receipt audit server s c)))
  completed a server s c w n e v =
      let (executable, g, nonzero) = execution_valid-valid c v in
      let r = receipt audit server s c in
      let (mine, settled) = execute_command_lem server.live c (on_record audit server s c) in
      let same = protected-serve_command audit server s c w.ready g in
      let (after, answered) =
        serve_command_lem audit server s c executable (sym w.same_end ∙ e) (n ∙ w.same_next) in
      let across =
        receipt_decode-receipt_reply r (ap (λ (x : Command). x.request.generation) mine ∙ g)
          settled in
      let good =
        execute_command-receipt_valid server.live c (on_record audit server s c) w.live_valid
          executable in
      let done =
        settle_lem (consume a c.sequence) c r (consume-initialized a c.sequence ∙ w.initialized)
          (consume-pending a c.sequence) nonzero across good in
      (
        across,
        ap (λ (x : Server × S × Message). x.0) same ∙ after,
        ap (λ (x : Server × S × Message). settle (consume a c.sequence) c x.2) same
            ∙ ap (settle (consume a c.sequence) c) answered
            ∙ done,
      )

  abbrev pub admitted : Admin → Message → Admin × AdminStatus × Command
  admitted a m =
      admit crypto_ed25519_check a (some (bytes_from_words m.words packet_words)) packet_bytes

  -- A message of the channel of the terminal that is a submission of a whole packet.
  abbrev pub IsSubmission : ℕ → Message → Type 0
  IsSubmission ch m = (ch ≡ 0) × (m.label ≡ submit_label) × (length m.words ≡ packet_words)

  -- Why nothing has happened, as the answer says it: the channel is another one, the message is no
  -- submission, or admission gives that status.
  abbrev pub IsReason : Admin → ℕ → Message → Message → Type 0
  IsReason a ch m answer =
      ((ch ≢ 0) × (answer ≡ reply (Policy.result Status.denied 0)))
      ⊎ ((ch ≡ 0)
          × ((m.label ≢ submit_label) ⊎ (length m.words ≢ packet_words))
          × (answer ≡ admission_reply (status_code bad_packet)))
      ⊎ (IsSubmission ch m
          × ((admitted a m).1 ≢ accepted)
          × ((admitted a m).1 ≢ bad_completion)
          × (answer ≡ admission_reply (status_code (admitted a m).1)))

  -- Neither the administrator, nor the policy server, nor the audit server has changed.
  abbrev pub IsRefused : Admin → Server → S → ℕ → Message → Admin → Server → S → Message → Type 0
  IsRefused a server s ch m after next s' answer =
      (after ≡ a) × (next ≡ server) × (s' ≡ s) × IsReason a ch m answer

  -- The message is a submission that is admitted; its command, with the next sequence number, has been
  -- executed and completed, and the answer is its receipt.
  abbrev pub IsCompleted : Admin → Server → S → ℕ → Message → Admin → Server → Message → Type 0
  IsCompleted a server s ch m after next answer =
      let c = packet_command (bytes_from_words m.words packet_words) in
      IsSubmission ch m
      × ((admitted a m).1 ≡ accepted)
      × (c.sequence ≡ a.next_sequence)
      × (a.exhausted ≡ false)
      × (valid c ≡ true)
      × (after ≡ record (consume a c.sequence) { pending_sequence = 0 })
      × (next ≡ after_command audit server s c)
      × (receipt_decode answer ≡ some (receipt audit server s c))

  serve_cases :
      (a : Admin) (server : Server) (s : S) (ch : ℕ) (m : Message)
      → let (before, status, c) = admitted a m in
        let (next, answer) = policy (server, s) (message execute_label (execution_words c)) in
        let (after, last) = settle before c answer in
        let r = serve crypto_ed25519_check policy a (server, s) ch m in
        ((ch ≢ 0) × (r ≡ (a, (server, s), reply (Policy.result Status.denied 0))))
        ⊎ ((ch ≡ 0)
            × ((m.label ≢ submit_label) ⊎ (length m.words ≢ packet_words))
            × (r ≡ (a, (server, s), admission_reply (status_code bad_packet))))
        ⊎ (IsSubmission ch m
            × (status ≢ accepted)
            × (r ≡ (before, (server, s), admission_reply (status_code status))))
        ⊎ (IsSubmission ch m × (status ≡ accepted) × (r ≡ (after, next, last)))
  unfolding serve
  serve_cases a server s ch m = ground (arith, status_code-accepted (admitted a m).1)

  -- From a state in which the administrator waits for nothing and counts with a ready policy server,
  -- whose policy is valid, any message of any channel leads to such a state again: either none of the
  -- administrator, the policy server and the audit server has changed, and the answer is `denied` to
  -- another channel, `bad_packet` to what is no submission of a whole packet, and else the status
  -- other than `accepted` and `bad_completion` that admission gives; or the submission is admitted, its
  -- command, which has the next sequence number, has been executed and completed, and its receipt is
  -- the answer.
  pub serve-InStep :
      (a : Admin) (server : Server) (s : S) (ch : ℕ) (m : Message)
      → InStep a server
      → let (after, (next, s'), answer) = serve crypto_ed25519_check policy a (server, s) ch m in
        InStep after next
        × (IsRefused a server s ch m after next s' answer
            ⊎ IsCompleted a server s ch m after next answer)
  serve-InStep a server s ch m w =
      let (before, status, _) = admitted a m in
      let bytes = bytes_from_words m.words packet_words in
      let c = packet_command bytes in
      elim (serve_cases a server s ch m) [
        | inl (away, e) ↦ rw e (w, inl (refl, refl, refl, inl (away, refl)))
        | inr (inl (here, shape, e)) ↦
            rw e (w, inl (refl, refl, refl, inr (inl (here, shape, refl))))
        | inr (inr (inl (sub, n, e))) ↦
            let same : before ≡ a =
              ground (arith, admit_lem crypto_ed25519_check a (some bytes) packet_bytes) in
            let failed = admit-bad_completion crypto_ed25519_check a (some bytes) packet_bytes in
            rw (e, same) (w, inl (refl, refl, refl, inr (inr (sub, n, failed, refl))))
        | inr (inr (inr (sub, ok, e))) ↦
            let taken = admit-packet_command crypto_ed25519_check a bytes packet_bytes ok in
            elim (admit_lem crypto_ed25519_check a (some bytes) packet_bytes) [
              | inl (n, _, _) ↦ absurd (n ok)
              | inr (_, _, n, x, _, v) ↦
                  let k = ap (λ (x : Admin × AdminStatus × Command). x.2) taken in
                  let in_order = ap (λ (x : Command). x.sequence) (sym k) ∙ n in
                  let executable = ap valid (sym k) ∙ v in
                  let (across, same, done) = completed a server s c w in_order x executable in
                  rw (e, taken, same, done)
                    (
                      after_command-InStep audit a server s c w in_order,
                      inr (sub, refl, in_order, x, executable, refl, refl, across),
                    )
            ]
      ]
