-- ===== src/Admin/Executing.antt =====
-- The execution of an admitted command in servers/admin_policy.c, as the administrator of
-- include/tcs/admin_server.h meets it.
use tcs.Prelude.{
  ℕ, ◌≡◌, ◌≢◌, ◌⊎◌, refl, ap, Bool, true, false, ◌==◌, some, u64_max, arith, if◌then◌else◌, inc64,
}
use tcs.Policy
use tcs.Policy.Status
use tcs.Policy.Types.{Policy, admin}
use tcs.Policy.Invariant
use tcs.Policy.Invariant.{apply-IsValid}
use tcs.Ipc.{Message, message}
use tcs.Admin.{consume, complete, valid}
use tcs.Admin.Ipc.{
  execute_label, execution_words, execution_from_words, receipt_reply, receipt_decode,
}
use tcs.Admin.PolicyServer.{record_decision, serve_command, protected}
use tcs.Admin.Receipt.{
  Receipt, Server, execution_valid, receipt_valid, compare_apply, execute_command, execute,
}
use tcs.Admin.Server.{settle, status_code}
use tcs.Admin.Types.{Admin, Command, AdminStatus, accepted}

-- The administrator waits for nothing and counts with the policy server.
pub record InStep (a : Admin) (server : Server) : Type 0 where
  pub initialized : a.initialized ≡ true
  pub ready : server.ready ≡ true
  pub idle : a.pending_sequence ≡ 0
  pub same_next : a.next_sequence ≡ server.execution_sequence
  pub same_end : a.exhausted ≡ server.execution_exhausted
  pub live_valid : Invariant.IsValid server.live

pub execution_valid-valid :
    (c : Command)
    → valid c ≡ true
    → (execution_valid c ≡ true) × (c.request.generation ≡ 0) × (c.sequence ≢ 0)
unfolding valid execution_valid
execution_valid-valid c h = ground arith

pub status_code-accepted :
    (status : AdminStatus) → (status ≡ accepted) ⊎ ((status ≢ accepted) × (status_code status ≢ 0))
status_code-accepted accepted = ground arith
status_code-accepted status = ground arith

pub consume-pending : (a : Admin) (sequence : ℕ) → (consume a sequence).pending_sequence ≡ sequence
consume-pending a sequence = ground arith

pub consume-initialized :
    (a : Admin) (sequence : ℕ) → (consume a sequence).initialized ≡ a.initialized
consume-initialized a sequence = ground arith

-- A receipt comes across its message as it was.
pub receipt_decode-receipt_reply :
    (r : Receipt)
    → r.command.request.generation ≡ 0
    → r.post.status ≡ Status.ok
    → receipt_decode (receipt_reply r) ≡ some r
unfolding receipt_decode receipt_reply
receipt_decode-receipt_reply r g h = ground arith

pub execute_command_lem :
    (live : Policy) (c : Command) (ok : Bool)
    → let r = (execute_command live c ok).1 in (r.command ≡ c) × (r.post.status ≡ Status.ok)
unfolding execute_command
execute_command_lem live c ok = (refl, refl)

execute_command-IsValid :
    (live : Policy) (c : Command) (ok : Bool)
    → Invariant.IsValid live
    → Invariant.IsValid (execute_command live c ok).0
unfolding execute_command compare_apply Policy.commit
execute_command-IsValid live c ok v i h =
    ground (arith, apply-IsValid live admin c.request v i h, v i h)

pub settle_lem :
    (a : Admin) (c : Command) (r : Receipt)
    → a.initialized ≡ true
    → a.pending_sequence ≡ c.sequence
    → c.sequence ≢ 0
    → receipt_decode (receipt_reply r) ≡ some r
    → receipt_valid c r ≡ true
    → settle a c (receipt_reply r) ≡ (record a { pending_sequence = 0 }, receipt_reply r)
unfolding settle complete
settle_lem a c r i p n d v = rw (d, settle) (ground arith)

module _ {S : Type 0} (audit : S → Message → S × Message) (server : Server) (s : S)
    (c : Command) where
  abbrev pub on_record : Bool
  on_record = (record_decision audit s c.request admin (compare_apply server.live admin c).1).1

  -- The state after an executed command.
  abbrev pub after_command : Server
  after_command =
      let last = server.execution_sequence == u64_max in
      record server {
        live = (execute_command server.live c on_record).0;
        execution_sequence =
            if last then server.execution_sequence else inc64 server.execution_sequence;
        execution_exhausted = if last then true else server.execution_exhausted;
      }

  abbrev pub receipt : Receipt
  receipt = (execute_command server.live c on_record).1

  pub serve_command_lem :
      execution_valid c ≡ true
      → server.execution_exhausted ≡ false
      → c.sequence ≡ server.execution_sequence
      → ((serve_command audit server s c).0 ≡ after_command)
        × ((serve_command audit server s c).2 ≡ receipt_reply receipt)
  unfolding serve_command execute
  serve_command_lem v e n = ground arith

  pub protected-serve_command :
      server.ready ≡ true
      → c.request.generation ≡ 0
      → protected audit server s 0 (message execute_label (execution_words c))
        ≡ serve_command audit server s c
  unfolding protected
  protected-serve_command r g =
      let same : execution_from_words (message execute_label (execution_words c)) ≡ c =
        ground arith in
      ground (arith, ap (λ (x : Command). serve_command audit server s x) same)

pub after_command-InStep :
    {S : Type 0} (audit : S → Message → S × Message) (a : Admin) (server : Server) (s : S)
    (c : Command)
    → InStep a server
    → c.sequence ≡ a.next_sequence
    → InStep
        (record (consume a c.sequence) { pending_sequence = 0 })
        (after_command audit server s c)
after_command-InStep audit a server s c w n = record {
  initialized = ground (arith, w.initialized);
  ready = w.ready;
  idle = refl;
  same_next = ground (arith, n, w.same_next, w.same_end);
  same_end = ground (arith, n, w.same_next, w.same_end);
  live_valid = execute_command-IsValid server.live c (on_record audit server s c) w.live_valid;
}
