-- ===== src/Servers/Audit.antt =====
-- servers/audit.c: the bounded log of decisions.
pub mod Log
use tcs.Prelude.{
  ℕ, ◌+◌, Bool, true, false, not, ◌&&◌, leb, ◌==◌, ◌!=◌, if◌then◌else◌, List, [], ◌∷◌, get_or, set,
  take,
}
use tcs.Policy
use tcs.Policy.Status
use tcs.Ipc.{
  Message, message, word, op_label, is_message, reply, audit_append, audit_count, audit_get,
  audit_capacity,
}

-- `records` and `count`; a `struct record` is the list of its seven fields.
pub record Audit : Type 0 where
  pub records : List (List ℕ)
  pub count : ℕ

-- The end of `protected`, for a message that is to be appended.
unfoldable pub append : Audit → Message → Audit × Message
unfolding reply
append a m = if a.count == audit_capacity then (a, reply (Policy.result Status.audit_full 0)) else (
  record { records = set a.records a.count (take 7 m.words); count = a.count + 1 },
  reply (Policy.result Status.ok (a.count + 1)),
)

-- `protected`
unfoldable pub protected : Audit → ℕ → Message → Audit × Message
unfolding append reply
protected a ch m =
    if (ch == 1) && is_message m audit_count 0
    then (a, reply (Policy.result Status.ok a.count))
    else if (ch == 1) && is_message m audit_get 1
    then if leb a.count (word m 0) then (a, reply (Policy.result Status.denied 0)) else (
      a,
      message (op_label audit_get) ((word m 0 + 1) ∷ take 7 (get_or a.records (word m 0) [])),
    )
    else if ch != 0
    then (a, reply (Policy.result Status.denied 0))
    else if not (is_message m audit_append 7)
    then (a, reply (Policy.result Status.bad_message 0))
    else append a m
