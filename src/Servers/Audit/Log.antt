-- ===== src/Servers/Audit/Log.antt =====
-- The array of servers/audit.c against a list of records.
use tcs.Prelude.{
  ℕ, ◌+◌, ◌≤◌, ◌<◌, ◌≡◌, not, ◌&&◌, leb, ◌==◌, ◌!=◌, if◌then◌else◌, List, [], ◌∷◌, ◌++◌, length,
  get_or, set, take, take-set_end, length-take_le, get_or-take, length-set, arith,
}
use native.Mathlib.Numerals.{add-one}
use tcs.Policy
use tcs.Policy.Status
use tcs.Ipc.{
  Message, message, word, op_label, is_message, reply, audit_append, audit_count, audit_get,
  audit_capacity,
}
use tcs.Servers.Audit.{Audit, append, protected}

pub record IsValid (a : Audit) : Type 0 where
  pub storage : length a.records ≡ audit_capacity
  pub fits : a.count ≤ audit_capacity

-- The records so far, the oldest first.
abbrev pub log : Audit → List (List ℕ)
log a = take a.count a.records

-- What the audit server promises of a list of records: the reader of channel 1 asks for their number
-- and for each of them, the writer of channel 0 adds one while there is room, and nothing is ever
-- changed or removed.
unfoldable pub keep : List (List ℕ) → ℕ → Message → List (List ℕ) × Message
unfolding reply
keep records ch m =
    if (ch == 1) && is_message m audit_count 0
    then (records, reply (Policy.result Status.ok (length records)))
    else if (ch == 1) && is_message m audit_get 1
    then if leb (length records) (word m 0)
      then (records, reply (Policy.result Status.denied 0))
      else (
        records,
        message (op_label audit_get) ((word m 0 + 1) ∷ take 7 (get_or records (word m 0) [])),
      )
    else if ch != 0
    then (records, reply (Policy.result Status.denied 0))
    else if not (is_message m audit_append 7)
    then (records, reply (Policy.result Status.bad_message 0))
    else if length records == audit_capacity
    then (records, reply (Policy.result Status.audit_full 0))
    else (records ++ take 7 m.words ∷ [], reply (Policy.result Status.ok (length records + 1)))

log-append :
    (a : Audit) (r : List ℕ)
    → IsValid a
    → a.count < audit_capacity
    → log (record { records = set a.records a.count r; count = a.count + 1 }) ≡ log a ++ r ∷ []
log-append a r v h = rw add-one (take-set_end a.count a.records r (omega arith))

-- Any message on any channel keeps a valid log valid, inside its array, and does to its records and
-- replies what a list of records does.
pub protected_refines :
    (a : Audit) (ch : ℕ) (m : Message)
    → IsValid a
    → let (next, answer) = protected a ch m in
      IsValid next × ((log next, answer) ≡ keep (log a) ch m)
unfolding protected append keep
protected_refines a ch m v = ground (
  arith,
  log-append a (take 7 m.words) v,
  length-take_le a.count a.records,
  get_or-take a.count a.records (word m 0) [],
  length-set a.records a.count (take 7 m.words),
)

pub length-log : (a : Audit) → IsValid a → length (log a) ≡ a.count
length-log a v = length-take_le a.count a.records (omega arith)
