-- ===== src/Ipc.antt =====
-- include/tcs/ipc.h: the messages between the servers. A message is its label and its words, so that
-- microkit_msginfo_get_count is the number of the words and microkit_mr_get reads one of them.
pub mod Replies
mod Examples
use tcs.Prelude.{
  ℕ, Bool, true, false, not, ◌&&◌, ◌||◌, leb, ◌==◌, ◌!=◌, if◌then◌else◌, List, [], ◌∷◌, length,
  get_or, bit_or,
}
use tcs.Policy
use tcs.Policy.Status
use tcs.Policy.Types.{Request, Result, Snapshot}

-- `microkit_msginfo` and the message registers below its count.
pub record Message : Type 0 where
  pub label : ℕ
  pub words : List ℕ

abbrev pub message : ℕ → List ℕ → Message
message label words = record { label = label; words = words }

abbrev pub word : Message → ℕ → ℕ
word m i = get_or m.words i 0

-- TCS_LABEL
abbrev pub op_label : ℕ → ℕ
op_label op = bit_or 256 op

-- TCS_REPLY
abbrev pub reply_label : ℕ
reply_label = 384

-- TCS_SNAPSHOT_REPLY
abbrev pub snapshot_label : ℕ
snapshot_label = 386

-- TCS_SELF_STATUS
abbrev pub self_status : ℕ
self_status = 6

-- TCS_STORE_READ
abbrev pub store_read : ℕ
store_read = 16

-- TCS_CLIENT_READ
abbrev pub client_read : ℕ
client_read = 17

-- TCS_CLIENT_BAD_LENGTH
abbrev pub client_bad_length : ℕ
client_bad_length = 18

-- TCS_CLIENT_TRY_GRANT
abbrev pub client_try_grant : ℕ
client_try_grant = 19

-- TCS_CLIENT_STATUS
abbrev pub client_status : ℕ
client_status = 20

-- TCS_STORE_STATUS
abbrev pub store_status : ℕ
store_status = 21

-- TCS_AUDIT_APPEND
abbrev pub audit_append : ℕ
audit_append = 32

-- TCS_AUDIT_COUNT
abbrev pub audit_count : ℕ
audit_count = 33

-- TCS_AUDIT_GET
abbrev pub audit_get : ℕ
audit_get = 34

-- TCS_AUDIT_CAPACITY
abbrev pub audit_capacity : ℕ
audit_capacity = 64

-- `tcs_message`
abbrev pub is_message : Message → ℕ → ℕ → Bool
is_message m op count = (m.label == op_label op) && (length m.words == count)

-- `tcs_reply`
unfoldable pub reply : Result → Message
reply r = message reply_label (r.status ∷ r.value ∷ [])

-- `tcs_response`
unfoldable pub response : Message → Result
response m =
    if (m.label != reply_label) || (length m.words != 2)
    then Policy.result Status.bad_message 0
    else Policy.result (word m 0) (word m 1)

-- `tcs_snapshot_reply`
unfoldable pub snapshot_reply : Snapshot → Message
unfolding reply
snapshot_reply s =
    if s.status != Status.ok
    then reply (Policy.result s.status 0)
    else if not (Policy.snapshot_valid s)
    then reply (Policy.result Status.bad_message 0)
    else message snapshot_label (s.state ∷ s.generation ∷ s.object ∷ s.rights ∷ [])

-- `tcs_snapshot_response`
unfoldable pub snapshot_response : Message → Snapshot
unfolding response
snapshot_response m =
    let r = response m in
    let s : Snapshot = record {
      status = Status.ok;
      state = word m 0;
      generation = word m 1;
      object = word m 2;
      rights = word m 3;
    } in
    if m.label == reply_label
    then if leb Status.denied r.status && leb r.status Status.exhausted && (r.value == 0)
      then Policy.no_snapshot r.status
      else Policy.no_snapshot Status.bad_message
    else if (m.label != snapshot_label) || (length m.words != 4)
    then Policy.no_snapshot Status.bad_message
    else if Policy.snapshot_valid s
    then s
    else Policy.no_snapshot Status.bad_message

-- `tcs_policy_call`, with the protected call of the server behind the channel.
module _ {S : Type 0} (call : S → Message → S × Message) where
  unfoldable pub policy_call : S → Request → S × Result
  unfolding response
  policy_call s r =
      let (next, answer) =
        call s (message (op_label r.op) (r.subject ∷ r.object ∷ r.rights ∷ r.generation ∷ [])) in
      (next, response answer)
