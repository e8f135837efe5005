-- ===== src/Ipc/Replies.antt =====
-- What the replies of include/tcs/ipc.h carry across.
use tcs.Prelude.{◌≤◌, ◌≡◌, ◌⊎◌, inl, inr, refl, true, length, arith, ◌≢◌}
use tcs.Policy
use tcs.Policy.Status
use tcs.Policy.Types.{Result, Snapshot}
use tcs.Ipc.{Message, reply, response, snapshot_reply, snapshot_response, snapshot_label}

-- A result comes across a reply as it was.
pub response-reply : (r : Result) → response (reply r) ≡ r
unfolding response reply
response-reply r = refl

-- A snapshot that tcs_snapshot_valid accepts, or a refusal without fields, comes across a reply as
-- it was.
pub snapshot_response-snapshot_reply :
    (s : Snapshot)
    → (Policy.snapshot_valid s ≡ true)
      ⊎ ((Status.denied ≤ s.status)
          × (s.status ≤ Status.exhausted)
          × (s ≡ Policy.no_snapshot s.status))
    → snapshot_response (snapshot_reply s) ≡ s
unfolding snapshot_response snapshot_reply response reply Policy.snapshot_valid
snapshot_response-snapshot_reply s (inl v) = ground arith
snapshot_response-snapshot_reply s (inr (l, h, e)) = ground arith

-- Whatever message comes, what is read as a snapshot is either one that tcs_snapshot_valid accepts
-- or a refusal without fields.
pub snapshot_response_safe :
    (m : Message)
    → let s = snapshot_response m in
      ((Policy.snapshot_valid s ≡ true) × (m.label ≡ snapshot_label) × (length m.words ≡ 4))
      ⊎ ((s.status ≢ Status.ok) × (s ≡ Policy.no_snapshot s.status))
unfolding snapshot_response Policy.snapshot_valid
snapshot_response_safe m = ground arith
