-- ===== src/Ipc/Examples.antt =====
-- The theorems on messages at concrete inputs.
use tcs.Prelude.{◌≡◌, refl, true}
use tcs.Policy
use tcs.Policy.Status
use tcs.Policy.Types.{Snapshot}

abbrev active_client : Snapshot
active_client = record { status = Status.ok; state = 1; generation = 3; object = 42; rights = 1 }

active_client-valid : Policy.snapshot_valid active_client ≡ true
unfolding Policy.snapshot_valid
active_client-valid = refl
