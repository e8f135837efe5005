-- ===== src/Startup.antt =====
-- servers/launch_boot.c, servers/launch_admin.c and servers/admin.c: how the boot data reach the
-- administrator.

mod Handoff
mod Examples
use tcs.Prelude.{
  ℕ, Bool, true, false, not, ◌&&◌, ◌||◌, ◌==◌, ◌!=◌, if◌then◌else◌, List, [], ◌∷◌, length,
  replicate, Option, none, some,
}
use tcs.Policy
use tcs.Policy.Status
use tcs.Ipc.{Message, message, reply}
use tcs.Admin
use tcs.Admin.Ipc.{words_from_bytes, bytes_from_words}
use tcs.Admin.Types.{Admin}
use tcs.Launch.{launch_decode}
use tcs.Boot.{BootStatus, ok, boot_decode_test, fwcfg_read}

-- TCS_LAUNCH_CONTEXT
abbrev pub launch_context : ℕ
launch_context = 0x401

-- TCS_LAUNCH_DATA
abbrev pub launch_data : ℕ
launch_data = 0x480

-- TCS_TEST_BOOT_CONTEXT
abbrev pub test_context : ℕ
test_context = 0x301

-- TCS_TEST_BOOT_DATA
abbrev pub test_data : ℕ
test_data = 0x380

-- TCS_LAUNCH_BYTES
abbrev pub launch_bytes : ℕ
launch_bytes = 112

-- TCS_LAUNCH_ITEM
abbrev pub launch_item : List ℕ
launch_item =
    111 ∷ 112 ∷ 116 ∷ 47 ∷ 116 ∷ 99 ∷ 115 ∷ 47 ∷ 108 ∷ 97 ∷ 117 ∷ 110 ∷ 99 ∷ 104 ∷ 45 ∷ 99 ∷ 111
    ∷ 110 ∷ 116 ∷ 101 ∷ 120 ∷ 116 ∷ []

-- The state of servers/launch_boot.c
pub record LaunchBoot : Type 0 where
  pub bytes : List ℕ
  pub ready : Bool

abbrev pub is_ok : BootStatus → Bool
is_ok ok = true
is_ok status = false

-- `init` of servers/launch_boot.c, over the device.
module _ {D : Type 0} (select : D → ℕ → D × Bool) (read : D → D × Option ℕ) where
  unfoldable pub boot_init : D → ℕ → D × LaunchBoot
  boot_init d mode =
      let (next, status, bytes) =
        fwcfg_read select read d launch_item (replicate 112 0) launch_bytes in
      (
        next,
        record {
          bytes = bytes;
          ready = is_ok status && (launch_decode (some bytes) launch_bytes mode).1;
        },
      )

-- `protected` of servers/launch_boot.c
unfoldable pub boot_protected : LaunchBoot → ℕ → Message → LaunchBoot × Message
boot_protected b ch m =
    if not b.ready || (ch != 0)
    then (b, reply (Policy.result Status.denied 0))
    else if (m.label != launch_context) || (length m.words != 0)
    then (b, reply (Policy.result Status.bad_message 0))
    else (b, message launch_data (words_from_bytes b.bytes 14))

-- The server of channel 1 owns the boot data.
module _ {B : Type 0} (boot : B → Message → B × Message) where
  -- `init` of servers/launch_admin.c
  unfoldable pub launch_init : Admin → B → ℕ → Admin × B
  launch_init a b mode =
      let (next, answer) = boot b (message launch_context []) in
      let bytes = bytes_from_words answer.words 14 in
      let (launch, decoded) = launch_decode (some bytes) launch_bytes mode in
      if (answer.label != launch_data) || (length answer.words != 14)
      then (a, next)
      else if not decoded
      then (a, next)
      else ((Admin.init a launch.identity.public_key launch.identity.realm launch.boot).0, next)

  -- `init` of servers/admin.c
  unfoldable pub test_init : Admin → B → Admin × B
  test_init a b =
      let (next, answer) = boot b (message test_context []) in
      let bytes = bytes_from_words answer.words 14 in
      let (context, status) = boot_decode_test (some bytes) 112 in
      if (answer.label != test_data) || (length answer.words != 14)
      then (a, next)
      else if not (is_ok status)
      then (a, next)
      else ((Admin.init a context.public_key context.realm context.boot).0, next)
