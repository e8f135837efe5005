-- ===== src/Startup/Handoff.antt =====
-- The launch that servers/launch_boot.c holds is the one that servers/launch_admin.c starts with.
use mathlib.Core.List.{append-nil}
use tcs.Prelude.{
  take-length, ◌!=◌, bit_or, get_or, zero, suc, drop, ℕ, ◌≡◌, refl, ap, ◌∙◌, Bool, true, false,
  List, [], length, All, take, replicate, drop, some, arith, Option,
}
use tcs.Ipc.{Message, message}
use tcs.Admin
use tcs.Admin.{init, nonzero}
use tcs.Admin.Ipc.{words_from_bytes, bytes_from_words}
use tcs.Admin.Words.{IsByte, bytes_from_words-words_from_bytes}
use tcs.Admin.Types.{Admin}
use tcs.Launch
use tcs.Launch.{Launch, launch_decode, launch_encode, identity_valid}
use tcs.Launch.Encoding.{launch_decode-launch_encode}
use tcs.Boot.Reading.{IsRead}
use tcs.Boot.Service.{fwcfg_read_ok}
use tcs.Boot.{fwcfg_read, ok}
use tcs.Startup.{
  LaunchBoot, launch_context, launch_data, launch_item, boot_init, boot_protected, launch_init,
}

words_from_bytes-length : (bytes : List ℕ) (n : ℕ) → length (words_from_bytes bytes n) ≡ n
unfolding words_from_bytes
words_from_bytes-length bytes zero = refl
words_from_bytes-length bytes (suc n) = ap suc (words_from_bytes-length (drop 8 bytes) n)

boot_protected_lem :
    (b : LaunchBoot)
    → b.ready ≡ true
    → boot_protected b 0 (message launch_context [])
      ≡ (b, message launch_data (words_from_bytes b.bytes 14))
unfolding boot_protected
boot_protected_lem b h = rw h refl

-- The owner of the boot data on its channel 0.
abbrev pub owner : LaunchBoot → Message → LaunchBoot × Message
owner b m = boot_protected b 0 m

launch_init_lem :
    (a : Admin) (b : LaunchBoot) (mode : ℕ)
    → b.ready ≡ true
    → bytes_from_words (words_from_bytes b.bytes 14) 14 ≡ b.bytes
    → (launch_decode (some b.bytes) 112 mode).1 ≡ true
    → let l = (launch_decode (some b.bytes) 112 mode).0 in
      launch_init owner a b mode ≡ ((init a l.identity.public_key l.identity.realm l.boot).0, b)
unfolding launch_init
launch_init_lem a b mode ready same decoded =
    let words = words_from_bytes-length b.bytes 14 in
    rw (boot_protected_lem b ready) (rw (same, words) (rw decoded refl))

any_bits_same : (bytes : List ℕ) (n : ℕ) → Admin.any_bits bytes n ≡ Launch.any_bits bytes n
unfolding Admin.any_bits Launch.any_bits
any_bits_same bytes zero = refl
any_bits_same bytes (suc n) = ap (λ (t : ℕ). bit_or t (get_or bytes n 0)) (any_bits_same bytes n)

nonzero_same : (bytes : List ℕ) → Admin.nonzero bytes ≡ Launch.nonzero bytes
unfolding Admin.nonzero Launch.nonzero
nonzero_same bytes = ap (λ (t : ℕ). t != 0) (any_bits_same bytes 32)

-- An administrator that has started with a launch.
abbrev pub started_with : Launch → Admin
started_with l = record {
  public_key = l.identity.public_key;
  realm = l.identity.realm;
  boot = l.boot;
  next_sequence = 1;
  pending_sequence = 0;
  initialized = true;
  exhausted = false;
}

encode-nonzero :
    (l : Launch) (mode : ℕ)
    → (launch_encode l mode).1 ≡ true
    → (Launch.nonzero l.identity.public_key ≡ true)
      × (Launch.nonzero l.identity.realm ≡ true)
      × (Launch.nonzero l.boot ≡ true)
unfolding launch_encode identity_valid
encode-nonzero l mode h = ground arith

take_32 : (xs : List ℕ) → length xs ≡ 32 → take 32 xs ≡ xs
take_32 xs h = rw (← h) (take-length xs)

init-started_with :
    (a : Admin) (l : Launch) (mode : ℕ)
    → a.initialized ≡ false
    → length l.identity.realm ≡ 32
    → length l.boot ≡ 32
    → length l.identity.public_key ≡ 32
    → (launch_encode l mode).1 ≡ true
    → (init a l.identity.public_key l.identity.realm l.boot).0 ≡ started_with l
unfolding init
init-started_with a l mode fresh r b k done =
    let (x, y, z) = encode-nonzero l mode done in
    let x = nonzero_same l.identity.public_key ∙ x in
    let y = nonzero_same l.identity.realm ∙ y in
    let z = nonzero_same l.boot ∙ z in
    rw (fresh, x, y, z)
      (rw (take_32 l.identity.public_key k, take_32 l.identity.realm r, take_32 l.boot b) refl)

boot_init_lem :
    {D : Type 0} (select : D → ℕ → D × Bool) (read : D → D × Option ℕ) (d last : D) (l : Launch)
    (mode : ℕ) (bytes : List ℕ)
    → fwcfg_read select read d launch_item (replicate 112 0) 112 ≡ (last, ok, bytes)
    → launch_decode (some bytes) 112 mode ≡ (l, true)
    → boot_init select read d mode ≡ (last, record { bytes = bytes; ready = true })
unfolding boot_init
boot_init_lem select read d last l mode bytes served decoded = rw served (rw decoded refl)

-- When the device serves the bytes of a launch of the mode as its item, the owner of the boot data reads
-- them, and a fresh administrator that asks it starts with this launch: its realm, its boot identity
-- and its key, the first sequence number, and nothing pending.
pub launch_handoff :
    {D : Type 0} (select : D → ℕ → D × Bool) (read : D → D × Option ℕ) (d last : D) (a : Admin)
    (l : Launch) (mode : ℕ)
    → a.initialized ≡ false
    → length l.identity.realm ≡ 32
    → length l.boot ≡ 32
    → length l.identity.public_key ≡ 32
    → (launch_encode l mode).1 ≡ true
    → length (launch_encode l mode).0 ≡ 112
    → All IsByte (launch_encode l mode).0
    → IsRead select read d launch_item 112 last (launch_encode l mode).0
    → launch_init owner a (boot_init select read d mode).1 mode
      ≡ (started_with l, record { bytes = (launch_encode l mode).0; ready = true })
launch_handoff select read d last a l mode fresh r b k done size are_bytes item =
    let bytes = (launch_encode l mode).0 in
    let decoded = launch_decode-launch_encode l mode r b k done in
    let served = fwcfg_read_ok select read d last launch_item (replicate 112 0) 112 bytes item in
    let held : LaunchBoot = record { bytes = bytes; ready = true } in
    let started =
      boot_init_lem select read d last l mode bytes
        (served ∙ ap (λ (t : List ℕ). (last, ok, t)) (append-nil bytes)) decoded in
    let across = bytes_from_words-words_from_bytes 14 bytes size are_bytes in
    let asked = launch_init_lem a held mode refl across (ap (λ (x : Launch × Bool). x.1) decoded) in
    rw (started) (
      asked
      ∙ rw decoded (ap (λ (x : Admin). (x, held)) (init-started_with a l mode fresh r b k done)))
