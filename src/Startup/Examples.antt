-- ===== src/Startup/Examples.antt =====
-- The theorem on the start of the administrator, with a device that holds a launch.
use tcs.Prelude.{
  ltb, ◌&&◌, ◌<◌, ℕ, ◌≡◌, refl, Bool, true, false, ◌==◌, if◌then◌else◌, List, [], ◌∷◌, ◌++◌, All,
  replicate, Option, none, some, copy, arith,
}
use tcs.Admin.Types.{Admin}
use tcs.Admin.Words.{IsByte}
use tcs.Launch.{
  Launch, any_bits, nonzero, spells, is_fixture, identity_valid, write_launch, launch_encode,
}
use tcs.Boot.{
  be32, name_length, same_name, seen, entry_key, entry_ok, entry_match, read_bytes, read_at,
}
use tcs.Boot.Directory.{read_fields, matching, distinct}
use tcs.Boot.Reading.{IsRead}
use tcs.Startup.{launch_item, launch_init, boot_init}
use tcs.Startup.Handoff.{owner, started_with, launch_handoff}

abbrev launch : Launch
launch = record {
  identity = record { realm = replicate 32 1; public_key = replicate 32 9 };
  boot = replicate 32 2;
}

abbrev encoded_bytes : List ℕ
encoded_bytes =
    84 ∷ 67 ∷ 83 ∷ 45 ∷ 76 ∷ 65 ∷ 85 ∷ 78 ∷ 67 ∷ 72 ∷ 1 ∷ replicate 5 0
    ++ replicate 32 1
    ++ replicate 32 2
    ++ replicate 32 9

launch_encoded : launch_encode launch 0 ≡ (encoded_bytes, true)
unfolding launch_encode identity_valid nonzero any_bits is_fixture spells write_launch copy
launch_encoded = refl

abbrev entry : List ℕ
entry = 0 ∷ 0 ∷ 0 ∷ 112 ∷ 0 ∷ 32 ∷ 0 ∷ 0 ∷ launch_item ++ replicate 34 0

abbrev content : ℕ → List ℕ
content key =
    if key == 0
    then 81 ∷ 69 ∷ 77 ∷ 85 ∷ []
    else if key == 1
    then 1 ∷ 0 ∷ 0 ∷ 0 ∷ []
    else if key == 25
    then 0 ∷ 0 ∷ 0 ∷ 1 ∷ entry
    else if key == 32
    then encoded_bytes
    else []

-- The state of the device is what is left of the selected item.
abbrev select : List ℕ → ℕ → List ℕ × Bool
select left key = (content key, true)

abbrev read : List ℕ → List ℕ × Option ℕ
read [] = ([], none)
read (b ∷ left) = (left, some b)

item-IsRead : IsRead select read [] launch_item 112 [] encoded_bytes
unfolding read_at read_bytes read_fields distinct matching seen entry_key entry_ok entry_match
    name_length same_name be32
item-IsRead = record {
  after_magic = [];
  magic = content 0;
  answered = refl;
  qemu = (refl, refl, refl, refl);
  after_feature = [];
  feature = content 1;
  asked = refl;
  traditional = (refl, refl, refl, refl);
  nonempty = omega arith;
  fits = omega arith;
  named = (omega arith, omega arith);
  item = record {
    after_count = entry;
    count = 0 ∷ 0 ∷ 0 ∷ 1 ∷ [];
    counted = refl;
    bounded = omega arith;
    after_fields = [];
    fields = entry ∷ [];
    listed = refl;
    well_formed = refl;
    key = 32;
    only = refl;
    held = refl;
  };
}

abbrev are_bytes : List ℕ → Bool
are_bytes [] = true
are_bytes (b ∷ bytes) = ltb b 256 && are_bytes bytes

are_bytes-IsByte : (bytes : List ℕ) → are_bytes bytes ≡ true → All IsByte bytes
are_bytes-IsByte [] h = ground arith
are_bytes-IsByte (b ∷ bytes) h =
    let first : b < 256 = ground arith in
    let rest : are_bytes bytes ≡ true = ground arith in (first, are_bytes-IsByte bytes rest)

encoded-IsByte : All IsByte encoded_bytes
encoded-IsByte = are_bytes-IsByte encoded_bytes refl

abbrev blank : Admin
blank = record {
  public_key = [];
  realm = [];
  boot = [];
  next_sequence = 0;
  pending_sequence = 0;
  initialized = false;
  exhausted = false;
}

launch_handoff_example :
    launch_init owner blank (boot_init select read [] 0).1 0
    ≡ (started_with launch, record { bytes = (launch_encode launch 0).0; ready = true })
unfolding launch_encode identity_valid nonzero any_bits is_fixture spells write_launch copy
launch_handoff_example =
    launch_handoff select read [] [] blank launch 0 refl refl refl refl refl refl encoded-IsByte
      item-IsRead
