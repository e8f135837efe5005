-- ===== src/Boot/Examples.antt =====
-- The theorems on lib/boot.c with a device that holds three items.
use tcs.Prelude.{
  ℕ, ◌≡◌, ◌≢◌, ◌⊎◌, refl, Bool, true, ◌==◌, if◌then◌else◌, List, [], ◌∷◌, ◌++◌, length, drop,
  replicate, Option, none, some, arith,
}
use tcs.Boot.{
  ok, missing, be32, name_length, same_name, seen, entry_key, entry_ok, entry_match, read_bytes,
  read_at, scan, scan_entry, read_selected, read_file, read_directory, read_item, fwcfg_read,
  boot_decode_test, boot_prefix, fields_nonzero, any_bits,
}
use tcs.Boot.Directory.{read_fields, matching, distinct}
use tcs.Boot.Reading.{IsRead}
use tcs.Boot.Service.{fwcfg_read_ok}
use tcs.Boot.Input.{IsCleared, fwcfg_read_lem}

-- The name `ab` and its directory entry: 2 bytes, with the selector 32.
abbrev name : List ℕ
name = 97 ∷ 98 ∷ []

abbrev entry : List ℕ
entry = 0 ∷ 0 ∷ 0 ∷ 2 ∷ 0 ∷ 32 ∷ 0 ∷ 0 ∷ 97 ∷ 98 ∷ replicate 54 0

abbrev content : ℕ → List ℕ
content key =
    if key == 0
    then 81 ∷ 69 ∷ 77 ∷ 85 ∷ []
    else if key == 1
    then 1 ∷ 0 ∷ 0 ∷ 0 ∷ []
    else if key == 25
    then 0 ∷ 0 ∷ 0 ∷ 1 ∷ entry
    else if key == 32
    then 7 ∷ 8 ∷ []
    else []

-- The state of the device is what is left of the selected item.
abbrev select : List ℕ → ℕ → List ℕ × Bool
select left key = (content key, true)

abbrev read : List ℕ → List ℕ × Option ℕ
read [] = ([], none)
read (b ∷ left) = (left, some b)

item_read : fwcfg_read select read [] name (replicate 3 9) 2 ≡ ([], ok, 7 ∷ 8 ∷ 9 ∷ [])
unfolding fwcfg_read read_item read_directory read_file read_selected scan read_at read_bytes
    scan_entry seen entry_key entry_ok entry_match name_length same_name be32
item_read = refl

other_missing : (fwcfg_read select read [] (97 ∷ []) (replicate 3 9) 2).1 ≡ missing
unfolding fwcfg_read read_item read_directory read_file read_selected scan read_at read_bytes
    scan_entry seen entry_key entry_ok entry_match name_length same_name be32
other_missing = refl

item-IsRead : IsRead select read [] name 2 [] (7 ∷ 8 ∷ [])
unfolding read_at read_bytes read_fields distinct matching seen entry_key entry_ok entry_match
    name_length same_name be32
item-IsRead = record {
  after_magic = [];
  magic = content 0;
  answered = refl;
  qemu = (refl, refl, refl, refl);
  after_feature = [];
  feature = content 1;
  asked = refl;
  traditional = (refl, refl, refl, refl);
  nonempty = omega arith;
  fits = omega arith;
  named = (omega arith, omega arith);
  item = record {
    after_count = entry;
    count = 0 ∷ 0 ∷ 0 ∷ 1 ∷ [];
    counted = refl;
    bounded = omega arith;
    after_fields = [];
    fields = entry ∷ [];
    listed = refl;
    well_formed = refl;
    key = 32;
    only = refl;
    held = refl;
  };
}

fwcfg_read_ok_example :
    fwcfg_read select read [] name (replicate 3 9) 2
    ≡ ([], ok, (7 ∷ 8 ∷ []) ++ drop 2 (replicate 3 9))
fwcfg_read_ok_example =
    fwcfg_read_ok select read [] [] name (replicate 3 9) 2 (7 ∷ 8 ∷ []) item-IsRead

fwcfg_read_lem_example :
    let (last, status, out) = fwcfg_read select read [] name (replicate 3 9) 2 in
    ((status ≢ ok) × IsCleared (replicate 3 9) 2 out)
    ⊎ ((bytes : List ℕ) × (status ≡ ok)
        × (out ≡ bytes ++ drop 2 (replicate 3 9))
        × (length bytes ≡ 2)
        × IsRead select read [] name 2 last bytes)
fwcfg_read_lem_example = fwcfg_read_lem select read [] name (replicate 3 9) 2

abbrev context_bytes : List ℕ
context_bytes = boot_prefix ++ replicate 32 1 ++ replicate 32 2 ++ replicate 32 3

context_decoded : (boot_decode_test (some context_bytes) 112).1 ≡ ok
unfolding boot_decode_test fields_nonzero any_bits same_name
context_decoded = refl
