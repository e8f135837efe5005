-- ===== src/Boot.antt =====
-- lib/boot.c: the reader of an item of the fw_cfg device and the decoder of the boot context. The
-- pointers of the C functions are taken to be given.
pub mod Reading
pub mod Directory
pub mod Service
pub mod Finding
pub mod Input
mod Examples
use tcs.Prelude.{
  ℕ, zero, suc, ◌+◌, ◌*◌, ◌%◌, ◌^◌, Bool, true, false, not, ◌&&◌, ◌||◌, ltb, leb, ◌==◌, ◌!=◌,
  if◌then◌else◌, List, [], ◌∷◌, ◌++◌, length, get_or, take, drop, replicate, Option, none, some,
  copy, bit_or,
}

-- `enum tcs_boot_status`
pub data BootStatus : Type 0 where
  ok : BootStatus
  io : BootStatus
  device : BootStatus
  features : BootStatus
  directory : BootStatus
  missing : BootStatus
  wrong_length : BootStatus
  format : BootStatus

-- TCS_BOOT_BYTES
abbrev pub boot_bytes : ℕ
boot_bytes = 112

-- TCS_FWCFG_MAX_FILES
abbrev pub max_files : ℕ
max_files = 64

-- TCS_FWCFG_MAX_BYTES
abbrev pub max_bytes : ℕ
max_bytes = 256

-- `be32`
unfoldable pub be32 : List ℕ → ℕ
be32 p =
    bit_or (bit_or (bit_or (get_or p 0 0 * 2 ^ 24) (get_or p 1 0 * 2 ^ 16)) (get_or p 2 0 * 2 ^ 8))
      (get_or p 3 0)

-- The loops that find the end of a name, among at most so many characters.
unfoldable pub name_length : List ℕ → ℕ → ℕ
name_length name zero = 0
name_length [] (suc n) = 0
name_length (c ∷ name) (suc n) = let rest = name_length name n in if c == 0 then 0 else suc rest

-- The comparison of two names, as far as the length.
unfoldable pub same_name : List ℕ → List ℕ → ℕ → Bool
same_name a b zero = true
same_name a b (suc n) = same_name a b n && (get_or a n 0 == get_or b n 0)

-- The comparison with the selectors before.
unfoldable pub seen : ℕ → List ℕ → Bool
seen key [] = false
seen key (s ∷ selectors) = (s == key) || seen key selectors

-- What the loop over the directory keeps.
pub record Scan : Type 0 where
  pub selectors : List ℕ
  pub selected : ℕ
  pub selected_size : ℕ

-- The selector of a directory entry.
unfoldable pub entry_key : List ℕ → ℕ
entry_key field = bit_or (get_or field 4 0 * 2 ^ 8) (get_or field 5 0)

-- The tests of a directory entry, whatever the entries before.
unfoldable pub entry_ok : List ℕ → Bool
entry_ok field =
    let key = entry_key field in
    let n = name_length (drop 8 field) 56 in
    not (ltb key 0x20 || leb 0x4000 key || (get_or field 6 0 != 0) || (get_or field 7 0 != 0))
    && not ((n == 0) || (n == 56))

-- Whether a directory entry has the name.
unfoldable pub entry_match : List ℕ → List ℕ → Bool
entry_match name field =
    let n = name_length (drop 8 field) 56 in
    (n == name_length name 56) && same_name (drop 8 field) name n

-- The body of the loop over the directory, past the reading of the entry.
unfoldable pub scan_entry : List ℕ → Scan → List ℕ → Option Scan
scan_entry name s field =
    let key = entry_key field in
    let next = record s { selectors = s.selectors ++ key ∷ [] } in
    if not (entry_ok field) || seen key s.selectors
    then none
    else if not (entry_match name field)
    then some next
    else if s.selected != 0
    then none
    else some (record next { selected = key; selected_size = be32 field })

-- The device: its state, and what `select` and `read` make of it.
module _ {D : Type 0} (select : D → ℕ → D × Bool) (read : D → D × Option ℕ) where
  -- `read_bytes`: the bytes, or none when the device fails.
  unfoldable pub read_bytes : D → ℕ → D × Option (List ℕ)
  read_bytes d zero = (d, some [])
  read_bytes d (suc n) =
      let (next, byte) = read d in
      let (last, rest) = read_bytes next n in
      elim byte [
        | none ↦ (next, none)
        | some b ↦ elim rest [ none ↦ (last, none) | some bytes ↦ (last, some (b ∷ bytes)) ]
      ]

  -- `io.select` and `read_bytes`
  unfoldable pub read_at : D → ℕ → ℕ → D × Option (List ℕ)
  read_at d key n =
      let (next, selected) = select d key in if selected then read_bytes next n else (next, none)

  -- The loop over the directory.
  unfoldable pub scan : D → List ℕ → Scan → ℕ → D × BootStatus × Scan
  scan d name s zero = (d, ok, s)
  scan d name s (suc n) =
      let (next, entry) = read_bytes d 64 in
      elim entry [
        | none ↦ (next, io, s)
        | some field ↦ elim (scan_entry name s field) [
          | none ↦ (next, directory, s)
          | some after ↦ scan next name after n
        ]
      ]

  -- `read_item`, after the directory.
  unfoldable pub read_selected : D → Scan → ℕ → D × BootStatus × List ℕ
  read_selected d s n =
      let (next, bytes) = read_at d s.selected n in
      if s.selected == 0
      then (d, missing, [])
      else if s.selected_size != n
      then (d, wrong_length, [])
      else elim bytes [ none ↦ (next, io, []) | some out ↦ (next, ok, out) ]

  -- `read_item`, from the number of entries on.
  unfoldable pub read_file : D → List ℕ → ℕ → ℕ → D × BootStatus × List ℕ
  read_file d name count n =
      let empty : Scan = record { selectors = []; selected = 0; selected_size = 0 } in
      let (next, status, s) = scan d name empty count in
      if ltb max_files count
      then (d, directory, [])
      else elim status [ ok ↦ read_selected next s n | failure ↦ (next, failure, []) ]

  -- `read_item`, from the reading of the number of entries on.
  unfoldable pub read_directory : D → List ℕ → ℕ → D × BootStatus × List ℕ
  read_directory d name n =
      let (next, head) = read_at d 0x19 4 in
      elim head [ none ↦ (next, io, []) | some field ↦ read_file next name (be32 field) n ]

  -- `read_item`; the bytes are those of the output when the item is read.
  unfoldable pub read_item : D → List ℕ → ℕ → D × BootStatus × List ℕ
  read_item d name n =
      let (d0, magic) = read_at d 0 4 in
      let (d1, feature) = read_at d0 1 4 in
      if (n == 0) || ltb max_bytes n
      then (d, format, [])
      else if (name_length name 56 == 0) || (name_length name 56 == 56)
      then (d, format, [])
      else elim magic [
        | none ↦ (d0, io, [])
        | some m ↦
            if (get_or m 0 0 != 81)
              || (get_or m 1 0 != 69)
              || (get_or m 2 0 != 77)
              || (get_or m 3 0 != 85)
            then (d0, device, [])
            else elim feature [
              | none ↦ (d1, io, [])
              | some f ↦
                  if (get_or f 0 0 != 1)
                    || (get_or f 1 0 != 0)
                    || (get_or f 2 0 != 0)
                    || (get_or f 3 0 != 0)
                  then (d1, features, [])
                  else read_directory d1 name n
            ]
      ]

  -- `tcs_fwcfg_read`, over what the output held before.
  unfoldable pub fwcfg_read : D → List ℕ → List ℕ → ℕ → D × BootStatus × List ℕ
  fwcfg_read d name output n =
      let (next, status, bytes) = read_item d name n in
      elim status [
        | ok ↦ (next, ok, bytes ++ drop n output)
        | failure ↦
            (next, failure, if leb n max_bytes then replicate n 0 ++ drop n output else output)
      ]

-- `struct tcs_boot_context`
pub record BootContext : Type 0 where
  pub realm : List ℕ
  pub boot : List ℕ
  pub public_key : List ℕ

abbrev pub no_context : BootContext
no_context = record { realm = replicate 32 0; boot = replicate 32 0; public_key = replicate 32 0 }

-- `prefix`
abbrev pub boot_prefix : List ℕ
boot_prefix = 84 ∷ 67 ∷ 83 ∷ 45 ∷ 66 ∷ 79 ∷ 79 ∷ 84 ∷ 1 ∷ 1 ∷ replicate 6 0

-- The loop on the bytes of a field.
unfoldable pub any_bits : List ℕ → ℕ → ℕ
any_bits bytes zero = 0
any_bits bytes (suc i) = bit_or (any_bits bytes i) (get_or bytes i 0)

-- The last loop of the decoder, for one field.
unfoldable pub field : List ℕ → List ℕ
field bytes = copy (replicate 32 0) 0 bytes 32

-- The loop on the fields: none of them is zero.
unfoldable pub fields_nonzero : List ℕ → Bool
fields_nonzero bytes =
    (any_bits (drop 16 bytes) 32 != 0)
    && (any_bits (drop 48 bytes) 32 != 0)
    && (any_bits (drop 80 bytes) 32 != 0)

-- The context that the last loop fills.
unfoldable pub context_of : List ℕ → BootContext
context_of bytes = record {
  realm = field (drop 16 bytes);
  boot = field (drop 48 bytes);
  public_key = field (drop 80 bytes);
}

-- `tcs_boot_decode_test`
unfoldable pub boot_decode_test : Option (List ℕ) → ℕ → BootContext × BootStatus
boot_decode_test none length = (no_context, wrong_length)
boot_decode_test (some bytes) length =
    if length != boot_bytes
    then (no_context, wrong_length)
    else if not (same_name bytes boot_prefix 16)
    then (no_context, format)
    else if not (fields_nonzero bytes)
    then (no_context, format)
    else (context_of bytes, ok)
