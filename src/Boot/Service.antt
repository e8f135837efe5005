-- ===== src/Boot/Service.antt =====
-- A device that has the item serves it: the reader of lib/boot.c succeeds.
use tcs.Prelude.{ℕ, ◌≤◌, ◌≡◌, ◌≢◌, refl, ◌∙◌, Bool, List, [], ◌++◌, drop, Option, some, arith}
use tcs.Boot.{
  ok, max_bytes, max_files, read_at, scan, Scan, be32, name_length, read_selected, read_file,
  read_directory, read_item, fwcfg_read,
}
use tcs.Boot.Finding.{find, scan-read_fields}
use tcs.Boot.Reading.{IsQemu, IsTraditional, IsItem, IsRead}

module _ {D : Type 0} (select : D → ℕ → D × Bool) (read : D → D × Option ℕ) where
  read_selected_ok :
      (d last : D) (s : Scan) (n key : ℕ) (bytes : List ℕ)
      → s.selected ≡ key
      → key ≢ 0
      → s.selected_size ≡ n
      → read_at select read d key n ≡ (last, some bytes)
      → read_selected select read d s n ≡ (last, ok, bytes)
  unfolding read_selected
  read_selected_ok d last s n key bytes k z size held = ground arith

  read_file_ok :
      (d next : D) (name : List ℕ) (s : Scan) (count n : ℕ)
      → count ≤ max_files
      → scan select read d name (record { selectors = []; selected = 0; selected_size = 0 }) count
        ≡ (next, ok, s)
      → read_file select read d name count n ≡ read_selected select read next s n
  unfolding read_file
  read_file_ok d next name s count n h e = ground arith

  read_directory_step :
      (d next : D) (name : List ℕ) (n : ℕ) (count : List ℕ)
      → read_at select read d 0x19 4 ≡ (next, some count)
      → read_directory select read d name n ≡ read_file select read next name (be32 count) n
  unfolding read_directory
  read_directory_step d next name n count h = ground arith

  read_item_step :
      (d next last : D) (name : List ℕ) (n : ℕ) (m f : List ℕ)
      → read_at select read d 0 4 ≡ (next, some m)
      → read_at select read next 1 4 ≡ (last, some f)
      → IsQemu m
      → IsTraditional f
      → n ≢ 0
      → n ≤ max_bytes
      → name_length name 56 ≢ 0
      → name_length name 56 ≢ 56
      → read_item select read d name n ≡ read_directory select read last name n
  unfolding read_item
  read_item_step d next last name n m f h k q t z l a b = ground arith

  fwcfg_read_step :
      (d last : D) (name output : List ℕ) (n : ℕ) (bytes : List ℕ)
      → read_item select read d name n ≡ (last, ok, bytes)
      → fwcfg_read select read d name output n ≡ (last, ok, bytes ++ drop n output)
  unfolding fwcfg_read
  fwcfg_read_step d last name output n bytes h = ground arith

  read_directory_ok :
      (d last : D) (name : List ℕ) (n : ℕ) (bytes : List ℕ)
      → IsItem select read d name n last bytes
      → read_directory select read d name n ≡ (last, ok, bytes)
  read_directory_ok d last name n bytes i =
      let empty : Scan = record { selectors = []; selected = 0; selected_size = 0 } in
      let (s, h, k, size, nonzero) = find name empty i.fields i.key n refl i.well_formed i.only in
      let scanned =
        scan-read_fields select read i.after_count i.after_fields name empty s (be32 i.count)
          i.fields i.listed h in
      let file =
        read_file_ok i.after_count i.after_fields name s (be32 i.count) n i.bounded scanned in
      let selected = read_selected_ok i.after_fields last s n i.key bytes k nonzero size i.held in
      read_directory_step d i.after_count name n i.count i.counted ∙ file ∙ selected

  read_item_ok :
      (d last : D) (name : List ℕ) (n : ℕ) (bytes : List ℕ)
      → IsRead select read d name n last bytes
      → read_item select read d name n ≡ (last, ok, bytes)
  read_item_ok d last name n bytes r =
      let served = read_directory_ok r.after_feature last name n bytes r.item in
      read_item_step d r.after_magic r.after_feature name n r.magic r.feature r.answered r.asked
        r.qemu r.traditional r.nonempty r.fits r.named.0 r.named.1
      ∙ served

  -- When the device answers for itself and has the traditional interface alone, 1 to 256 bytes are
  -- asked for by a name of 1 to 55 characters, and the device gives a directory of at most 64
  -- entries, all well formed and with selectors of their own, of which exactly one has the name,
  -- and has that size, and then the bytes of its item, the reader succeeds and puts these bytes at
  -- the start of the output.
  pub fwcfg_read_ok :
      (d last : D) (name output : List ℕ) (n : ℕ) (bytes : List ℕ)
      → IsRead select read d name n last bytes
      → fwcfg_read select read d name output n ≡ (last, ok, bytes ++ drop n output)
  fwcfg_read_ok d last name output n bytes r =
      fwcfg_read_step d last name output n bytes (read_item_ok d last name n bytes r)
