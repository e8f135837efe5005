-- ===== src/Boot/Reading.antt =====
-- What the reader of lib/boot.c gives, whatever the device does.
use tcs.Prelude.{
  ℕ, ◌≤◌, ◌≡◌, ◌≢◌, ◌⊎◌, inl, inr, ap, ◌∙◌, Bool, true, List, [], ◌∷◌, get_or, Option, some, arith,
}
use tcs.Boot.{
  ok, max_bytes, max_files, read_at, scan, Scan, be32, name_length, read_selected, read_directory,
  read_file, read_item,
}
use tcs.Boot.Directory.{
  read_fields, scan_entries, scan_entries-IsFound, scan_lem, matching, distinct,
}

-- The characters QEMU.
abbrev pub IsQemu : List ℕ → Type 0
IsQemu m = (get_or m 0 0 ≡ 81) × (get_or m 1 0 ≡ 69) × (get_or m 2 0 ≡ 77) × (get_or m 3 0 ≡ 85)

-- The traditional interface and no other feature.
abbrev pub IsTraditional : List ℕ → Type 0
IsTraditional f = (get_or f 0 0 ≡ 1) × (get_or f 1 0 ≡ 0) × (get_or f 2 0 ≡ 0) × (get_or f 3 0 ≡ 0)

module _ {D : Type 0} (select : D → ℕ → D × Bool) (read : D → D × Option ℕ) where
  -- The device gives a directory in which exactly one entry has the name, with the size, and then the
  -- bytes of the item with the selector of the entry.
  pub record IsItem (d : D) (name : List ℕ) (n : ℕ) (last : D) (bytes : List ℕ) : Type 0 where
    pub after_count : D
    pub count : List ℕ
    pub counted : read_at select read d 0x19 4 ≡ (after_count, some count)
    pub bounded : be32 count ≤ max_files
    pub after_fields : D
    pub fields : List (List ℕ)
    pub listed : read_fields select read after_count (be32 count) ≡ (after_fields, some fields)
    pub well_formed : distinct [] fields ≡ true
    pub key : ℕ
    pub only : matching name fields ≡ (key, n) ∷ []
    pub held : read_at select read after_fields key n ≡ (last, some bytes)

  abbrev empty : Scan
  empty = record { selectors = []; selected = 0; selected_size = 0 }

  read_selected_cases :
      (d : D) (s : Scan) (n : ℕ)
      → let (last, status, bytes) = read_selected select read d s n in
        (status ≢ ok)
        ⊎ ((s.selected ≢ 0)
            × (s.selected_size ≡ n)
            × (read_at select read d s.selected n ≡ (last, some bytes)))
  unfolding read_selected
  read_selected_cases d s n = ground arith

  read_file_cases :
      (d : D) (name : List ℕ) (count n : ℕ)
      → let (next, scanned, s) = scan select read d name empty count in
        ((read_file select read d name count n).1 ≢ ok)
        ⊎ ((count ≤ max_files)
            × (scanned ≡ ok)
            × (read_file select read d name count n ≡ read_selected select read next s n))
  unfolding read_file
  read_file_cases d name count n = ground arith

  read_directory_cases :
      (d : D) (name : List ℕ) (n : ℕ)
      → let (next, head) = read_at select read d 0x19 4 in
        ((read_directory select read d name n).1 ≢ ok)
        ⊎ ((field : List ℕ) × (head ≡ some field)
            × (read_directory select read d name n
                ≡ read_file select read next name (be32 field) n))
  unfolding read_directory
  read_directory_cases d name n = ground arith

  found_lem :
      (name : List ℕ) (fields : List (List ℕ)) (s : Scan)
      → scan_entries name empty fields ≡ some s
      → s.selected ≢ 0
      → (distinct [] fields ≡ true) × (matching name fields ≡ (s.selected, s.selected_size) ∷ [])
  found_lem name fields s h d = ground (arith, scan_entries-IsFound name empty fields s h)

  read_directory_lem :
      (d : D) (name : List ℕ) (n : ℕ)
      → let (last, status, bytes) = read_directory select read d name n in
        (status ≢ ok) ⊎ IsItem d name n last bytes
  read_directory_lem d name n =
      let d0 = (read_at select read d 0x19 4).0 in
      elim (read_directory_cases d name n) [
        | inl failed ↦ inl failed
        | inr (field, head, e) ↦ elim (read_file_cases d0 name (be32 field) n) [
          | inl failed ↦ rw e (inl failed)
          | inr (bounded, scanned, f) ↦
              let (next, status, s) = scan select read d0 name empty (be32 field) in
              elim (scan_lem select read d0 name empty (be32 field)) [
                | inl failed ↦ absurd (failed scanned)
                | inr (fields, listed, entries) ↦ elim (read_selected_cases next s n) [
                  | inl failed ↦ rw (e, f) (inl failed)
                  | inr (nonzero, size, held) ↦
                      let (well_formed, only) = found_lem name fields s entries nonzero in
                      rw (e, f)
                        (inr (record {
                          after_count = d0;
                          count = field;
                          counted = ap (λ (o : Option (List ℕ)). (d0, o)) head;
                          bounded = bounded;
                          after_fields = next;
                          fields = fields;
                          listed = listed;
                          well_formed = well_formed;
                          key = s.selected;
                          only = only ∙ ap (λ (t : ℕ). (s.selected, t) ∷ []) size;
                          held = held;
                        }))
                ]
              ]
        ]
      ]

  -- The device answers for itself, with the traditional interface alone, and gives the item.
  pub record IsRead (d : D) (name : List ℕ) (n : ℕ) (last : D) (bytes : List ℕ) : Type 0 where
    pub after_magic : D
    pub magic : List ℕ
    pub answered : read_at select read d 0 4 ≡ (after_magic, some magic)
    pub qemu : IsQemu magic
    pub after_feature : D
    pub feature : List ℕ
    pub asked : read_at select read after_magic 1 4 ≡ (after_feature, some feature)
    pub traditional : IsTraditional feature
    pub nonempty : n ≢ 0
    pub fits : n ≤ max_bytes
    pub named : (name_length name 56 ≢ 0) × (name_length name 56 ≢ 56)
    pub item : IsItem after_feature name n last bytes

  read_item_cases :
      (d : D) (name : List ℕ) (n : ℕ)
      → let (d0, magic) = read_at select read d 0 4 in
        let (d1, feature) = read_at select read d0 1 4 in
        ((read_item select read d name n).1 ≢ ok)
        ⊎ ((n ≢ 0)
            × (n ≤ max_bytes)
            × (name_length name 56 ≢ 0)
            × (name_length name 56 ≢ 56)
            × ((m : List ℕ) × (magic ≡ some m) × IsQemu m)
            × ((f : List ℕ) × (feature ≡ some f) × IsTraditional f)
            × (read_item select read d name n ≡ read_directory select read d1 name n))
  unfolding read_item
  read_item_cases d name n = ground arith

  pub read_item_lem :
      (d : D) (name : List ℕ) (n : ℕ)
      → let (last, status, bytes) = read_item select read d name n in
        (status ≢ ok) ⊎ IsRead d name n last bytes
  read_item_lem d name n =
      let (d0, _) = read_at select read d 0 4 in
      let (d1, _) = read_at select read d0 1 4 in
      elim (read_item_cases d name n) [
        | inl failed ↦ inl failed
        | inr (nonempty, fits, some_name, short, (m, magic, qemu), (f, feature, traditional), e) ↦
            elim (read_directory_lem d1 name n) [
              | inl failed ↦ rw e (inl failed)
              | inr item ↦ rw e (
                  inr (record {
                    after_magic = d0;
                    magic = m;
                    answered = ap (λ (o : Option (List ℕ)). (d0, o)) magic;
                    qemu = qemu;
                    after_feature = d1;
                    feature = f;
                    asked = ap (λ (o : Option (List ℕ)). (d1, o)) feature;
                    traditional = traditional;
                    nonempty = nonempty;
                    fits = fits;
                    named = (some_name, short);
                    item = item;
                  }))
            ]
      ]
