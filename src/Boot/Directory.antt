-- ===== src/Boot/Directory.antt =====
-- The directory of the fw_cfg device, as lib/boot.c scans it.
use tcs.Prelude.{
  ℕ, zero, suc, ◌≡◌, ◌≢◌, ◌⊎◌, inl, inr, refl, ap, sym, ◌∙◌, Bool, true, false, not, ◌&&◌,
  if◌then◌else◌, List, [], ◌∷◌, ◌++◌, Option, none, some, arith,
}
use tcs.Boot.{
  ok, io, directory, read_bytes, scan, Scan, scan_entry, entry_ok, entry_key, entry_match, seen,
  be32,
}

-- The entries of a directory, through the scan.
unfoldable pub scan_entries : List ℕ → Scan → List (List ℕ) → Option Scan
scan_entries name s [] = some s
scan_entries name s (f ∷ fields) = elim (scan_entry name s f) [
  | none ↦ none
  | some next ↦ scan_entries name next fields
]

-- The selectors and sizes of the entries with the name.
unfoldable pub matching : List ℕ → List (List ℕ) → List (ℕ × ℕ)
matching name [] = []
matching name (f ∷ fields) =
    let rest = matching name fields in
    if entry_match name f then (entry_key f, be32 f) ∷ rest else rest

-- The entries are well formed, and no selector comes twice or is one of those before.
unfoldable pub distinct : List ℕ → List (List ℕ) → Bool
distinct before [] = true
distinct before (f ∷ fields) =
    entry_ok f && not (seen (entry_key f) before) && distinct (before ++ entry_key f ∷ []) fields

-- What a scan that succeeds has found, from nothing selected or from an entry selected before.
abbrev IsFound : List ℕ → Scan → List (List ℕ) → Scan → Type 0
IsFound name s fields last =
    ((s.selected ≡ 0) × (matching name fields ≡ []) × (last.selected ≡ 0))
    ⊎ ((s.selected ≡ 0)
        × (matching name fields ≡ (last.selected, last.selected_size) ∷ [])
        × (last.selected ≢ 0))
    ⊎ ((s.selected ≢ 0)
        × (matching name fields ≡ [])
        × (last.selected ≡ s.selected)
        × (last.selected_size ≡ s.selected_size))

pub entry_ok-key : (f : List ℕ) → entry_ok f ≡ true → entry_key f ≢ 0
unfolding entry_ok
entry_ok-key f h = ground arith

-- The scan after an entry that is passed by, and after one that is selected.
abbrev pub noted : Scan → List ℕ → Scan
noted s f = record s { selectors = s.selectors ++ entry_key f ∷ [] }

abbrev pub taken : Scan → List ℕ → Scan
taken s f = record (noted s f) { selected = entry_key f; selected_size = be32 f }

scan_entry_cases :
    (name : List ℕ) (s : Scan) (f : List ℕ)
    → (scan_entry name s f ≡ none)
      ⊎ ((entry_ok f ≡ true)
          × (seen (entry_key f) s.selectors ≡ false)
          × (((entry_match name f ≡ false) × (scan_entry name s f ≡ some (noted s f)))
              ⊎ ((entry_match name f ≡ true)
                  × (s.selected ≡ 0)
                  × (scan_entry name s f ≡ some (taken s f)))))
unfolding scan_entry
scan_entry_cases name s f = ground arith

pub scan_entries-IsFound :
    (name : List ℕ) (s : Scan) (fields : List (List ℕ)) (last : Scan)
    → scan_entries name s fields ≡ some last
    → (distinct s.selectors fields ≡ true) × IsFound name s fields last
unfolding scan_entries distinct matching
scan_entries-IsFound name s [] last h = ground arith
scan_entries-IsFound name s (f ∷ fields) last h = elim (scan_entry_cases name s f) [
  | inl e ↦ absurd (ground (arith, e, h))
  | inr (good, fresh, inl (other, e)) ↦
      let rest : scan_entries name (noted s f) fields ≡ some last = ground (arith, e, h) in
      let (d, found) = scan_entries-IsFound name (noted s f) fields last rest in
      (rw (good, fresh) d, rw other found)
  | inr (good, fresh, inr (mine, free, e)) ↦
      let rest : scan_entries name (taken s f) fields ≡ some last = ground (arith, e, h) in
      let (d, found) = scan_entries-IsFound name (taken s f) fields last rest in
      (
        rw (good, fresh) d,
        let nonzero = entry_ok-key f good in rw mine (ground (arith, found, free, nonzero)),
      )
]

pub given : {A : Type 0} (o : Option A) → (o ≡ none) ⊎ ((a : A) × (o ≡ some a))
given none = inl refl
given (some a) = inr (a, refl)

pub scan_entries_next :
    (name : List ℕ) (s next last : Scan) (f : List ℕ) (fields : List (List ℕ))
    → scan_entry name s f ≡ some next
    → scan_entries name next fields ≡ some last
    → scan_entries name s (f ∷ fields) ≡ some last
unfolding scan_entries
scan_entries_next name s next last f fields k h = rw (k, scan_entries) h

module _ {D : Type 0} (select : D → ℕ → D × Bool) (read : D → D × Option ℕ) where
  -- The entries that the device gives.
  unfoldable pub read_fields : D → ℕ → D × Option (List (List ℕ))
  read_fields d zero = (d, some [])
  read_fields d (suc n) =
      let (next, entry) = read_bytes select read d 64 in
      let (last, rest) = read_fields next n in
      elim entry [
        | none ↦ (next, none)
        | some field ↦ elim rest [
          | none ↦ (last, none)
          | some fields ↦ (last, some (field ∷ fields))
        ]
      ]

  read_fields_next :
      (d : D) (n : ℕ) (f : List ℕ) (last : D) (fields : List (List ℕ))
      → (read_bytes select read d 64).1 ≡ some f
      → read_fields (read_bytes select read d 64).0 n ≡ (last, some fields)
      → read_fields d (suc n) ≡ (last, some (f ∷ fields))
  unfolding read_fields
  read_fields_next d n f last fields e r =
      rw (e, read_fields)
        (rw (ap (λ (x : D × Option (List (List ℕ))). x.1) r)
          (ap (λ (x : D × Option (List (List ℕ))). (x.0, some (f ∷ fields))) r))

  scan_zero :
      (d : D) (name : List ℕ) (s : Scan)
      → let (after, status, last) = scan select read d name s 0 in
        (status ≢ ok)
        ⊎ ((fields : List (List ℕ)) × (read_fields d 0 ≡ (after, some fields))
            × (scan_entries name s fields ≡ some last))
  unfolding scan read_fields scan_entries
  scan_zero d name s = inr ([], refl, refl)

  scan-none :
      (d : D) (name : List ℕ) (s : Scan) (n : ℕ)
      → (read_bytes select read d 64).1 ≡ none
      → (scan select read d name s (suc n)).1 ≡ io
  unfolding scan
  scan-none d name s n e = rw (e, scan) refl

  scan_refused :
      (d : D) (name : List ℕ) (s : Scan) (n : ℕ) (f : List ℕ)
      → (read_bytes select read d 64).1 ≡ some f
      → scan_entry name s f ≡ none
      → (scan select read d name s (suc n)).1 ≡ directory
  unfolding scan
  scan_refused d name s n f e k = rw (e, scan) (rw k refl)

  pub scan_next :
      (d : D) (name : List ℕ) (s : Scan) (n : ℕ) (f : List ℕ) (next : Scan)
      → (read_bytes select read d 64).1 ≡ some f
      → scan_entry name s f ≡ some next
      → scan select read d name s (suc n)
        ≡ scan select read (read_bytes select read d 64).0 name next n
  unfolding scan
  scan_next d name s n f next e k = rw (e, scan) (rw k refl)

  -- A scan that succeeds has gone through the entries that the device gives.
  pub scan_lem :
      (d : D) (name : List ℕ) (s : Scan) (n : ℕ)
      → let (after, status, last) = scan select read d name s n in
        (status ≢ ok)
        ⊎ ((fields : List (List ℕ)) × (read_fields d n ≡ (after, some fields))
            × (scan_entries name s fields ≡ some last))
  scan_lem d name s zero = scan_zero d name s
  scan_lem d name s (suc n) =
      let next = (read_bytes select read d 64).0 in
      elim (given (read_bytes select read d 64).1) [
        | inl e ↦ inl (λ h. ground (arith, sym (scan-none d name s n e) ∙ h))
        | inr (f, e) ↦ elim (given (scan_entry name s f)) [
          | inl k ↦ inl (λ h. ground (arith, sym (scan_refused d name s n f e k) ∙ h))
          | inr (t, k) ↦ rw (scan_next d name s n f t e k) (elim (scan_lem next name t n) [
            | inl failed ↦ inl failed
            | inr (fields, r, found) ↦ inr (
              f ∷ fields,
              read_fields_next d n f (scan select read next name t n).0 fields e r,
              scan_entries_next name s t (scan select read next name t n).2 f fields k found,
            )
          ])
        ]
      ]
