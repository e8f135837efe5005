-- ===== src/Boot/Finding.antt =====
-- The scan of lib/boot.c goes through a directory that is well formed, and finds the entry in it.
use tcs.Prelude.{
  ℕ, zero, suc, ◌≡◌, ◌≢◌, ◌⊎◌, inl, inr, refl, ap, sym, ◌∙◌, Bool, true, false, List, [], ◌∷◌, ◌++◌,
  Option, some, arith,
}
use tcs.Boot.{ok, read_bytes, scan, Scan, scan_entry, entry_ok, entry_key, entry_match, seen, be32}
use tcs.Boot.Directory.{
  entry_ok-key, scan_entries, matching, distinct, noted, taken, read_fields, scan_entries_next,
  scan_next,
}

scan_entry-noted :
    (name : List ℕ) (s : Scan) (f : List ℕ)
    → entry_ok f ≡ true
    → seen (entry_key f) s.selectors ≡ false
    → entry_match name f ≡ false
    → scan_entry name s f ≡ some (noted s f)
unfolding scan_entry
scan_entry-noted name s f good fresh m = ground arith

scan_entry-taken :
    (name : List ℕ) (s : Scan) (f : List ℕ)
    → entry_ok f ≡ true
    → seen (entry_key f) s.selectors ≡ false
    → entry_match name f ≡ true
    → s.selected ≡ 0
    → scan_entry name s f ≡ some (taken s f)
unfolding scan_entry
scan_entry-taken name s f good fresh m z = ground arith

distinct_cases :
    (before f : List ℕ) (fields : List (List ℕ))
    → distinct before (f ∷ fields) ≡ true
    → (entry_ok f ≡ true)
      × (seen (entry_key f) before ≡ false)
      × (distinct (before ++ entry_key f ∷ []) fields ≡ true)
unfolding distinct
distinct_cases before f fields h = ground arith

matching_cases :
    (name f : List ℕ) (fields : List (List ℕ))
    → ((entry_match name f ≡ false) × (matching name (f ∷ fields) ≡ matching name fields))
      ⊎ ((entry_match name f ≡ true)
          × (matching name (f ∷ fields) ≡ (entry_key f, be32 f) ∷ matching name fields))
unfolding matching
matching_cases name f fields = ground arith

matching_nil : (name : List ℕ) (e : ℕ × ℕ) → matching name [] ≢ e ∷ []
unfolding matching
matching_nil name e h = ground (arith, h)

scan_entries_cases :
    (name : List ℕ) (s last : Scan) (f : List ℕ) (fields : List (List ℕ))
    → scan_entries name s (f ∷ fields) ≡ some last
    → (t : Scan) × (scan_entry name s f ≡ some t) × (scan_entries name t fields ≡ some last)
unfolding scan_entries
scan_entries_cases name s last f fields h = ground arith

-- Entries among which none has the name are passed by.
pass :
    (name : List ℕ) (s : Scan) (fields : List (List ℕ))
    → distinct s.selectors fields ≡ true
    → matching name fields ≡ []
    → (last : Scan) × (scan_entries name s fields ≡ some last)
      × (last.selected ≡ s.selected)
      × (last.selected_size ≡ s.selected_size)
unfolding scan_entries
pass name s [] d m = (s, refl, refl, refl)
pass name s (f ∷ fields) d m =
    let (good, fresh, rest) = distinct_cases s.selectors f fields d in
    elim (matching_cases name f fields) [
      | inl (other, e) ↦
          let (last, h, k, z) = pass name (noted s f) fields rest (sym e ∙ m) in
          (
            last,
            scan_entries_next name s (noted s f) last f fields
                (scan_entry-noted name s f good fresh other) h,
            k,
            z,
          )
      | inr (_, e) ↦ absurd (ground (arith, e, m))
    ]

-- The one entry that has the name is found.
pub find :
    (name : List ℕ) (s : Scan) (fields : List (List ℕ)) (key n : ℕ)
    → s.selected ≡ 0
    → distinct s.selectors fields ≡ true
    → matching name fields ≡ (key, n) ∷ []
    → (last : Scan) × (scan_entries name s fields ≡ some last)
      × (last.selected ≡ key)
      × (last.selected_size ≡ n)
      × (key ≢ 0)
find name s [] key n z d m = absurd (matching_nil name (key, n) m)
find name s (f ∷ fields) key n z d m =
    let (good, fresh, rest) = distinct_cases s.selectors f fields d in
    elim (matching_cases name f fields) [
      | inl (other, e) ↦
          let (last, h, k, size, q) = find name (noted s f) fields key n z rest (sym e ∙ m) in
          (
            last,
            scan_entries_next name s (noted s f) last f fields
                (scan_entry-noted name s f good fresh other) h,
            k,
            size,
            q,
          )
      | inr (mine, e) ↦
          let none_left : matching name fields ≡ [] = ground (arith, e, m) in
          let (last, h, k, size) = pass name (taken s f) fields rest none_left in
          let same : (entry_key f ≡ key) × (be32 f ≡ n) = ground (arith, e, m) in
          (
            last,
            scan_entries_next name s (taken s f) last f fields
                (scan_entry-taken name s f good fresh mine z) h,
            k ∙ same.0,
            size ∙ same.1,
            λ zero_key. entry_ok-key f good (same.0 ∙ zero_key),
          )
    ]

module _ {D : Type 0} (select : D → ℕ → D × Bool) (read : D → D × Option ℕ) where
  read_fields_cases :
      (d after : D) (n : ℕ) (fields : List (List ℕ))
      → read_fields select read d (suc n) ≡ (after, some fields)
      → (f : List ℕ) × ((rest : List (List ℕ)) × ((read_bytes select read d 64).1 ≡ some f)
          × (read_fields select read (read_bytes select read d 64).0 n ≡ (after, some rest))
          × (fields ≡ f ∷ rest))
  unfolding read_fields
  read_fields_cases d after n fields h = ground arith

  scan-no_fields :
      (d after : D) (name : List ℕ) (s last : Scan) (fields : List (List ℕ))
      → read_fields select read d 0 ≡ (after, some fields)
      → scan_entries name s fields ≡ some last
      → scan select read d name s 0 ≡ (after, ok, last)
  unfolding scan read_fields scan_entries
  scan-no_fields d after name s last fields r h = ground arith

  pub scan-read_fields :
      (d after : D) (name : List ℕ) (s last : Scan) (n : ℕ) (fields : List (List ℕ))
      → read_fields select read d n ≡ (after, some fields)
      → scan_entries name s fields ≡ some last
      → scan select read d name s n ≡ (after, ok, last)
  scan-read_fields d after name s last zero fields r h =
      scan-no_fields d after name s last fields r h
  scan-read_fields d after name s last (suc n) fields r h =
      let (f, (rest, e, listed, shape)) = read_fields_cases d after n fields r in
      let whole = ap (scan_entries name s) (sym shape) ∙ h in
      let (t, k, g) = scan_entries_cases name s last f rest whole in
      scan_next select read d name s n f t e k
      ∙ scan-read_fields (read_bytes select read d 64).0 after name t last n rest listed g
