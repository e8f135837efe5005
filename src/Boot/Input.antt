-- ===== src/Boot/Input.antt =====
-- `tcs_fwcfg_read` and `tcs_boot_decode_test` of lib/boot.c.
use tcs.Prelude.{
  take, take-get_or, length-drop, copy_field, fields_112, ℕ, zero, suc, ◌≤◌, ◌<◌, ◌≡◌, ◌≢◌, ◌⊎◌,
  inl, inr, Bool, refl, ap, sym, ◌∙◌, true, false, List, [], ◌++◌, length, get_or, replicate, drop,
  Option, none, some, arith,
}
use tcs.Boot.{
  ok, max_bytes, read_bytes, read_at, read_item, fwcfg_read, boot_bytes, boot_prefix, same_name,
  fields_nonzero, context_of, field, boot_decode_test, no_context,
}
use tcs.Boot.Reading.{IsRead, read_item_lem}

-- What becomes of the output when the reader fails: an item that may be read at all is cleared.
abbrev pub IsCleared : List ℕ → ℕ → List ℕ → Type 0
IsCleared output n out =
    ((n ≤ max_bytes) × (out ≡ replicate n 0 ++ drop n output)) ⊎ ((max_bytes < n) × (out ≡ output))

module _ {D : Type 0} (select : D → ℕ → D × Bool) (read : D → D × Option ℕ) where
  read_bytes-length :
      (d : D) (n : ℕ)
      → let (_, out) = read_bytes select read d n in
        (out ≡ none) ⊎ ((bytes : List ℕ) × (out ≡ some bytes) × (length bytes ≡ n))
  unfolding read_bytes
  read_bytes-length d zero = inr ([], refl, refl)
  read_bytes-length d (suc n) = ground (arith, read_bytes-length (read d).0 n)

  read_at-length :
      (d last : D) (key n : ℕ) (bytes : List ℕ)
      → read_at select read d key n ≡ (last, some bytes)
      → length bytes ≡ n
  unfolding read_at
  read_at-length d last key n bytes h = ground (arith, read_bytes-length (select d key).0 n)

  IsRead-length :
      (d last : D) (name bytes : List ℕ) (n : ℕ)
      → IsRead select read d name n last bytes
      → length bytes ≡ n
  IsRead-length d last name bytes n r =
      read_at-length r.item.after_fields last r.item.key n bytes r.item.held

  fwcfg_read_cases :
      (d : D) (name output : List ℕ) (n : ℕ)
      → let (next, before, bytes) = read_item select read d name n in
        let (last, status, out) = fwcfg_read select read d name output n in
        ((status ≢ ok) × IsCleared output n out)
        ⊎ ((before ≡ ok) × (status ≡ ok) × (last ≡ next) × (out ≡ bytes ++ drop n output))
  unfolding fwcfg_read
  fwcfg_read_cases d name output n = ground arith

  -- Whatever the device does, the reader either fails and clears the output, unless it may not be
  -- read at all, or succeeds and puts the bytes of the one item of the name, which has the size that
  -- is asked for, at the start of the output.
  pub fwcfg_read_lem :
      (d : D) (name output : List ℕ) (n : ℕ)
      → let (last, status, out) = fwcfg_read select read d name output n in
        ((status ≢ ok) × IsCleared output n out)
        ⊎ ((bytes : List ℕ) × (status ≡ ok)
            × (out ≡ bytes ++ drop n output)
            × (length bytes ≡ n)
            × IsRead select read d name n last bytes)
  fwcfg_read_lem d name output n =
      let (next, _, bytes) = read_item select read d name n in
      elim (fwcfg_read_cases d name output n) [
        | inl failed ↦ inl failed
        | inr (good, status, same, out) ↦ elim (read_item_lem select read d name n) [
          | inl failed ↦ absurd (failed good)
          | inr r ↦ inr (bytes, status, out, IsRead-length d next name bytes n r, rw same r)
        ]
      ]

same_name-take :
    (bytes prefix : List ℕ) (n : ℕ)
    → n ≤ length bytes
    → n ≤ length prefix
    → same_name bytes prefix n ≡ true
    → take n bytes ≡ take n prefix
unfolding same_name
same_name-take bytes prefix zero h k s = refl
same_name-take bytes prefix (suc n) h k s =
    let before : same_name bytes prefix n ≡ true = ground arith in
    let here : get_or bytes n 0 ≡ get_or prefix n 0 = ground arith in
    rw
      (
        take-get_or n bytes (omega arith),
        take-get_or n prefix (omega arith),
        here,
        same_name-take bytes prefix n (omega arith) (omega arith) before,
      )
      refl

field_lem : (xs : List ℕ) → 32 ≤ length xs → field xs ≡ take 32 xs
unfolding field
field_lem xs h = copy_field xs h

-- The size, the prefix or a field of the bytes is wrong.
abbrev pub IsRefused : List ℕ → ℕ → Type 0
IsRefused bytes size =
    (size ≢ boot_bytes) ⊎ (same_name bytes boot_prefix 16 ≡ false) ⊎ (fields_nonzero bytes ≡ false)

boot_decode_test_cases :
    (bytes : List ℕ) (size : ℕ)
    → let r = boot_decode_test (some bytes) size in
      ((r.1 ≢ ok) × (r.0 ≡ no_context) × IsRefused bytes size)
      ⊎ ((r ≡ (context_of bytes, ok))
          × (size ≡ boot_bytes)
          × (same_name bytes boot_prefix 16 ≡ true)
          × (fields_nonzero bytes ≡ true))
unfolding boot_decode_test
boot_decode_test_cases bytes size = ground arith

context_of_lem :
    (bytes : List ℕ)
    → length bytes ≡ 112
    → same_name bytes boot_prefix 16 ≡ true
    → let c = context_of bytes in bytes ≡ ((boot_prefix ++ c.realm) ++ c.boot) ++ c.public_key
unfolding context_of
context_of_lem bytes l head =
    let e1 = field_lem (drop 16 bytes) (omega (arith, length-drop 16 bytes (omega arith))) in
    let e2 = field_lem (drop 48 bytes) (omega (arith, length-drop 48 bytes (omega arith))) in
    let e3 = field_lem (drop 80 bytes) (omega (arith, length-drop 80 bytes (omega arith))) in
    let start = same_name-take bytes boot_prefix 16 (omega arith) (omega arith) head in
    sym (fields_112 bytes l)
    ∙ ap
        (λ (t : List ℕ).
          ((t ++ take 32 (drop 16 bytes)) ++ take 32 (drop 48 bytes)) ++ take 32 (drop 80 bytes))
        start
    ∙ rw (e1, e2, e3) refl

-- Bytes are refused without a context, for a wrong size, a wrong prefix or a field that is zero, or
-- they are the prefix and the three fields of the context, one behind the other, none of them zero.
pub boot_decode_test_lem :
    (bytes : List ℕ)
    → let (c, status) = boot_decode_test (some bytes) (length bytes) in
      ((status ≢ ok) × (c ≡ no_context) × IsRefused bytes (length bytes))
      ⊎ ((status ≡ ok)
          × (bytes ≡ ((boot_prefix ++ c.realm) ++ c.boot) ++ c.public_key)
          × (fields_nonzero bytes ≡ true))
boot_decode_test_lem bytes = elim (boot_decode_test_cases bytes (length bytes)) [
  | inl refused ↦ inl refused
  | inr (e, l, head, nonzero) ↦ rw e (inr (refl, context_of_lem bytes l head, nonzero))
]
