-- ===== src/Launch/Canonical.antt =====
-- The bytes that lib/launch.c decodes are the bytes that it encodes: the format has no other encoding.
use mathlib.Core.List.{append-nil}
use tcs.Prelude.{
  take-get_or, length-drop, copy_field, fields_112, length-take_le, ℕ, zero, suc, ◌≤◌, ◌%◌, ◌≡◌,
  refl, ap, sym, ◌∙◌, true, List, ◌++◌, length, get_or, take, drop, some, arith,
}
use tcs.Launch.{
  Launch, launch_prefix, header, same_below, identity_valid, nonzero, field, write_launch,
  launch_encode, launch_decode,
}
use tcs.Launch.Encoding.{named, write_launch_lem}

same_below-take :
    (bytes prefix : List ℕ) (n : ℕ)
    → n ≤ length bytes
    → n ≤ length prefix
    → same_below bytes prefix n ≡ true
    → take n bytes ≡ take n prefix
unfolding same_below
same_below-take bytes prefix zero h k s = refl
same_below-take bytes prefix (suc n) h k s =
    let before : same_below bytes prefix n ≡ true = ground arith in
    let here : get_or bytes n 0 ≡ get_or prefix n 0 = ground arith in
    rw
      (
        take-get_or n bytes (omega arith),
        take-get_or n prefix (omega arith),
        here,
        same_below-take bytes prefix n (omega arith) (omega arith) before,
      )
      refl

field_lem : (xs : List ℕ) → 32 ≤ length xs → (field xs ≡ take 32 xs) × (length (field xs) ≡ 32)
unfolding field
field_lem xs h = (copy_field xs h, ap length (copy_field xs h) ∙ length-take_le 32 xs h)

-- The launch that stands in the bytes.
abbrev launch_of : List ℕ → Launch
launch_of bytes = record {
  identity = record { realm = field (drop 16 bytes); public_key = field (drop 80 bytes) };
  boot = field (drop 48 bytes);
}

launch_decode-launch_of :
    (bytes : List ℕ) (mode : ℕ)
    → (launch_decode (some bytes) 112 mode).1 ≡ true
    → ((launch_decode (some bytes) 112 mode).0 ≡ launch_of bytes)
      × (header bytes launch_prefix mode ≡ true)
      × (identity_valid (launch_of bytes).identity mode ≡ true)
      × (nonzero (launch_of bytes).boot ≡ true)
unfolding launch_decode
launch_decode-launch_of bytes mode h = ground arith

header-named :
    (bytes : List ℕ) (mode : ℕ)
    → 16 ≤ length bytes
    → header bytes launch_prefix mode ≡ true
    → take 16 bytes ≡ named launch_prefix mode
unfolding header
header-named bytes mode l h =
    let same : same_below bytes launch_prefix 15 ≡ true = ground arith in
    let here : get_or bytes 15 0 ≡ mode % 256 = ground arith in
    take-get_or 15 bytes (omega arith)
    ∙ rw (here, same_below-take bytes launch_prefix 15 (omega arith) (omega arith) same) refl

layout_of :
    (bytes : List ℕ)
    → length bytes ≡ 112
    → ((take 16 bytes ++ field (drop 16 bytes)) ++ field (drop 48 bytes)) ++ field (drop 80 bytes)
      ≡ bytes
layout_of bytes l =
    let (e1, _) = field_lem (drop 16 bytes) (omega (arith, length-drop 16 bytes (omega arith))) in
    let (e2, _) = field_lem (drop 48 bytes) (omega (arith, length-drop 48 bytes (omega arith))) in
    let (e3, _) = field_lem (drop 80 bytes) (omega (arith, length-drop 80 bytes (omega arith))) in
    rw (e1, e2, e3) (fields_112 bytes l)

-- The bytes that are decoded in a mode are those that the decoded launch is encoded to in it.
pub launch_encode-launch_decode :
    (bytes : List ℕ) (mode : ℕ)
    → length bytes ≡ 112
    → (launch_decode (some bytes) 112 mode).1 ≡ true
    → launch_encode (launch_decode (some bytes) 112 mode).0 mode ≡ (bytes, true)
unfolding launch_encode
launch_encode-launch_decode bytes mode l ok =
    let (e, h, v, n) = launch_decode-launch_of bytes mode ok in
    let (_, r) = field_lem (drop 16 bytes) (omega (arith, length-drop 16 bytes (omega arith))) in
    let (_, b) = field_lem (drop 48 bytes) (omega (arith, length-drop 48 bytes (omega arith))) in
    let (_, k) = field_lem (drop 80 bytes) (omega (arith, length-drop 80 bytes (omega arith))) in
    let written : write_launch (launch_of bytes) mode ≡ bytes =
      write_launch_lem (launch_of bytes) mode r b k
      ∙ append-nil (
          ((named launch_prefix mode ++ field (drop 16 bytes)) ++ field (drop 48 bytes))
          ++ field (drop 80 bytes))
      ∙ ap
          (λ (t : List ℕ).
            ((t ++ field (drop 16 bytes)) ++ field (drop 48 bytes)) ++ field (drop 80 bytes))
          (sym (header-named bytes mode (omega arith) h))
      ∙ layout_of bytes l in
    rw (e, v, n, written) refl
