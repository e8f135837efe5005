-- ===== src/Launch/Modes.antt =====
-- The modes of lib/launch.c: what is decoded in one of them is of no use in the other.
use tcs.Prelude.{ℕ, ◌≡◌, ◌≢◌, ◌⊎◌, inl, inr, ap, sym, ◌∙◌, true, false, List, some, get_or, arith}
use tcs.Launch.{
  Identity, launch_prefix, header, identity_valid, is_fixture, nonzero, launch_decode, no_launch,
}

header_mode :
    (bytes prefix : List ℕ) (mode : ℕ) → header bytes prefix mode ≡ true → get_or bytes 15 0 ≡ mode
unfolding header
header_mode bytes prefix mode h = ground arith

launch_decode_cases :
    (bytes : List ℕ) (length mode : ℕ)
    → let (l, ok) = launch_decode (some bytes) length mode in
      ((ok ≡ false) × (l ≡ no_launch))
      ⊎ ((ok ≡ true)
          × (length ≡ 112)
          × (header bytes launch_prefix mode ≡ true)
          × (identity_valid l.identity mode ≡ true)
          × (nonzero l.boot ≡ true))
unfolding launch_decode
launch_decode_cases bytes length mode = ground arith

identity_valid_modes :
    (i j : Identity) (m n : ℕ)
    → identity_valid i m ≡ true
    → identity_valid j n ≡ true
    → m ≢ n
    → is_fixture i.public_key ≢ is_fixture j.public_key
unfolding identity_valid
identity_valid_modes i j m n v w d = ground arith

-- Two launches that are decoded in different modes have different bytes for the mode and different
-- keys: exactly one of the keys is a public test key.
pub launch_decode_modes :
    (bytes other : List ℕ) (length size m n : ℕ)
    → (launch_decode (some bytes) length m).1 ≡ true
    → (launch_decode (some other) size n).1 ≡ true
    → m ≢ n
    → let i = (launch_decode (some bytes) length m).0.identity in
      let j = (launch_decode (some other) size n).0.identity in
      (get_or bytes 15 0 ≢ get_or other 15 0)
      × (i.public_key ≢ j.public_key)
      × (is_fixture i.public_key ≢ is_fixture j.public_key)
launch_decode_modes bytes other length size m n h k d =
    let i = (launch_decode (some bytes) length m).0.identity in
    let j = (launch_decode (some other) size n).0.identity in
    elim (launch_decode_cases bytes length m) [
      | inl (f, _) ↦ absurd (ground (arith, f, h))
      | inr (_, _, a, v, _) ↦ elim (launch_decode_cases other size n) [
        | inl (f, _) ↦ absurd (ground (arith, f, k))
        | inr (_, _, b, w, _) ↦
            let apart = identity_valid_modes i j m n v w d in
            (
              λ e. d (
                  sym (header_mode bytes launch_prefix m a)
                  ∙ e
                  ∙ header_mode other launch_prefix n b),
              λ e. apart (ap is_fixture e),
              apart,
            )
      ]
    ]
