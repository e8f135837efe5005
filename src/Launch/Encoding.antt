-- ===== src/Launch/Encoding.antt =====
-- What lib/launch.c encodes, it decodes.
use tcs.Prelude.{
  ℕ, ◌%◌, ◌≡◌, ◌⊎◌, inl, inr, refl, ap, ◌∙◌, true, List, [], ◌∷◌, ◌++◌, length, take, drop,
  replicate, some, copy, copy_next, copy_out, length-append, Holds, layout, layout-Holds, arith,
}
use tcs.Launch.{
  Identity, Launch, operator_mode, fixture_mode, public_prefix, launch_prefix, header, same_below,
  identity_valid, nonzero, field, write_public, public_encode, public_decode, write_launch,
  launch_encode, launch_decode,
}

-- A format is named by its 16 bytes: its prefix and its mode.
abbrev pub named : List ℕ → ℕ → List ℕ
named prefix mode = take 15 prefix ++ mode % 256 ∷ []

IsMode : ℕ → Type 0
IsMode mode = (mode ≡ operator_mode) ⊎ (mode ≡ fixture_mode)

Holds-field :
    {bytes part : List ℕ} {at : ℕ}
    → Holds bytes at part
    → length part ≡ 32
    → field (drop at bytes) ≡ part
unfolding field
Holds-field {part = part} w h =
    ap (λ (t : List ℕ). copy (replicate 32 0) 0 t 32) w.here
    ∙ copy_out (replicate 32 0) part w.rest 32 h refl

module _ (head realm second : List ℕ) (h : length head ≡ 16) (r : length realm ≡ 32)
    (b : length second ≡ 32) where
  two_fields :
      copy (copy (head ++ replicate 64 0) 16 realm 32) 48 second 32
      ≡ ((head ++ realm) ++ second) ++ []
  two_fields =
      let e1 = copy_next head (replicate 64 0) realm 16 32 h r (omega arith) in
      let e2 =
        copy_next (head ++ realm) (replicate 32 0) second 48 32
          (omega (arith, length-append head realm)) b (omega arith) in
      rw (e1, e2) refl

  three_fields :
      (third : List ℕ)
      → length third ≡ 32
      → copy (copy (copy (head ++ replicate 96 0) 16 realm 32) 48 second 32) 80 third 32
        ≡ (((head ++ realm) ++ second) ++ third) ++ []
  three_fields third t =
      let e1 = copy_next head (replicate 96 0) realm 16 32 h r (omega arith) in
      let e2 =
        copy_next (head ++ realm) (replicate 64 0) second 48 32
          (omega (arith, length-append head realm)) b (omega arith) in
      let e3 =
        copy_next ((head ++ realm) ++ second) (replicate 32 0) third 80 32
          (omega (arith, length-append head realm, length-append (head ++ realm) second)) t
          (omega arith) in
      rw (e1, e2, e3) refl

write_public_lem :
    (i : Identity) (mode : ℕ) (r : length i.realm ≡ 32) (k : length i.public_key ≡ 32)
    → write_public i mode ≡ layout (named public_prefix mode) (i.realm ∷ i.public_key ∷ [] ∷ [])
unfolding write_public copy
write_public_lem i mode r k = two_fields (named public_prefix mode) i.realm i.public_key refl r k

pub write_launch_lem :
    (l : Launch) (mode : ℕ) (r : length l.identity.realm ≡ 32) (b : length l.boot ≡ 32)
    (k : length l.identity.public_key ≡ 32)
    → write_launch l mode
      ≡ layout
          (named launch_prefix mode)
          (l.identity.realm ∷ l.boot ∷ l.identity.public_key ∷ [] ∷ [])
unfolding write_launch copy
write_launch_lem l mode r b k =
    three_fields (named launch_prefix mode) l.identity.realm l.boot refl r b l.identity.public_key k

header_public :
    (mode : ℕ) (rest : List ℕ)
    → IsMode mode
    → header (named public_prefix mode ++ rest) public_prefix mode ≡ true
unfolding header same_below IsMode
header_public mode rest (inl h) = rw h refl
header_public mode rest (inr h) = rw h refl

header_launch :
    (mode : ℕ) (rest : List ℕ)
    → IsMode mode
    → header (named launch_prefix mode ++ rest) launch_prefix mode ≡ true
unfolding header same_below IsMode
header_launch mode rest (inl h) = rw h refl
header_launch mode rest (inr h) = rw h refl

identity_valid-IsMode : (i : Identity) (mode : ℕ) → identity_valid i mode ≡ true → IsMode mode
unfolding identity_valid IsMode
identity_valid-IsMode i mode h = ground arith

public_decode_lem :
    (bytes : List ℕ) (i : Identity) (mode : ℕ)
    → header bytes public_prefix mode ≡ true
    → field (drop 16 bytes) ≡ i.realm
    → field (drop 48 bytes) ≡ i.public_key
    → identity_valid i mode ≡ true
    → public_decode (some bytes) 80 mode ≡ (i, true)
unfolding public_decode
public_decode_lem bytes i mode h r k v = rw (h, r, k, v) refl

launch_decode_lem :
    (bytes : List ℕ) (l : Launch) (mode : ℕ)
    → header bytes launch_prefix mode ≡ true
    → field (drop 16 bytes) ≡ l.identity.realm
    → field (drop 48 bytes) ≡ l.boot
    → field (drop 80 bytes) ≡ l.identity.public_key
    → identity_valid l.identity mode ≡ true
    → nonzero l.boot ≡ true
    → launch_decode (some bytes) 112 mode ≡ (l, true)
unfolding launch_decode
launch_decode_lem bytes l mode h r b k v n = rw (h, r, b, k, v, n) refl

-- A public identity that is encoded in a mode is decoded from its bytes in this mode.
pub public_decode-public_encode :
    (i : Identity) (mode : ℕ)
    → length i.realm ≡ 32
    → length i.public_key ≡ 32
    → (public_encode i mode).1 ≡ true
    → public_decode (some (public_encode i mode).0) 80 mode ≡ (i, true)
unfolding public_encode
public_decode-public_encode i mode r k ok =
    let v : identity_valid i mode ≡ true = ground arith in
    let h = named public_prefix mode in
    let realm = layout-Holds h i.realm (i.public_key ∷ [] ∷ []) 16 refl in
    let key =
      layout-Holds (h ++ i.realm) i.public_key ([] ∷ []) 48
        (omega (arith, length-append h i.realm)) in
    rw (v, write_public_lem i mode r k)
      (public_decode_lem (layout h (i.realm ∷ i.public_key ∷ [] ∷ [])) i mode
        (header_public mode ((i.realm ++ i.public_key) ++ []) (identity_valid-IsMode i mode v))
        (Holds-field realm r) (Holds-field key k) v)

-- A launch that is encoded in a mode is decoded from its bytes in this mode.
pub launch_decode-launch_encode :
    (l : Launch) (mode : ℕ)
    → length l.identity.realm ≡ 32
    → length l.boot ≡ 32
    → length l.identity.public_key ≡ 32
    → (launch_encode l mode).1 ≡ true
    → launch_decode (some (launch_encode l mode).0) 112 mode ≡ (l, true)
unfolding launch_encode
launch_decode-launch_encode l mode r b k ok =
    let v : identity_valid l.identity mode ≡ true = ground arith in
    let n : nonzero l.boot ≡ true = ground arith in
    let h = named launch_prefix mode in
    let s = l.identity.realm in
    let t = l.identity.public_key in
    let realm = layout-Holds h s (l.boot ∷ t ∷ [] ∷ []) 16 refl in
    let boot = layout-Holds (h ++ s) l.boot (t ∷ [] ∷ []) 48 (omega (arith, length-append h s)) in
    let key =
      layout-Holds ((h ++ s) ++ l.boot) t ([] ∷ []) 80
        (omega (arith, length-append h s, length-append (h ++ s) l.boot)) in
    rw (v, n, write_launch_lem l mode r b k)
      (launch_decode_lem (layout h (s ∷ l.boot ∷ t ∷ [] ∷ [])) l mode
        (header_launch mode (((s ++ l.boot) ++ t) ++ []) (identity_valid-IsMode l.identity mode v))
        (Holds-field realm r) (Holds-field boot b) (Holds-field key k) v n)
