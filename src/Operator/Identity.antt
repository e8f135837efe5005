-- ===== src/Operator/Identity.antt =====
-- tools/operator.c: identities and launch contexts in private directories.
use tcs.Prelude.{
  ℕ, Bool, true, ◌&&◌, ◌==◌, List, [], ◌∷◌, ◌++◌, get_or, take, drop, replicate, some, codes,
}
use tcs.Launch.{
  Identity, Launch, public_encode, public_decode, launch_encode, launch_decode, same_below,
}
use tcs.Operator.Host.{Step, ◌>>=◌, ◌>>◌, pass, check, holding, Host, Crypto, say}
use tcs.Operator.Files.{directory, closing, read_file, write_new}

-- `key_prefix` with the mode as its last byte.
abbrev pub key_head : ℕ → List ℕ
key_head mode = codes "TCS-KEY" ++ 1 ∷ replicate 7 0 ++ mode ∷ []

-- `memcmp` of two ids of 32 bytes.
abbrev pub same_id : List ℕ → List ℕ → Bool
same_id a b = same_below a b 32

-- The record of identity.key.
abbrev pub key_record : ℕ → Identity → List ℕ → List ℕ
key_record mode identity seed = key_head mode ++ identity.realm ++ seed

module _ {O : Type 0} (host : Host O) (crypto : Crypto) (mode : ℕ) where
  -- `identity_read`
  unfoldable pub identity_read : ℕ → Step O Identity
  identity_read fd = do
    bytes ← read_file host fd (codes "identity.pub") 80
    holding (public_decode (some bytes) 80 mode)

  -- `key_read`: the secret where the result is true.
  unfoldable pub key_read : ℕ → Identity → Step O (List ℕ)
  key_read fd identity = do
    kept ← read_file host fd (codes "identity.key") 80
    check (
        (get_or kept 15 0 == mode)
        && same_below kept (key_head mode) 15
        && same_id (drop 16 kept) identity.realm)
    let (secret, key) = crypto.key_pair (take 32 (drop 48 kept))
    check (same_id key identity.public_key)
    pass secret

  -- `create_identity`
  unfoldable pub create_identity : List ℕ → Step O (Unit {0})
  create_identity path = do
    random ← host.entropy 64
    let seed = take 32 random
    let (_, key) = crypto.key_pair seed
    let identity : Identity = record { realm = take 32 (drop 32 random); public_key = key }
    public ← holding (public_encode identity mode)
    fd ← directory host path true
    closing host fd (do
      write_new host fd (codes "identity.key") (key_record mode identity seed)
      write_new host fd (codes "identity.pub") public
      say host (codes "Identity created; private seed is unencrypted. No guest was provisioned.\n"))

  -- `context_create`
  unfoldable pub context_create : ℕ → List ℕ → Step O (Unit {0})
  context_create identity_fd path = do
    identity ← identity_read identity_fd
    boot ← host.entropy 32
    let launch : Launch = record { identity = identity; boot = boot }
    bytes ← holding (launch_encode launch mode)
    fd ← directory host path true
    closing host fd (write_new host fd (codes "launch.context") bytes)
    say host
        (codes "Single-launch context prepared. No guest was started; never reuse this context.\n")

  -- The context of a session, of the identity that is read: the bytes and what they stand for.
  unfoldable pub context_read : Identity → ℕ → Step O (List ℕ × Launch)
  context_read identity session_fd = do
    context ← read_file host session_fd (codes "launch.context") 112
    launch ← holding (launch_decode (some context) 112 mode)
    check (
        same_id identity.realm launch.identity.realm
        && same_id identity.public_key launch.identity.public_key)
    pass (context, launch)
