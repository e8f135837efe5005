-- ===== src/Operator/Requests.antt =====
-- tools/operator.c: reviewing and signing an administration request.
use tcs.Prelude.{
  ℕ, false, ◌==◌, if◌then◌else◌, Option, none, some, List, ◌∷◌, ◌++◌, take, replicate, codes,
}
use tcs.Admin.{encode}
use tcs.Admin.Types.{Command}
use tcs.Launch.{Launch, fixture_mode}
use tcs.Terminal.Parser.{decimal}
use tcs.Operator.Text.{same_text, hex_text, command_parse}
use tcs.Operator.Host.{Step, ◌>>=◌, ◌>>◌, pass, check, given, holding, Host, Crypto, say}
use tcs.Operator.Files.{directory, closing, write_new}
use tcs.Operator.Identity.{identity_read, key_read, context_read}

-- The arguments of a request.
pub record Arguments : Type 0 where
  pub op : List ℕ
  pub subject : List ℕ
  pub sequence : List ℕ
  pub generation : List ℕ

-- What `prepare` gives: the launch, the message that is to be signed, and its approval.
pub record Prepared : Type 0 where
  pub launch : Launch
  pub packet : List ℕ
  pub approval : List ℕ

-- The bytes of which the approval is the digest.
abbrev pub review_bytes : ℕ → Launch → List ℕ → List ℕ
review_bytes mode launch packet =
    codes "TCS-REVIEW" ++ 1 ∷ replicate 4 0 ++ mode ∷ take 32 launch.identity.public_key ++ packet

-- The end of `prepare`.
abbrev pub prepared : Crypto → ℕ → Launch → List ℕ → Prepared
prepared crypto mode launch packet = record {
  launch = launch;
  packet = packet;
  approval = hex_text (take 32 (crypto.digest (review_bytes mode launch packet)));
}

-- `display`
abbrev pub display : List ℕ → List ℕ → List ℕ
display name bytes = name ++ codes "=" ++ hex_text (take 32 bytes) ++ codes "\n"

-- What a review prints.
abbrev pub review_text : ℕ → Arguments → Command → Prepared → List ℕ
review_text mode args c p =
    codes "mode="
    ++ (if mode == fixture_mode then codes "PUBLIC TEST FIXTURE" else codes "EXPERIMENTAL OPERATOR")
    ++ codes "\n"
    ++ display (codes "realm") p.launch.identity.realm
    ++ display (codes "public_key") p.launch.identity.public_key
    ++ display (codes "boot") p.launch.boot
    ++ codes "operation="
    ++ args.op
    ++ codes " subject="
    ++ decimal c.request.subject
    ++ codes " sequence="
    ++ decimal c.sequence
    ++ codes " expected_generation="
    ++ decimal c.expected_generation
    ++ codes " object="
    ++ decimal c.request.object
    ++ codes " rights="
    ++ decimal c.request.rights
    ++ codes "\napproval="
    ++ p.approval
    ++ codes "\n"

-- The name of a signed request, which is always shorter than the 64 bytes of the array.
abbrev pub request_name : ℕ → List ℕ
request_name sequence = codes "request-" ++ decimal sequence ++ codes ".bin"

module _ {O : Type 0} (host : Host O) (crypto : Crypto) (mode : ℕ) where
  -- `prepare`
  unfoldable pub prepare : ℕ → ℕ → Command → Step O Prepared
  prepare identity_fd session_fd c = do
    identity ← identity_read host crypto mode identity_fd
    context ← context_read host crypto mode identity session_fd
    packet ← holding (encode identity.realm context.1.boot c)
    pass (prepared crypto mode context.1 packet)

  -- The part of `review_or_sign` behind the approval.
  unfoldable pub sign : ℕ → ℕ → Command → Prepared → List ℕ → Step O (Unit {0})
  sign identity_fd session_fd c p approval = do
    check (same_text approval p.approval)
    secret ← key_read host crypto mode identity_fd p.launch.identity
    let signature = crypto.sign secret p.packet 128
    check (crypto.verify signature p.launch.identity.public_key (p.packet ++ signature) 128 == 0)
    write_new host session_fd (request_name c.sequence) (p.packet ++ signature)
    say host (
        codes "Signed "
        ++ request_name c.sequence
        ++ codes "; not submitted or executed. No automatic retry.\n")

  -- `review_or_sign` past `prepare`: a review where no approval is given.
  unfoldable pub conclude :
      ℕ → ℕ → Arguments → Command → Option (List ℕ) → Prepared → Step O (Unit {0})
  conclude identity_fd session_fd args c none p = say host (review_text mode args c p)
  conclude identity_fd session_fd args c (some approval) p =
      sign identity_fd session_fd c p approval

  -- `review_or_sign`
  unfoldable pub review_or_sign : ℕ → List ℕ → Arguments → Option (List ℕ) → Step O (Unit {0})
  review_or_sign identity_fd path args approval = do
    c ← given (command_parse args.op args.subject args.sequence args.generation)
    session_fd ← directory host path false
    closing host session_fd
        (do p ← prepare identity_fd session_fd c; conclude identity_fd session_fd args c approval p)
