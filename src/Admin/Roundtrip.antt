-- ===== src/Admin/Roundtrip.antt =====
-- A message that lib/admin.c encodes is admitted by lib/admin.c with the command that was encoded.
use mathlib.Core.List.{append-nil}
use tcs.Prelude.{
  Holds, layout-Holds, ℕ, ◌≤◌, ◌≡◌, refl, ap, subst, ◌∙◌, true, false, List, [], ◌∷◌, ◌++◌, length,
  get_or, drop, drop-append, get_or-append, length-append, replicate, word_bytes, arith, u64_max,
  some, copy,
}
use tcs.Policy.Types.{Request}
use tcs.Admin.{load64, write_message, encode, domain, packet_command, valid, admit, consume}
use tcs.Admin.Admission.{IsSame, IsAdmissible, admit-accepted_iff, admit-packet_command}
use tcs.Admin.Encoding.{
  load64-word_bytes, context, ordered, named, fields, context-length, ordered-length, named-length,
  write_fields,
}
use tcs.Admin.Types.{Command, Admin, accepted, packet_bytes}

Holds-load64 :
    {p : List ℕ} {at v : ℕ} → Holds p at (word_bytes v) → v ≤ u64_max → load64 (drop at p) ≡ v
Holds-load64 {v = v} w h = ap load64 w.here ∙ load64-word_bytes v w.rest h

Holds-IsSame :
    {p part : List ℕ} {at n : ℕ} → Holds p at part → length part ≡ n → IsSame (drop at p) part n
Holds-IsSame {part = part} w h i l =
    ap (λ (t : List ℕ). get_or t i 0) w.here ∙ get_or-append part w.rest i 0 (omega arith)

-- The words of a command fit.
pub record InWords (c : Command) : Type 0 where
  pub sequence : c.sequence ≤ u64_max
  pub expected : c.expected_generation ≤ u64_max
  pub op : c.request.op ≤ u64_max
  pub subject : c.request.subject ≤ u64_max
  pub object : c.request.object ≤ u64_max
  pub rights : c.request.rights ≤ u64_max

module _ (head realm boot : List ℕ) (c : Command) (signature : List ℕ) (h : length head ≡ 16)
    (r : length realm ≡ 32) (b : length boot ≡ 32) where
  abbrev packet : List ℕ
  packet = (fields head realm boot c h r b ++ []) ++ signature

  abbrev q : Request
  q = c.request

  abbrev tail : List (List ℕ)
  tail = word_bytes q.rights ∷ word_bytes c.expected_generation ∷ [] ∷ signature ∷ []

  abbrev middle : List (List ℕ)
  middle = word_bytes q.subject ∷ word_bytes q.object ∷ tail

  abbrev start : List ℕ
  start = context head realm boot c h r b

  domain_held : Holds packet 0 head
  domain_held =
      layout-Holds [] head (realm ∷ boot ∷ word_bytes c.sequence ∷ word_bytes q.op ∷ middle) 0 refl

  realm_held : Holds packet 16 realm
  realm_held =
      layout-Holds head realm (boot ∷ word_bytes c.sequence ∷ word_bytes q.op ∷ middle) 16 h

  boot_held : Holds packet 48 boot
  boot_held =
      layout-Holds (head ++ realm) boot (word_bytes c.sequence ∷ word_bytes q.op ∷ middle) 48
        (omega (arith, length-append head realm))

  sequence_held : Holds packet 80 (word_bytes c.sequence)
  sequence_held =
      layout-Holds start (word_bytes c.sequence) (word_bytes q.op ∷ middle) 80
        (context-length head realm boot c h r b)

  op_held : Holds packet 88 (word_bytes q.op)
  op_held = layout-Holds (start ++ word_bytes c.sequence) (word_bytes q.op) middle 88 (
      omega (
        arith,
        context-length head realm boot c h r b,
        length-append start (word_bytes c.sequence),
      ))

  abbrev two : List ℕ
  two = ordered head realm boot c h r b

  abbrev four : List ℕ
  four = named head realm boot c h r b

  subject_held : Holds packet 96 (word_bytes q.subject)
  subject_held =
      layout-Holds two (word_bytes q.subject) (word_bytes q.object ∷ tail) 96
        (ordered-length head realm boot c h r b)

  object_held : Holds packet 104 (word_bytes q.object)
  object_held = layout-Holds (two ++ word_bytes q.subject) (word_bytes q.object) tail 104 (
      omega
        (arith, ordered-length head realm boot c h r b, length-append two (word_bytes q.subject)))

  rights_held : Holds packet 112 (word_bytes q.rights)
  rights_held =
      layout-Holds four (word_bytes q.rights)
        (word_bytes c.expected_generation ∷ [] ∷ signature ∷ []) 112
        (named-length head realm boot c h r b)

  expected_held : Holds packet 120 (word_bytes c.expected_generation)
  expected_held =
      layout-Holds (four ++ word_bytes q.rights) (word_bytes c.expected_generation)
        ([] ∷ signature ∷ []) 120
        (omega
          (arith, named-length head realm boot c h r b, length-append four (word_bytes q.rights)))

  fields-length : length (fields head realm boot c h r b) ≡ 128
  fields-length = omega (
    arith,
    named-length head realm boot c h r b,
    length-append (four ++ word_bytes q.rights) (word_bytes c.expected_generation),
    length-append four (word_bytes q.rights),
  )

  signature_at : drop 128 packet ≡ signature
  signature_at =
      rw (append-nil (fields head realm boot c h r b), ← fields-length)
        (drop-append (fields head realm boot c h r b) signature)

  packet_command_lem : InWords c → q.generation ≡ 0 → packet_command packet ≡ c
  unfolding packet_command
  packet_command_lem w z = ground (
    arith,
    Holds-load64 sequence_held w.sequence,
    Holds-load64 expected_held w.expected,
    Holds-load64 op_held w.op,
    Holds-load64 subject_held w.subject,
    Holds-load64 object_held w.object,
    Holds-load64 rights_held w.rights,
  )

write_message_lem :
    (realm boot : List ℕ) (c : Command) (r : length realm ≡ 32) (b : length boot ≡ 32)
    → write_message (replicate 128 0) realm boot c ≡ fields domain realm boot c refl r b ++ []
unfolding write_message copy
write_message_lem realm boot c r b = write_fields domain realm boot c refl r b

encode-fields :
    (realm boot : List ℕ) (c : Command) (r : length realm ≡ 32) (b : length boot ≡ 32)
    → (encode realm boot c).1 ≡ true
    → ((encode realm boot c).0 ≡ fields domain realm boot c refl r b ++ [])
      × (valid c ≡ true)
      × (c.request.generation ≡ 0)
unfolding encode valid
encode-fields realm boot c r b ok = ground (arith, write_message_lem realm boot c r b)

-- A command that is encoded for the realm and the boot identity of a ready administrator, has the next
-- sequence number, and comes with a signature of the message that is valid, is admitted: the packet
-- of the message and the signature hands over the command itself and consumes its number.
pub encode-admit :
    (crypto_ed25519_check : List ℕ → List ℕ → List ℕ → ℕ → ℕ) (a : Admin) (c : Command)
    (signature : List ℕ)
    → length a.realm ≡ 32
    → length a.boot ≡ 32
    → InWords c
    → a.initialized ≡ true
    → a.pending_sequence ≡ 0
    → a.exhausted ≡ false
    → c.sequence ≡ a.next_sequence
    → (encode a.realm a.boot c).1 ≡ true
    → (let packet = (encode a.realm a.boot c).0 ++ signature in
        crypto_ed25519_check signature a.public_key packet 128 ≡ 0)
    → let packet = (encode a.realm a.boot c).0 ++ signature in
      admit crypto_ed25519_check a (some packet) packet_bytes ≡ (consume a c.sequence, accepted, c)
unfolding encode
encode-admit check a c signature r b w ready idle more next ok signed =
    let (written, fit, zero_generation) = encode-fields a.realm a.boot c r b ok in
    let p = packet domain a.realm a.boot c signature refl r b in
    let carried = packet_command_lem domain a.realm a.boot c signature refl r b w zero_generation in
    let same = ap (λ (m : List ℕ). m ++ signature) written in
    let good : IsAdmissible check a p packet_bytes = record {
      ready = ready;
      idle = idle;
      not_exhausted = more;
      size = refl;
      in_domain = Holds-IsSame (domain_held domain a.realm a.boot c signature refl r b) refl;
      in_realm = Holds-IsSame (realm_held domain a.realm a.boot c signature refl r b) r;
      in_boot = Holds-IsSame (boot_held domain a.realm a.boot c signature refl r b) b;
      executable = rw carried fit;
      in_order = rw carried next;
      signed =
          rw (signature_at domain a.realm a.boot c signature refl r b)
            (subst (λ (m : List ℕ). check signature a.public_key m 128 ≡ 0) same signed);
    } in
    rw same (
      admit-packet_command check a p packet_bytes
        ((admit-accepted_iff check a p packet_bytes).1 good)
      ∙ ap (λ (x : Command). (consume a x.sequence, accepted, x)) carried)
