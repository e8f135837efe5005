-- ===== src/Terminal/Server/Texts.antt =====
-- The texts that servers/terminal.c prints: how long they are, and that they are bytes.
use tcs.Prelude.{
  ℕ, ◌+◌, ◌≤◌, ◌≡◌, refl, Bool, true, false, ◌&&◌, ltb, leb, Option, none, some, List, [], ◌∷◌,
  ◌++◌, length, All, if◌then◌else◌, ◌==◌, codes, arith,
}
use tcs.Policy.Status
use tcs.Policy.Types.{Result, Snapshot, active, quarantined, state_code}
use tcs.Ipc.{Message, word}
use tcs.Admin.Ipc.{admission_label, receipt_decode}
use tcs.Admin.Receipt.{Receipt, receipt_valid}
use tcs.SignedInput
use tcs.Terminal.Display.{IsDisplay}
use tcs.Terminal.Parser.{decimal}
use tcs.Terminal.Commands.{IsDigit, decimal-digits}
use tcs.Terminal.Phrases.{
  Build, state_name, status_texts, read_texts, receipt_texts, refusal_texts, decoded_texts,
  packet_texts, help_text, version_texts, greeting,
}

-- A byte that a message to the driver may carry.
abbrev pub IsByte : ℕ → Type 0
IsByte b = b ≤ 255

pub record IsText (n : ℕ) (text : List ℕ) : Type 0 where
  pub short : length text ≤ n
  pub bytes : All IsByte text

abbrev pub total : List (List ℕ) → ℕ
total [] = 0
total (text ∷ texts) = length text + total texts

-- Texts of bytes, together no longer than `n`.
pub record IsTexts (n : ℕ) (texts : List (List ℕ)) : Type 0 where
  pub short : total texts ≤ n
  pub bytes : All (All IsByte) texts

pub one :
    {m n : ℕ} {text : List ℕ} {texts : List (List ℕ)}
    → IsText m text
    → IsTexts n texts
    → IsTexts (m + n) (text ∷ texts)
one t ts = record { short = omega (arith, t.short, ts.short); bytes = (t.bytes, ts.bytes) }

pub last : {m : ℕ} {text : List ℕ} → IsText m text → IsTexts m (text ∷ [])
last t = record { short = omega (arith, t.short); bytes = (t.bytes, tt) }

pub IsTexts-append :
    {m n : ℕ} {xs ys : List (List ℕ)} → IsTexts m xs → IsTexts n ys → IsTexts (m + n) (xs ++ ys)
IsTexts-append {m = m} {n = n} {xs = []} {ys = ys} p q = record {
  short = omega (arith, q.short);
  bytes = q.bytes;
}
IsTexts-append {m = m} {n = n} {xs = x ∷ xs} {ys = ys} p q =
    let tail : IsTexts (total xs) xs = record { short = omega arith; bytes = p.bytes.1 } in
    let rest = IsTexts-append {m = total xs} {n = n} {xs = xs} {ys = ys} tail q in
    record { short = omega (arith, p.short, rest.short); bytes = (p.bytes.0, rest.bytes) }

pub within : {m n : ℕ} {texts : List (List ℕ)} → IsTexts m texts → m ≤ n → IsTexts n texts
within p h = record { short = omega (arith, p.short, h); bytes = p.bytes }

-- The test of a literal.
abbrev bytes_only : List ℕ → Bool
bytes_only [] = true
bytes_only (b ∷ bs) = leb b 255 && bytes_only bs

bytes_only-IsByte : (bs : List ℕ) → bytes_only bs ≡ true → All IsByte bs
bytes_only-IsByte [] h = tt
bytes_only-IsByte (b ∷ bs) h = ground (arith, bytes_only-IsByte bs)

abbrev fits : ℕ → List ℕ → Bool
fits n text = leb (length text) n && bytes_only text

pub literal : (n : ℕ) (text : List ℕ) → fits n text ≡ true → IsText n text
literal n text h = record {
  short = ground (arith, h);
  bytes = bytes_only-IsByte text (ground (arith, h));
}

digit_bytes : (bs : List ℕ) → All IsDigit bs → All IsByte bs
digit_bytes [] a = tt
digit_bytes (b ∷ bs) a = (omega (arith, a.0), digit_bytes bs a.1)

pub number : (n : ℕ) → IsText 21 (decimal n)
number n =
    let (digits, _, short) = decimal-digits n in
    record { short = short; bytes = digit_bytes (decimal n) digits }

display-IsByte : (b : ℕ) → IsDisplay b → IsByte b
display-IsByte b h = ground arith

pub display_bytes : (bs : List ℕ) → All IsDisplay bs → All IsByte bs
display_bytes [] a = tt
display_bytes (b ∷ bs) a = (display-IsByte b a.0, display_bytes bs a.1)

pub either :
    {n : ℕ} {xs ys : List (List ℕ)} (b : Bool)
    → IsTexts n xs
    → IsTexts n ys
    → IsTexts n (if b then xs else ys)
either true p q = p
either false p q = q

pub either_text :
    {n : ℕ} {xs ys : List ℕ} (b : Bool)
    → IsText n xs
    → IsText n ys
    → IsText n (if b then xs else ys)
either_text true p q = p
either_text false p q = q

state_name-IsText : (state : ℕ) → IsText 11 (state_name state)
state_name-IsText state =
    either_text (state == state_code active) (literal 11 (codes "active") refl) (
      either_text (state == state_code quarantined) (literal 11 (codes "quarantined") refl)
        (literal 11 (codes "restricted") refl))

pub status_texts-IsTexts : (s : Snapshot) → IsTexts 130 (status_texts s)
unfolding status_texts
status_texts-IsTexts s =
    either (s.status == Status.ok)
      (within
        (one (literal 11 (codes "SELF state=") refl) (
          one (state_name-IsText s.state) (
            one (literal 12 (codes " generation=") refl) (
              one (number s.generation) (
                one (literal 8 (codes " object=") refl) (
                  one (number s.object) (
                    one (literal 8 (codes " rights=") refl)
                      (one (number s.rights) (last (literal 2 (codes "\r\n") refl))))))))))
        (omega arith))
      (within
        (one (literal 26 (codes "STATUS UNAVAILABLE status=") refl)
          (one (number s.status) (last (literal 2 (codes "\r\n") refl))))
        (omega arith))

pub read_texts-IsTexts : (r : Result) → IsTexts 130 (read_texts r)
unfolding read_texts
read_texts-IsTexts r =
    either (r.status == Status.ok)
      (within
        (one (literal 14 (codes "READ OK value=") refl)
          (one (number r.value) (last (literal 2 (codes "\r\n") refl))))
        (omega arith))
      (within
        (one (literal 19 (codes "READ DENIED status=") refl)
          (one (number r.status) (last (literal 2 (codes "\r\n") refl))))
        (omega arith))

receipt_texts-IsTexts : (r : Receipt) → IsTexts 190 (receipt_texts r)
receipt_texts-IsTexts r =
    within
      (one (literal 10 (codes "ADMIN seq=") refl) (
        one (number r.command.sequence) (
          one (literal 10 (codes " decision=") refl) (
            one (number r.decision) (
              one (literal 7 (codes " audit=") refl) (
                one (number r.audit_ok) (
                  one (literal 9 (codes " applied=") refl) (
                    one (number r.applied) (
                      one (literal 7 (codes " state=") refl) (
                        one (number r.post.state) (
                          one (literal 12 (codes " generation=") refl) (
                            one (number r.post.generation)
                              (last (literal 2 (codes "\r\n") refl))))))))))))))
      (omega arith)

refusal_texts-IsTexts : (m : Message) → IsTexts 190 (refusal_texts m)
unfolding refusal_texts
refusal_texts-IsTexts m =
    either
      ((m.label == admission_label)
        && (length m.words == 1)
        && ltb 0 (word m 0)
        && leb (word m 0) 8)
      (either (word m 0 == 8)
        (last (literal 190 (codes "ADMIN UNCERTAIN; do not retry or advance sequence\r\n") refl))
        (within
          (one (literal 22 (codes "ADMIN REJECTED status=") refl)
            (one (number (word m 0)) (last (literal 2 (codes "\r\n") refl))))
          (omega arith)))
      (last (literal 190 (codes "ADMIN UNAVAILABLE; do not retry an uncertain request\r\n") refl))

decoded_texts-IsTexts :
    (packet : List ℕ) (answer : Message) (decoded : Option Receipt)
    → IsTexts 190 (decoded_texts packet answer decoded)
unfolding decoded_texts
decoded_texts-IsTexts packet answer none = refusal_texts-IsTexts answer
decoded_texts-IsTexts packet answer (some receipt) =
    either (receipt_valid (SignedInput.command packet) receipt) (receipt_texts-IsTexts receipt)
      (refusal_texts-IsTexts answer)

pub packet_texts-IsTexts :
    (packet : List ℕ) (answer : Message) → IsTexts 190 (packet_texts packet answer)
packet_texts-IsTexts packet answer = decoded_texts-IsTexts packet answer (receipt_decode answer)

-- The names of the build are texts of at most 64 bytes.
pub record IsNamed (b : Build) : Type 0 where
  pub profile_in : IsText 64 b.profile_name
  pub launch_in : IsText 64 b.launch_name

pub help_text-IsText : (b : Build) → IsText 180 (help_text b)
help_text-IsText b =
    either_text b.signed
      (literal 180
        (codes
          "help | version | status | read <generation> | submit\r\nSigned packets only; no plaintext administration.\r\n")
        refl)
      (literal 180
        (codes "help | version | status | read <generation>\r\nNo administration commands.\r\n")
        refl)

pub version_texts-IsTexts : (b : Build) → IsNamed b → IsTexts 180 (version_texts b)
version_texts-IsTexts b n =
    either b.signed
      (within
        (one (literal 14 (codes "TCS 0.2-dev / ") refl) (
          one n.profile_in (
            one (literal 3 (codes " / ") refl)
              (one n.launch_in (last (literal 18 (codes " signed terminal\r\n") refl))))))
        (omega arith))
      (within
        (one (literal 14 (codes "TCS 0.2-dev / ") refl)
          (one n.profile_in (last (literal 23 (codes " / read-only terminal\r\n") refl))))
        (omega arith))

pub greeting-IsTexts : (b : Build) → IsNamed b → IsTexts 190 (greeting b)
greeting-IsTexts b n =
    either b.signed
      (within
        (one (literal 27 (codes "TCS SIGNED TERMINAL READY (") refl) (
          one n.profile_in (
            one (literal 2 (codes ", ") refl)
              (one n.launch_in (last (literal 8 (codes ")\r\ntcs> ") refl))))))
        (omega arith))
      (within
        (one (literal 20 (codes "TCS TERMINAL READY (") refl)
          (one n.profile_in (last (literal 19 (codes ", read-only)\r\ntcs> ") refl))))
        (omega arith))
