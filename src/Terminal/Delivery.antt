-- ===== src/Terminal/Delivery.antt =====
-- The output of servers/terminal.c reaches the driver as it was appended.
use tcs.Prelude.{
  get_or-take, ltb, Bool-cases, ℕ, zero, suc, ◌+◌, ◌-◌, ◌≤◌, ◌<◌, ◌≡◌, ◌≢◌, ◌⊎◌, inl, inr, refl, ap,
  sym, ◌∙◌, Bool, true, false, List, [], ◌∷◌, ◌++◌, length, get_or, set, take, drop, min,
  length-set, length-take_le, take-set_end, drop-append_le, drop-length, arith,
}
use native.Mathlib.Nat.{zero-add}
use mathlib.Core.List.{append_assoc, append-nil}
use tcs.Policy.Status
use tcs.Policy.Types.{Result}
use tcs.Ipc.{Message, message, op_label, response}
use tcs.Serial.Server.{chunk, serial_write}
use tcs.Terminal.Output.{Output, output_size, append, words_of, flush}

pub record IsValid (o : Output) : Type 0 where
  pub storage : length o.output ≡ output_size
  pub length_in : o.output_length ≤ output_size
  pub sent_in : o.output_sent ≤ o.output_length

-- What waits to be sent, oldest first.
abbrev pub waiting : Output → List ℕ
waiting o = drop o.output_sent (take o.output_length o.output)

append_one :
    (o : Output) (c : ℕ)
    → IsValid o
    → o.output_length < output_size
    → let longer = record o {
      output = set o.output o.output_length c;
      output_length = o.output_length + 1;
    } in
      IsValid longer × (waiting longer ≡ waiting o ++ c ∷ [])
append_one o c v room =
    let size = v.storage in
    let next : o.output_length + 1 ≡ suc o.output_length = omega arith in
    let whole = take-set_end o.output_length o.output c (omega (arith, v.storage, room)) in
    (
      record {
        storage = length-set o.output o.output_length c ∙ v.storage;
        length_in = omega arith;
        sent_in = omega (arith, v.sent_in);
      },
      rw (next, whole)
          (drop-append_le o.output_sent (take o.output_length o.output) (c ∷ []) (
            omega (
              arith,
              v.sent_in,
              length-take_le o.output_length o.output (omega (arith, v.storage, v.length_in)),
            ))),
    )

abbrev longer : Output → ℕ → Output
longer o c = record o {
  output = set o.output o.output_length c;
  output_length = o.output_length + 1;
}

append_more :
    (o : Output) (c : ℕ) (text : List ℕ)
    → ltb o.output_length output_size ≡ true
    → append o (c ∷ text) ≡ append (longer o c) text
unfolding append
append_more o c text h = rw h refl

append_full :
    (o : Output) (c : ℕ) (text : List ℕ)
    → ltb o.output_length output_size ≡ false
    → append o (c ∷ text) ≡ record o { failed = true }
unfolding append
append_full o c text h = rw h refl

append_none : (o : Output) → append o [] ≡ o
unfolding append
append_none o = refl

-- The text stands behind what waited, or there was no room for all of it and the output has failed.
abbrev pub IsAppended : Output → List ℕ → Output → Type 0
IsAppended o text after =
    ((waiting after ≡ waiting o ++ text)
      × (after.failed ≡ o.failed)
      × (o.output_length + length text ≤ output_size))
    ⊎ ((after.failed ≡ true) × (output_size < o.output_length + length text))

-- Text is appended behind what waits, or there is no room for all of it and the output has failed.
pub append-IsAppended :
    (o : Output) (text : List ℕ)
    → IsValid o
    → IsValid (append o text) × IsAppended o text (append o text)
append-IsAppended o [] v =
    rw (append_none o) (v, inl (sym (append-nil (waiting o)), refl, omega (arith, v.length_in)))
append-IsAppended o (c ∷ text) v = elim (Bool-cases (ltb o.output_length output_size)) [
  | inl room ↦
      let (valid, behind) = append_one o c v (ground (arith, room)) in
      let (after, rest) = append-IsAppended (longer o c) text valid in
      rw (append_more o c text room) (
        after,
        elim rest [
          | inl (e, f, l) ↦ inl (
            e ∙ ap (λ (t : List ℕ). t ++ text) behind ∙ append_assoc (waiting o) (c ∷ []) text,
            f,
            omega (arith, l),
          )
          | inr (f, l) ↦ inr (f, omega (arith, l))
        ],
      )
  | inr full ↦
      let past : output_size ≤ o.output_length = ground (arith, full) in
      rw (append_full o c text full) (
        record { storage = v.storage; length_in = v.length_in; sent_in = v.sent_in },
        inr (refl, omega (arith, past)),
      )
]

drop_nil : (n : ℕ) → drop {A = ℕ} n [] ≡ []
drop_nil zero = refl
drop_nil (suc n) = refl

drop-drop : (m n : ℕ) (xs : List ℕ) → drop m (drop n xs) ≡ drop (n + m) xs
drop-drop m zero xs = rw zero-add refl
drop-drop m (suc n) [] = drop_nil m ∙ sym (drop_nil (suc n + m))
drop-drop m (suc n) (x ∷ xs) =
    let inner : suc n + m ≡ suc (n + m) = omega arith in rw inner (drop-drop m n xs)

drop-get_or : (n : ℕ) (xs : List ℕ) → n < length xs → drop n xs ≡ get_or xs n 0 ∷ drop (n + 1) xs
drop-get_or n [] h = absurd (omega arith)
drop-get_or zero (x ∷ xs) h = refl
drop-get_or (suc n) (x ∷ xs) h =
    let inner : suc n + 1 ≡ suc (n + 1) = omega arith in rw inner (drop-get_or n xs (omega arith))

words_of-drop :
    (xs : List ℕ) (from n : ℕ) → from + n ≤ length xs → words_of xs from n ≡ take n (drop from xs)
unfolding words_of
words_of-drop xs from zero h = refl
words_of-drop xs from (suc n) h =
    rw (drop-get_or from xs (omega arith))
      (ap (λ (t : List ℕ). get_or xs from 0 ∷ t) (words_of-drop xs (from + 1) n (omega arith)))

words_of-take :
    (xs : List ℕ) (size from n : ℕ)
    → from + n ≤ size
    → words_of xs from n ≡ words_of (take size xs) from n
unfolding words_of
words_of-take xs size from zero h = refl
words_of-take xs size from (suc n) h =
    rw (get_or-take size xs from 0 (omega arith))
      (ap (λ (t : List ℕ). get_or xs from 0 ∷ t) (words_of-take xs size (from + 1) n (omega arith)))

drop_end :
    (o : Output) (k : ℕ) → IsValid o → o.output_sent + k ≡ o.output_length → drop k (waiting o) ≡ []
drop_end o k v h =
    let all = take o.output_length o.output in
    let size : length all ≡ o.output_length =
      length-take_le o.output_length o.output (omega (arith, v.storage, v.length_in)) in
    drop-drop k o.output_sent all ∙ ap (λ (n : ℕ). drop n all) (h ∙ sym size) ∙ drop-length all

module _ {S : Type 0} (serial : S → Message → S × Message) where
  -- How many bytes go with the next message, and how many of them the driver takes.
  abbrev pub offered : Output → ℕ
  offered o = min (o.output_length - o.output_sent) chunk

  abbrev pub answered : Output → S → Result
  answered o s =
      response
        (serial s (message (op_label serial_write) (words_of o.output o.output_sent (offered o)))).1

  flush_cases :
      (o : Output) (s : S)
      → let (after, _, done) = flush serial o s in
        let k = (answered o s).value in
        let status = (answered o s).status in
        ((after ≡ o) × (done ≡ true) × (o.output_sent ≡ o.output_length))
        ⊎ (((status ≢ Status.ok) ⊎ (offered o < k))
            × (after ≡ record o { failed = true })
            × (done ≡ false))
        ⊎ ((status ≡ Status.ok)
            × (k ≤ offered o)
            × (after ≡ record o { output_length = 0; output_sent = 0 })
            × (done ≡ true)
            × (o.output_sent + k ≡ o.output_length))
        ⊎ ((status ≡ Status.ok)
            × (k ≤ offered o)
            × (after ≡ record o { output_sent = o.output_sent + k })
            × (done ≡ false)
            × (o.output_sent + k ≢ o.output_length))
  unfolding flush
  flush_cases o s = ground arith

  -- The message of a flush carries the oldest bytes that wait, at most a chunk.
  offered_lem :
      (o : Output)
      → IsValid o
      → words_of o.output o.output_sent (offered o) ≡ take (offered o) (waiting o)
  offered_lem o v =
      let size = length-take_le o.output_length o.output (omega (arith, v.storage, v.length_in)) in
      words_of-take o.output o.output_length o.output_sent (offered o) (omega (arith, v.sent_in))
      ∙ words_of-drop (take o.output_length o.output) o.output_sent (offered o)
          (omega (arith, v.sent_in, size))

  -- Nothing waited, or the driver has failed, or it took some of the oldest bytes that wait, of which
  -- at most a chunk was offered.
  abbrev pub IsFlushed : Output → S → Output → Bool → Type 0
  IsFlushed o s after done =
      ((after ≡ o) × (done ≡ true) × (waiting o ≡ []))
      ⊎ ((((answered o s).status ≢ Status.ok) ⊎ (offered o < (answered o s).value))
          × (words_of o.output o.output_sent (offered o) ≡ take (offered o) (waiting o))
          × (after.failed ≡ true)
          × (waiting after ≡ waiting o)
          × (done ≡ false))
      ⊎ (((answered o s).status ≡ Status.ok)
          × (words_of o.output o.output_sent (offered o) ≡ take (offered o) (waiting o))
          × ((answered o s).value ≤ offered o)
          × (waiting after ≡ drop (answered o s).value (waiting o))
          × (after.failed ≡ o.failed)
          × ((done ≡ false) ⊎ (waiting after ≡ [])))

  -- A flush keeps a valid output valid, offers the oldest bytes that wait, at most a chunk, and keeps
  -- waiting exactly those that the driver did not take; a driver that refuses, or claims more than it
  -- was offered, leaves the output failed with nothing lost.
  pub flush-IsFlushed :
      (o : Output) (s : S)
      → IsValid o
      → let (after, _, done) = flush serial o s in IsValid after × IsFlushed o s after done
  flush-IsFlushed o s v =
      let k = (answered o s).value in
      let words = offered_lem o v in
      elim (flush_cases o s) [
        | inl (e, done, all) ↦
            rw (e, done) (v, inl (refl, refl, drop_end o 0 v (omega (arith, all))))
        | inr (inl (why, e, done)) ↦
            rw (e, done)
              (
                record { storage = v.storage; length_in = v.length_in; sent_in = v.sent_in },
                inr (inl (why, words, refl, refl, refl)),
              )
        | inr (inr (inl (fine, few, e, done, all))) ↦
            rw (e, done)
              (
                record { storage = v.storage; length_in = omega arith; sent_in = omega arith },
                inr (inr (fine, words, few, sym (drop_end o k v all), refl, inr refl)),
              )
        | inr (inr (inr (fine, few, e, done, more))) ↦
            rw (e, done)
              (
                record {
                  storage = v.storage;
                  length_in = v.length_in;
                  sent_in = omega (arith, few, v.sent_in);
                },
                inr (
                    inr (
                      fine,
                      words,
                      few,
                      sym (drop-drop k o.output_sent (take o.output_length o.output)),
                      refl,
                      inl refl,
                    )),
              )
      ]
