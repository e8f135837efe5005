-- ===== src/Operator/Numbers.antt =====
-- The numbers that tools/operator.c reads are those that decimal printing gives.
use tcs.Prelude.{
  ℕ, zero, suc, ◌+◌, ◌-◌, ◌*◌, ◌/◌, ◌%◌, ◌^◌, ◌≤◌, ◌<◌, ◌≡◌, ◌≢◌, ◌⊎◌, ◌↔◌, inl, inr, refl, ap, sym,
  ◌∙◌, Bool-cases, ◌==◌, some, List, [], ◌∷◌, ◌++◌, length, get_or, u64_max, u64_mod, arith,
}
use mathlib.Core.List.{append_assoc, append-nil}
use native.Mathlib.Nat.{add-zero}
use tcs.Terminal.Parser.{digits_from, decimal_from, decimal}
use tcs.Terminal.Commands.{decimal-value, decimal-digits, shorter}
use tcs.Operator.Text.{number_from, number}

-- The loop of `number` is that of the terminal, with a bound on the number of digits.
number_from-digits :
    (i value : ℕ) (text : List ℕ)
    → i + length text ≤ 20
    → number_from i value text ≡ digits_from value text
unfolding number_from digits_from
number_from-digits i value [] h = refl
number_from-digits i value (c ∷ text) h =
    ground (arith, number_from-digits (i + 1) ((value * 10 + (c - 48)) % u64_mod) text)

number_from-some :
    (i value v : ℕ) (text : List ℕ)
    → i ≤ 20
    → number_from i value text ≡ some v
    → (i + length text ≤ 20) × (digits_from value text ≡ some v)
unfolding number_from digits_from
number_from-some i value v [] b h = (omega arith, h)
number_from-some i value v (c ∷ text) b h =
    ground (arith, number_from-some (i + 1) ((value * 10 + (c - 48)) % u64_mod) v text)

decimal_from-append :
    (fuel value : ℕ) (sent more : List ℕ)
    → decimal_from fuel value (sent ++ more) ≡ decimal_from fuel value sent ++ more
unfolding decimal_from
decimal_from-append zero value sent more = refl
decimal_from-append (suc fuel) value sent more =
    ground (arith, decimal_from-append fuel (value / 10) ((48 + value % 10) ∷ sent) more)

-- A digit more.
decimal_from-digit :
    (fuel value digit : ℕ) (sent : List ℕ)
    → 1 ≤ value
    → digit ≤ 9
    → decimal_from (suc fuel) (value * 10 + digit) sent
      ≡ decimal_from fuel value ((48 + digit) ∷ sent)
unfolding decimal_from
decimal_from-digit fuel value digit sent h d =
    let front : (value * 10 + digit) / 10 ≡ value = omega arith in
    let end : (value * 10 + digit) % 10 ≡ digit = omega arith in rw (front, end) (ground (arith, h))

digits_from_step :
    (value v c : ℕ) (text : List ℕ)
    → digits_from value (c ∷ text) ≡ some v
    → (48 ≤ c)
      × (c ≤ 57)
      × (value * 10 + (c - 48) ≤ u64_max)
      × (digits_from ((value * 10 + (c - 48)) % u64_mod) text ≡ some v)
unfolding digits_from
digits_from_step value v c text e = ground (arith, e)

digits_from_done : (value v : ℕ) → digits_from value [] ≡ some v → value ≡ v
unfolding digits_from
digits_from_done value v e = ground (arith, e)

-- The digits that have been read so far, and the rest.
digits_from-canonical :
    (fuel value v : ℕ) (text : List ℕ)
    → 1 ≤ value
    → digits_from value text ≡ some v
    → decimal_from (fuel + length text) v [] ≡ decimal_from fuel value [] ++ text
digits_from-canonical fuel value v [] h e =
    let done : value ≡ v = digits_from_done value v e in
    rw (add-zero fuel, done) (sym (append-nil (decimal_from fuel v [])))
digits_from-canonical fuel value v (c ∷ text) h e =
    let (low, high, small, later) = digits_from_step value v c text e in
    let digit = c - 48 in
    let inside : (value * 10 + digit) % u64_mod ≡ value * 10 + digit = omega (arith, small) in
    let shown : 48 + digit ≡ c = omega (arith, low) in
    let more : fuel + suc (length text) ≡ suc fuel + length text = omega arith in
    ap (λ (f : ℕ). decimal_from f v []) more
    ∙ digits_from-canonical (suc fuel) (value * 10 + digit) v text (omega (arith, h))
        (ap (λ (x : ℕ). digits_from x text) (sym inside) ∙ later)
    ∙ ap (λ (t : List ℕ). t ++ text)
        (decimal_from-digit fuel value digit [] h (omega (arith, high))
          ∙ ap (λ (b : ℕ). decimal_from fuel value (b ∷ [])) shown
          ∙ decimal_from-append fuel value [] (c ∷ []))
    ∙ append_assoc (decimal_from fuel value []) (c ∷ []) text

-- A single digit.
decimal_from-small :
    (fuel digit : ℕ) → digit ≤ 9 → decimal_from (suc fuel) digit [] ≡ (48 + digit) ∷ []
unfolding decimal_from
decimal_from-small fuel digit h = ground arith

number-some :
    (c v : ℕ) (text : List ℕ)
    → number (c ∷ text) ≡ some v
    → (number_from 0 0 (c ∷ text) ≡ some v) × ((c ≢ 48) ⊎ (length text ≡ 0))
unfolding number
number-some c v text e = ground (arith, e)

digit_alone : (fuel c : ℕ) → 48 ≤ c → c ≤ 57 → 1 ≤ fuel → decimal_from fuel (c - 48) [] ≡ c ∷ []
digit_alone zero c low high h = absurd (omega (arith, h))
digit_alone (suc fuel) c low high h =
    let shown : 48 + (c - 48) ≡ c = omega (arith, low) in
    decimal_from-small fuel (c - 48) (omega (arith, high)) ∙ ap (λ (b : ℕ). b ∷ []) shown

-- A single digit that is read.
no_more :
    (c v : ℕ) (text : List ℕ)
    → 48 ≤ c
    → c ≤ 57
    → length text ≡ 0
    → digits_from (c - 48) text ≡ some v
    → decimal v ≡ c ∷ text
unfolding decimal
no_more c v [] low high h e =
    rw⁻¹ (digits_from_done (c - 48) v e) (digit_alone 21 c low high (omega arith))
no_more c v (d ∷ text) low high h e = absurd (omega (arith, h))

-- Where more digits follow, the first is not 0.
number-canonical : (c v : ℕ) (text : List ℕ) → number (c ∷ text) ≡ some v → decimal v ≡ c ∷ text
unfolding decimal
number-canonical c v text e =
    let (read, first) = number-some c v text e in
    let (short, value) = number_from-some 0 0 v (c ∷ text) (omega arith) read in
    let (low, high, _, later) = digits_from_step 0 v c text value in
    let digit = c - 48 in
    let inside : (0 * 10 + digit) % u64_mod ≡ digit = omega (arith, high) in
    let rest : digits_from digit text ≡ some v =
      ap (λ (x : ℕ). digits_from x text) (sym inside) ∙ later in
    let alone : (fuel : ℕ) → 1 ≤ fuel → decimal_from fuel digit [] ≡ c ∷ [] =
      λ fuel some_fuel. digit_alone fuel c low high some_fuel in
    elim first [
      | inl leading ↦
          let all : 21 ≡ 21 - length text + length text = omega (arith, short) in
          ap (λ (f : ℕ). decimal_from f v []) all
          ∙ digits_from-canonical (21 - length text) digit v text (omega (arith, low, leading)) rest
          ∙ ap (λ (t : List ℕ). t ++ text) (alone (21 - length text) (omega (arith, short)))
      | inr last ↦ no_more c v text low high last rest
    ]

first_digit :
    (fuel value : ℕ) (sent : List ℕ)
    → 1 ≤ value
    → value < 10 ^ fuel
    → get_or (decimal_from fuel value sent) 0 0 ≢ 48
unfolding decimal_from
first_digit zero value sent h b = absurd (omega (arith, h, b))
first_digit (suc fuel) value sent h b =
    ground (arith, first_digit fuel (value / 10) ((48 + value % 10) ∷ sent), shorter fuel value b)

digits_bounded :
    (fuel n value : ℕ) (sent : List ℕ)
    → value < 10 ^ suc n
    → length (decimal_from fuel value sent) ≤ suc n + length sent
unfolding decimal_from
digits_bounded zero n value sent b = omega arith
digits_bounded (suc fuel) zero value sent b = ground arith
digits_bounded (suc fuel) (suc n) value sent b =
    ground (
      arith,
      digits_bounded fuel n (value / 10) ((48 + value % 10) ∷ sent),
      shorter (suc n) value b,
    )

number_of :
    (v : ℕ) (text : List ℕ)
    → 1 ≤ length text
    → length text ≤ 20
    → (get_or text 0 0 ≢ 48) ⊎ (length text ≡ 1)
    → digits_from 0 text ≡ some v
    → number text ≡ some v
unfolding number
number_of v [] some_digit short first e = absurd (omega (arith, some_digit))
number_of v (c ∷ text) some_digit short first e =
    ground (arith, number_from-digits 0 0 (c ∷ text) (omega (arith, short)), first, e)

zero_digits : length (decimal_from 21 0 []) ≡ 1
unfolding decimal_from
zero_digits = refl

number_text : (v : ℕ) (text : List ℕ) → number text ≡ some v → text ≡ decimal v
unfolding number
number_text v [] e = absurd (ground (arith, e))
number_text v (c ∷ text) e = sym (number-canonical c v text e)

number-decimal : (v : ℕ) → v ≤ u64_max → number (decimal v) ≡ some v
unfolding decimal
number-decimal v h =
    let (_, starts, _) = decimal-digits v in
    let short = digits_bounded 21 19 v [] (omega (arith, h)) in
    elim (Bool-cases (v == 0)) [
      | inl e ↦
          let none_left : v ≡ 0 = ground (arith, e) in
          number_of v (decimal v) starts (omega (arith, short)) (inr (rw none_left (zero_digits)))
            (decimal-value v h)
      | inr e ↦
          let some_left : 1 ≤ v = ground (arith, e) in
          number_of v (decimal v) starts (omega (arith, short))
            (inl (first_digit 21 v [] some_left (omega (arith, h)))) (decimal-value v h)
    ]

-- A text is read as a 64-bit number exactly where it is the one way to print that number: without a
-- leading zero, without a sign or a space, and not too large.
pub number_iff : (v : ℕ) (text : List ℕ) → v ≤ u64_max → (number text ≡ some v) ↔ (text ≡ decimal v)
number_iff v text h = (λ e. number_text v text e, λ e. ap number e ∙ number-decimal v h)
