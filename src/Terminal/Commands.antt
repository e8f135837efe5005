-- ===== src/Terminal/Commands.antt =====
-- The parser of lib/terminal.c against the numbers that servers/terminal.c prints.
use tcs.Prelude.{
  take-length, ℕ, zero, suc, ◌+◌, ◌-◌, ◌*◌, ◌/◌, ◌%◌, ◌^◌, ◌≤◌, ◌<◌, ◌≡◌, refl, Bool-cases, ◌⊎◌,
  inl, inr, ◌↔◌, ap, ◌∙◌, true, false, ◌||◌, ltb, List, [], ◌∷◌, length, All, Option, none, some,
  u64_max, u64_mod, arith,
}
use tcs.Terminal.Types.{read, line_capacity}
use tcs.Terminal.Parser.{
  word, any_control, skip_spaces, drop_spaces, until_space, from_space, digits_from, read_argument,
  parse_words, parse_span, command_parse, decimal_from, decimal,
}

-- One digit that fits extends the number.
fits_in :
    (value : ℕ) → value ≤ u64_max → (value / 10 * 10 + (48 + value % 10 - 48)) % u64_mod ≡ value
fits_in value h = omega arith

digits_from-digit :
    (value : ℕ) (bs : List ℕ)
    → value ≤ u64_max
    → digits_from (value / 10) ((48 + value % 10) ∷ bs) ≡ digits_from value bs
unfolding digits_from
digits_from-digit value bs h = rw (fits_in value h) (ground arith)

pow-suc : (fuel : ℕ) → 10 ^ suc fuel ≡ 10 * 10 ^ fuel
pow-suc fuel = omega arith

pub shorter : (fuel value : ℕ) → value < 10 ^ suc fuel → value / 10 < 10 ^ fuel
shorter fuel value h = omega (arith, pow-suc fuel)

digits_from-decimal :
    (fuel value : ℕ) (sent : List ℕ)
    → value ≤ u64_max
    → value < 10 ^ fuel
    → digits_from 0 (decimal_from fuel value sent) ≡ digits_from value sent
unfolding decimal_from digits_from
digits_from-decimal zero value sent h f =
    let small : 0 ≡ value = omega arith in ap (λ (v : ℕ). digits_from v sent) small
digits_from-decimal (suc fuel) value sent h f =
    let stored = (48 + value % 10) ∷ sent in
    ground (
      arith,
      digits_from-digit value sent h,
      digits_from-decimal fuel (value / 10) stored (omega arith) (shorter fuel value f),
    )

abbrev pub IsDigit : ℕ → Type 0
IsDigit b = (48 ≤ b) × (b ≤ 57)

decimal_from-digits :
    (fuel value : ℕ) (sent : List ℕ) → All IsDigit sent → All IsDigit (decimal_from fuel value sent)
unfolding decimal_from
decimal_from-digits zero value sent a = a
decimal_from-digits (suc fuel) value sent a =
    let stored = (48 + value % 10) ∷ sent in
    let digit : IsDigit (48 + value % 10) = (omega arith, omega arith) in
    ground (arith, decimal_from-digits fuel (value / 10) stored (digit, a), digit, a)

decimal_from-length :
    (fuel value : ℕ) (sent : List ℕ)
    → (length sent ≤ length (decimal_from fuel value sent))
      × (length (decimal_from fuel value sent) ≤ fuel + length sent)
unfolding decimal_from
decimal_from-length zero value sent = (omega arith, omega arith)
decimal_from-length (suc fuel) value sent =
    ground (arith, decimal_from-length fuel (value / 10) ((48 + value % 10) ∷ sent))

decimal_from-starts :
    (fuel value : ℕ) (sent : List ℕ) → 1 ≤ length (decimal_from (suc fuel) value sent)
unfolding decimal_from
decimal_from-starts fuel value sent =
    ground (arith, decimal_from-length fuel (value / 10) ((48 + value % 10) ∷ sent))

digits-printable : (ds : List ℕ) → All IsDigit ds → any_control ds ≡ false
unfolding any_control
digits-printable [] a = refl
digits-printable (d ∷ ds) a = ground (arith, a.0, digits-printable ds a.1)

drop_spaces-digits : (ds : List ℕ) → All IsDigit ds → drop_spaces ds ≡ ds
unfolding drop_spaces
drop_spaces-digits [] a = refl
drop_spaces-digits (d ∷ []) a = ground (arith, a.0)
drop_spaces-digits (d ∷ e ∷ es) a = rw (drop_spaces-digits (e ∷ es) a.1) refl

skip_spaces-digits : (ds : List ℕ) → All IsDigit ds → skip_spaces ds ≡ ds
unfolding skip_spaces
skip_spaces-digits [] a = refl
skip_spaces-digits (d ∷ ds) a = ground (arith, a.0)

-- A read command as an operator types it.
abbrev pub read_text : List ℕ → List ℕ
read_text argument = b'r' ∷ b'e' ∷ b'a' ∷ b'd' ∷ 32 ∷ argument

parse_words-read : (ds : List ℕ) → All IsDigit ds → parse_words (read_text ds) ≡ read_argument ds
unfolding parse_words from_space until_space word skip_spaces
parse_words-read ds a = ap read_argument (skip_spaces-digits ds a)

drop_spaces-read :
    (ds : List ℕ)
    → All IsDigit ds
    → 1 ≤ length ds
    → drop_spaces (skip_spaces (read_text ds)) ≡ read_text ds
unfolding drop_spaces skip_spaces
drop_spaces-read [] a l = absurd (omega arith)
drop_spaces-read (d ∷ ds) a l = rw (drop_spaces-digits (d ∷ ds) a) refl

parse_span-read :
    (ds : List ℕ) → All IsDigit ds → 1 ≤ length ds → parse_span (read_text ds) ≡ read_argument ds
unfolding parse_span any_control
parse_span-read ds a l =
    rw (digits-printable ds a) (rw (drop_spaces-read ds a l) (parse_words-read ds a))

read_argument-value :
    (ds : List ℕ) (g : ℕ)
    → digits_from 0 ds ≡ some g
    → 1 ≤ g
    → read_argument ds ≡ record { kind = read; generation = g }
unfolding read_argument
read_argument-value ds g e l = rw (e, read_argument) (ground arith)

pub decimal-value : (g : ℕ) → g ≤ u64_max → digits_from 0 (decimal g) ≡ some g
unfolding decimal digits_from
decimal-value g h = digits_from-decimal 21 g [] h (omega arith)

pub decimal-digits :
    (g : ℕ) → All IsDigit (decimal g) × (1 ≤ length (decimal g)) × (length (decimal g) ≤ 21)
unfolding decimal
decimal-digits g =
    (decimal_from-digits 21 g [] tt, decimal_from-starts 20 g [], (decimal_from-length 21 g []).1)

command_parse-span :
    (text : List ℕ)
    → length text < line_capacity
    → command_parse (some text) (length text) ≡ parse_span text
unfolding command_parse
command_parse-span text h = rw (take-length text) (ground arith)

-- A read of any generation that the service can print, typed with the digits that it prints, is
-- parsed as the read of that generation.
pub command_parse-read :
    (g : ℕ)
    → 1 ≤ g
    → g ≤ u64_max
    → let text = read_text (decimal g) in
      command_parse (some text) (length text) ≡ record { kind = read; generation = g }
command_parse-read g l h =
    let (digits, starts, short) = decimal-digits g in
    command_parse-span (read_text (decimal g)) (omega arith)
    ∙ parse_span-read (decimal g) digits starts
    ∙ read_argument-value (decimal g) g (decimal-value g h) l

-- The number that decimal digits stand for, without bound, after the digits of `g`.
unfoldable pub number : ℕ → List ℕ → ℕ
number g [] = g
number g (d ∷ ds) = number (g * 10 + (d - 48)) ds

number-grows : (g : ℕ) (ds : List ℕ) → g ≤ number g ds
unfolding number
number-grows g [] = omega arith
number-grows g (d ∷ ds) = omega (arith, number-grows (g * 10 + (d - 48)) ds)

-- What the loop over the digits is to return.
abbrev pub IsValue : ℕ → List ℕ → Option ℕ → Type 0
IsValue g ds none = (¬ All IsDigit ds) ⊎ (u64_max < number g ds)
IsValue g ds (some v) = All IsDigit ds × (v ≡ number g ds) × (v ≤ u64_max)

-- The guard before the multiplication lets exactly the values of 64 bits pass.
guard_iff : (g d : ℕ) → d ≤ 9 → (g ≤ (u64_max - d) / 10) ↔ (g * 10 + d ≤ u64_max)
guard_iff g d h = omega arith

IsValue-step :
    (g d : ℕ) (ds : List ℕ) (o : Option ℕ)
    → IsDigit d
    → IsValue (g * 10 + (d - 48)) ds o
    → IsValue g (d ∷ ds) o
unfolding number
IsValue-step g d ds none i (inl n) = inl (λ a. n a.1)
IsValue-step g d ds none i (inr l) = inr l
IsValue-step g d ds (some v) i (a, e, b) = ((i, a), e, b)

not-IsDigit : (d : ℕ) → (ltb d 48 || ltb 57 d) ≡ true → ¬ IsDigit d
not-IsDigit d e i = ground arith

is_digit : (d : ℕ) → (ltb d 48 || ltb 57 d) ≡ false → IsDigit d
is_digit d e = ground arith

overflows :
    (g d : ℕ) (ds : List ℕ)
    → IsDigit d
    → ltb ((u64_max - (d - 48)) / 10) g ≡ true
    → u64_max < number g (d ∷ ds)
unfolding number
overflows g d ds i e =
    let past = guard_iff g (d - 48) (omega arith) in
    ground (arith, past.1, number-grows (g * 10 + (d - 48)) ds)

in_range :
    (g d : ℕ) → IsDigit d → ltb ((u64_max - (d - 48)) / 10) g ≡ false → g * 10 + (d - 48) ≤ u64_max
in_range g d i e = ground (arith, (guard_iff g (d - 48) (omega arith)).0)

-- The loop gives the value of the digits where all bytes are digits and the value fits in 64 bits,
-- and gives nothing where a byte is no digit or the value does not fit.
pub digits_from_lem : (g : ℕ) (ds : List ℕ) → g ≤ u64_max → IsValue g ds (digits_from g ds)
unfolding digits_from number
digits_from_lem g [] h = (tt, refl, h)
digits_from_lem g (d ∷ ds) h = elim (Bool-cases (ltb d 48 || ltb 57 d)) [
  | inl e ↦ rw e (inl (λ a. not-IsDigit d e a.0))
  | inr e ↦
      let i = is_digit d e in
      elim (Bool-cases (ltb ((u64_max - (d - 48)) / 10) g)) [
        | inl t ↦ rw (e, t) (inr (overflows g d ds i t))
        | inr t ↦
            let fits = in_range g d i t in
            let same : (g * 10 + (d - 48)) % u64_mod ≡ g * 10 + (d - 48) = omega arith in
            rw (e, t, same)
              (IsValue-step g d ds (digits_from (g * 10 + (d - 48)) ds) i
                (digits_from_lem (g * 10 + (d - 48)) ds fits))
      ]
]
