-- ===== src/Terminal/Parser.antt =====
-- `tcs_command_parse` of lib/terminal.c, and `decimal` of servers/terminal.c, which prints numbers.
-- A span of bytes that the source keeps as two indices is the list of the bytes between them.
use tcs.Prelude.{
  ℕ, zero, suc, ◌+◌, ◌-◌, ◌*◌, ◌/◌, ◌%◌, Bool, true, false, not, ◌&&◌, ◌||◌, ltb, leb, ◌==◌, ◌!=◌,
  if◌then◌else◌, List, [], ◌∷◌, take, Option, none, some, u64_max, u64_mod,
}
use tcs.Terminal.{is_control}
use tcs.Terminal.Types.{
  CommandKind, empty, help, version, status, read, invalid, Command, line_capacity,
}

abbrev pub space : ℕ → Bool
space byte = (byte == 32) || (byte == 9)

-- `word`
unfoldable pub word : List ℕ → List ℕ → Bool
word [] [] = true
word [] (e ∷ es) = false
word (b ∷ bs) [] = false
word (b ∷ bs) (e ∷ es) = (b == e) && word bs es

unfoldable pub any_control : List ℕ → Bool
any_control [] = false
any_control (b ∷ bs) = is_control b || any_control bs

unfoldable pub skip_spaces : List ℕ → List ℕ
skip_spaces [] = []
skip_spaces (b ∷ bs) = let rest = skip_spaces bs in if space b then rest else b ∷ bs

-- `while (end > start && space(bytes[end - 1])) --end`
unfoldable pub drop_spaces : List ℕ → List ℕ
drop_spaces [] = []
drop_spaces (b ∷ bs) = elim (drop_spaces bs) [
  | [] ↦ if space b then [] else b ∷ []
  | c ∷ cs ↦ b ∷ c ∷ cs
]

unfoldable pub until_space : List ℕ → List ℕ
until_space [] = []
until_space (b ∷ bs) = let rest = until_space bs in if space b then [] else b ∷ rest

unfoldable pub from_space : List ℕ → List ℕ
from_space [] = []
from_space (b ∷ bs) = let rest = from_space bs in if space b then b ∷ bs else rest

abbrev pub bare : CommandKind → Command
bare kind = record { kind = kind; generation = 0 }

-- The commands that are one word.
unfoldable pub keyword : List ℕ → Command
keyword name =
    if word name (b'h' ∷ b'e' ∷ b'l' ∷ b'p' ∷ [])
    then bare help
    else if word name (b'v' ∷ b'e' ∷ b'r' ∷ b's' ∷ b'i' ∷ b'o' ∷ b'n' ∷ [])
    then bare version
    else if word name (b's' ∷ b't' ∷ b'a' ∷ b't' ∷ b'u' ∷ b's' ∷ [])
    then bare status
    else bare invalid

-- The loop over the digits: a byte that is no digit and a value past 64 bits give `none`.
unfoldable pub digits_from : ℕ → List ℕ → Option ℕ
digits_from generation [] = some generation
digits_from generation (b ∷ bs) =
    let digit = b - 48 in
    let rest = digits_from ((generation * 10 + digit) % u64_mod) bs in
    if ltb b 48 || ltb 57 b
    then none
    else if ltb ((u64_max - digit) / 10) generation
    then none
    else rest

unfoldable pub read_argument : List ℕ → Command
read_argument argument = elim (digits_from 0 argument) [
  | none ↦ bare invalid
  | some g ↦ if g == 0 then bare invalid else record { kind = read; generation = g }
]

unfoldable pub parse_words : List ℕ → Command
parse_words words = elim (from_space words) [
  | [] ↦ keyword (until_space words)
  | b ∷ bs ↦
      if not (word (until_space words) (b'r' ∷ b'e' ∷ b'a' ∷ b'd' ∷ []))
      then bare invalid
      else read_argument (skip_spaces (b ∷ bs))
]

unfoldable pub parse_span : List ℕ → Command
parse_span bytes =
    if any_control bytes
    then bare invalid
    else elim (drop_spaces (skip_spaces bytes)) [ [] ↦ bare empty | b ∷ bs ↦ parse_words (b ∷ bs) ]

-- `tcs_command_parse`; `none` is the null pointer.
unfoldable pub command_parse : Option (List ℕ) → ℕ → Command
command_parse none length =
    if leb line_capacity length || (length != 0) then bare invalid else parse_span []
command_parse (some bytes) length =
    if leb line_capacity length then bare invalid else parse_span (take length bytes)

-- The loops of `decimal`: the digits are stored from the last one on and sent in reverse.
unfoldable pub decimal_from : ℕ → ℕ → List ℕ → List ℕ
decimal_from zero value sent = sent
decimal_from (suc fuel) value sent =
    let stored = (48 + value % 10) ∷ sent in
    let rest = decimal_from fuel (value / 10) stored in if value / 10 == 0 then stored else rest

-- `decimal`, whose array holds 21 digits.
unfoldable pub decimal : ℕ → List ℕ
decimal value = decimal_from 21 value []
