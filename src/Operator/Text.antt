-- ===== src/Operator/Text.antt =====
-- tools/operator.c: numbers, hex digits, operations and paths as text. A text is its characters before
-- the terminator.
use tcs.Prelude.{
  ℕ, ◌+◌, ◌-◌, ◌*◌, ◌/◌, ◌%◌, Bool, true, false, not, ◌&&◌, ◌||◌, ltb, leb, ◌==◌, ◌!=◌,
  if◌then◌else◌, List, [], ◌∷◌, ◌++◌, get_or, length, Option, none, some, u64_max, u64_mod, codes,
}
use tcs.Policy.Op
use tcs.Policy.Types.{Request, the_object, read_right, subject_count}
use tcs.Admin.Types.{Command}
use tcs.Launch.{hex}

-- `strcmp(a, b) == 0`
unfoldable pub same_text : List ℕ → List ℕ → Bool
same_text [] [] = true
same_text [] (b ∷ bs) = false
same_text (a ∷ rest) [] = false
same_text (a ∷ rest) (b ∷ bs) = (a == b) && same_text rest bs

-- The loop of `number` over the characters from the index `i` on.
unfoldable pub number_from : ℕ → ℕ → List ℕ → Option ℕ
number_from i value [] = some value
number_from i value (c ∷ text) =
    let rest = number_from (i + 1) ((value * 10 + (c - b'0')) % u64_mod) text in
    if (i == 20) || ltb c b'0' || ltb b'9' c
    then none
    else if ltb ((u64_max - (c - b'0')) / 10) value
    then none
    else rest

-- `number`: the value where the result is true.
unfoldable pub number : List ℕ → Option ℕ
number [] = none
number (c ∷ text) = if (c == b'0') && (length text != 0) then none else number_from 0 0 (c ∷ text)

-- The loop of `hex`.
unfoldable pub hex_text : List ℕ → List ℕ
hex_text [] = []
hex_text (b ∷ bytes) = get_or hex (b / 16) 0 ∷ get_or hex (b % 16) 0 ∷ hex_text bytes

-- The operation of a command, with what it asks for.
unfoldable pub operation : List ℕ → Option Request
operation text =
    let plain : ℕ → Request =
      λ op. record { op = op; subject = 0; object = 0; rights = 0; generation = 0 } in
    if same_text text (codes "grant")
    then some (record (plain Op.grant) { object = the_object; rights = read_right })
    else if same_text text (codes "revoke")
    then some (plain Op.revoke)
    else if same_text text (codes "quarantine")
    then some (plain Op.quarantine)
    else if same_text text (codes "restore")
    then some (plain Op.restore)
    else none

infixl 5 ◌>>=◌
abbrev ◌>>=◌ : {A B : Type 0} → Option A → (A → Option B) → Option B
none >>= f = none
some a >>= f = f a

-- `command_parse`, of the texts of the operation, the subject, the sequence and the generation.
unfoldable pub command_parse : List ℕ → List ℕ → List ℕ → List ℕ → Option Command
command_parse op subject sequence generation = do
  request ← operation op
  s ← number subject
  n ← if ltb s subject_count then number sequence else none
  g ← if n != 0 then number generation else none
  some (record { sequence = n; expected_generation = g; request = record request { subject = s } })

-- The loop of `absolute_argument` from the index `i` on.
unfoldable pub printable_from : ℕ → List ℕ → Bool
printable_from i [] = true
printable_from i (c ∷ path) =
    not (leb 4095 i || ltb c 32 || (c == b',') || (c == 127)) && printable_from (i + 1) path

-- `absolute_argument`
abbrev pub absolute_argument : List ℕ → Bool
absolute_argument path = (get_or path 0 0 == b'/') && printable_from 0 path

-- The parts of a path, as `strtok_r` gives them: what stands between slashes and is not empty. The
-- first argument is the part that has been begun.
unfoldable pub parts_from : List ℕ → List ℕ → List (List ℕ)
parts_from [] [] = []
parts_from (p ∷ part) [] = (p ∷ part) ∷ []
parts_from [] (c ∷ path) = if c == b'/' then parts_from [] path else parts_from (c ∷ []) path
parts_from (p ∷ part) (c ∷ path) =
    if c == b'/' then (p ∷ part) ∷ parts_from [] path else parts_from (p ∷ part ++ c ∷ []) path

-- `strstr(path, "//")`
unfoldable pub double_slash : List ℕ → Bool
double_slash [] = false
double_slash (c ∷ []) = false
double_slash (c ∷ d ∷ path) = ((c == b'/') && (d == b'/')) || double_slash (d ∷ path)

-- The first test of `directory`.
abbrev pub is_path : List ℕ → Bool
is_path path =
    let n = length path in
    not (
      (n == 0)
      || leb 4096 n
      || (get_or path 0 0 != b'/')
      || (get_or path (n - 1) 0 == b'/')
      || double_slash path)
