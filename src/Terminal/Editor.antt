-- ===== src/Terminal/Editor.antt =====
-- The line editor of lib/terminal.c against an editor of plain texts.
use tcs.Prelude.{
  take-set, take-set_end, length-take_le, ℕ, zero, suc, ◌+◌, ◌-◌, ◌<◌, ◌≡◌, ◌≢◌, refl, ap, sym, ◌∙◌,
  Bool, true, false, ◌&&◌, ◌||◌, ◌==◌, if◌then◌else◌, List, [], ◌∷◌, ◌++◌, length, get_or, set,
  take, length-set, get_or-set_self, arith,
}
use native.Mathlib.Numerals.{add-one}
use tcs.Terminal.{
  reset_line, line_discard, line_append, line_erase, feed_byte, fresh_line, line_feed, is_control,
  is_erase,
}
use tcs.Terminal.Types.{LineEvent, nothing, ready, rejected, cancelled, Line, line_capacity}

-- A text without its last byte.
unfoldable pub drop_last : List ℕ → List ℕ
drop_last [] = []
drop_last (x ∷ []) = []
drop_last (x ∷ y ∷ r) = x ∷ drop_last (y ∷ r)

drop_last-take : (n : ℕ) (xs : List ℕ) → n < length xs → drop_last (take (suc n) xs) ≡ take n xs
unfolding drop_last
drop_last-take n [] h = absurd (omega arith)
drop_last-take zero (x ∷ xs) h = refl
drop_last-take (suc n) (x ∷ []) h = absurd (omega arith)
drop_last-take (suc n) (x ∷ y ∷ r) h = ap (λ r. x ∷ r) (drop_last-take n (y ∷ r) (omega arith))

-- The text fits with its terminator, which stands right behind it; a rejected line is empty.
pub record IsValid (line : Line) : Type 0 where
  pub storage : length line.bytes ≡ line_capacity
  pub fits : line.length < line_capacity
  pub terminated : get_or line.bytes line.length 1 ≡ 0
  pub dropped : line.rejected ≡ true → line.length ≡ 0

-- The text that has been typed.
abbrev pub text : Line → List ℕ
text line = take line.length line.bytes

-- A line as a text.
pub record Draft : Type 0 where
  pub typed : List ℕ
  pub is_rejected : Bool
  pub after_cr : Bool
  pub done : Bool

abbrev pub view : Line → Draft
view line = record {
  typed = text line;
  is_rejected = line.rejected;
  after_cr = line.previous_cr;
  done = line.completed;
}

no_text : (line : Line) → line.length ≡ 0 → drop_last (text line) ≡ text line
unfolding drop_last
no_text line h = rw h

reset_line_lem :
    (line : Line)
    → IsValid line
    → IsValid (reset_line line)
      × (view (reset_line line)
          ≡ record { typed = []; is_rejected = false; after_cr = line.previous_cr; done = false })
unfolding reset_line
reset_line_lem line v =
    (ground (arith, length-set line.bytes 0 0, get_or-set_self line.bytes 0 0 1), refl)

line_discard_lem :
    (line : Line)
    → IsValid line
    → IsValid (line_discard line)
      × (view (line_discard line)
          ≡ record { typed = []; is_rejected = true; after_cr = false; done = false })
unfolding line_discard reset_line
line_discard_lem line v =
    (ground (arith, length-set line.bytes 0 0, get_or-set_self line.bytes 0 0 1), refl)

line_append_lem :
    (line : Line) (byte : ℕ)
    → IsValid line
    → line.length + 1 < line_capacity
    → line.rejected ≡ false
    → IsValid (line_append line byte)
      × (view (line_append line byte) ≡ record (view line) { typed = text line ++ byte ∷ [] })
unfolding line_append
line_append_lem line byte v h r =
    let n = line.length in
    let stored = set line.bytes n byte in
    (
      ground (
        arith,
        length-set line.bytes n byte,
        length-set stored (n + 1) 0,
        get_or-set_self stored (n + 1) 0 1,
      ),
      ap (λ t. record (view line) { typed = t })
          (take-set (n + 1) stored (n + 1) 0 (omega arith)
            ∙ rw add-one (take-set_end n line.bytes byte (omega arith))),
    )

line_erase_lem :
    (line : Line)
    → IsValid line
    → line.length ≢ 0
    → line.rejected ≡ false
    → IsValid (line_erase line)
      × (view (line_erase line) ≡ record (view line) { typed = drop_last (text line) })
unfolding line_erase
line_erase_lem line v h r =
    let n = line.length - 1 in
    let one : line.length ≡ suc n = omega arith in
    (
      ground (arith, length-set line.bytes n 0, get_or-set_self line.bytes n 0 1),
      ap (λ t. record (view line) { typed = t })
          (take-set n line.bytes n 0 (omega arith)
            ∙ sym (drop_last-take n line.bytes (omega arith))
            ∙ ap (λ (k : ℕ). drop_last (take k line.bytes)) (sym one)),
    )

-- Editing a text, past the tests on a finished line and on the second half of CR LF.
type_byte : Draft → ℕ → Draft × LineEvent
type_byte d byte =
    if byte == 3
    then (
      record { typed = []; is_rejected = false; after_cr = d.after_cr; done = false },
      cancelled,
    )
    else if (byte == 13) || (byte == 10)
    then (record d { done = true }, if d.is_rejected then rejected else ready)
    else if d.is_rejected
    then (d, nothing)
    else if is_erase byte
    then (record d { typed = drop_last d.typed }, nothing)
    else if is_control byte || (length d.typed == line_capacity - 1)
    then (record { typed = []; is_rejected = true; after_cr = false; done = false }, nothing)
    else (record d { typed = d.typed ++ byte ∷ [] }, nothing)

-- A text after a finished one.
abbrev fresh_draft : Draft → Draft
fresh_draft d =
    if d.done
    then record { typed = []; is_rejected = false; after_cr = d.after_cr; done = false }
    else d

-- The editor that the terminal promises: a byte after a finished line starts a new text, LF after CR
-- is dropped, Ctrl-C cancels, an erase takes the last byte off, and a byte that is not printable or
-- does not fit rejects the line until its end.
unfoldable pub edit : Draft → ℕ → Draft × LineEvent
unfolding type_byte
edit d byte =
    let fresh = fresh_draft d in
    if (byte == 10) && fresh.after_cr
    then (record fresh { after_cr = false }, nothing)
    else type_byte (record fresh { after_cr = byte == 13 }) byte

feed_byte_lem :
    (line : Line) (byte : ℕ)
    → IsValid line
    → IsValid (feed_byte line byte).0
      × (view (feed_byte line byte).0 ≡ (type_byte (view line) byte).0)
      × ((feed_byte line byte).1 ≡ (type_byte (view line) byte).1)
unfolding feed_byte type_byte
feed_byte_lem line byte v = ground (
  arith,
  reset_line_lem line v,
  line_discard_lem line v,
  line_append_lem line byte v,
  line_erase_lem line v,
  length-take_le line.length line.bytes,
  no_text line,
)

-- Only the flag for CR differs.
with_cr-IsValid :
    (line : Line) (b : Bool) → IsValid line → IsValid (record line { previous_cr = b })
with_cr-IsValid line b v = record {
  storage = v.storage;
  fits = v.fits;
  terminated = v.terminated;
  dropped = v.dropped;
}

fresh_line_lem :
    (line : Line)
    → IsValid line
    → IsValid (fresh_line line) × (view (fresh_line line) ≡ fresh_draft (view line))
fresh_line_lem line v = ground (arith, reset_line_lem line v)

-- The step on a line that is not finished, with the text that it stands for.
feed_open :
    (line : Line) (d : Draft) (byte : ℕ)
    → IsValid line
    → view line ≡ d
    → let code =
        if (byte == 10) && line.previous_cr
        then (record line { previous_cr = false }, nothing)
        else feed_byte (record line { previous_cr = byte == 13 }) byte in
      let spec =
        if (byte == 10) && d.after_cr
        then (record d { after_cr = false }, nothing)
        else type_byte (record d { after_cr = byte == 13 }) byte in
      IsValid code.0 × (view code.0 ≡ spec.0) × (code.1 ≡ spec.1)
feed_open line d byte v e = rw (← e) (
    ground (
      arith,
      with_cr-IsValid line false v,
      feed_byte_lem (record line { previous_cr = byte == 13 }) byte
          (with_cr-IsValid line (byte == 13) v),
    ))

-- Feeding any byte to a valid line reports the event of the text editor, leaves its text and flags,
-- and keeps the line valid: inside its array, terminated, and empty if it is rejected.
pub line_feed_refines :
    (line : Line) (byte : ℕ)
    → IsValid line
    → IsValid (line_feed line byte).0
      × (view (line_feed line byte).0 ≡ (edit (view line) byte).0)
      × ((line_feed line byte).1 ≡ (edit (view line) byte).1)
unfolding line_feed edit
line_feed_refines line byte v =
    let (valid, same) = fresh_line_lem line v in
    feed_open (fresh_line line) (fresh_draft (view line)) byte valid same
