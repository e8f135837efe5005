-- ===== src/Terminal/Display.antt =====
-- What lib/terminal.c displays, and what becomes of a rejected line.
use tcs.Prelude.{
  ℕ, ◌+◌, ◌≤◌, ◌≡◌, ◌≢◌, ◌⊎◌, refl, inl, true, false, if◌then◌else◌, List, [], ◌∷◌, length, All,
  arith,
}
use tcs.Terminal.{
  reset_line, line_discard, line_append, line_erase, feed_byte, line_feed, terminal_input,
  is_control,
}
use tcs.Terminal.Types.{rejected, Line}

-- What may be sent to the display: printable bytes, backspace, carriage return and line feed.
abbrev pub IsDisplay : ℕ → Type 0
IsDisplay b = ((32 ≤ b) × (b ≤ 126)) ⊎ (b ≡ 8) ⊎ (b ≡ 13) ⊎ (b ≡ 10)

-- A byte that makes a line longer is printable or a tab.
grown :
    (line : Line) (byte : ℕ)
    → (line_feed line byte).0.rejected ≡ false
    → (line_feed line byte).0.length ≡ (if line.completed then 0 else line.length) + 1
    → is_control byte ≡ false
unfolding line_feed feed_byte reset_line line_discard line_append line_erase
grown line byte r h = ground arith

-- For any line and any byte, at most four display bytes are generated, and none is a raw control byte.
pub echo_bounded :
    (line : Line) (byte : ℕ)
    → let echo = (terminal_input line byte).1.echo in (length echo ≤ 4) × All IsDisplay echo
unfolding terminal_input
echo_bounded line byte = ground (arith, grown line byte)

-- A byte that neither ends nor cancels a line.
abbrev pub IsInner : ℕ → Type 0
IsInner b = (b ≢ 3) × (b ≢ 10) × (b ≢ 13)

unfoldable pub feed_all : Line → List ℕ → Line
feed_all line [] = line
feed_all line (b ∷ bs) = feed_all (line_feed line b).0 bs

inner_stays :
    (line : Line) (byte : ℕ)
    → IsInner byte
    → line.rejected ≡ true
    → line.completed ≡ false
    → ((line_feed line byte).0.rejected ≡ true) × ((line_feed line byte).0.completed ≡ false)
unfolding line_feed feed_byte
inner_stays line byte n r c = ground arith

end_rejects :
    (line : Line) (end : ℕ)
    → (end ≡ 13) ⊎ ((end ≡ 10) × (line.previous_cr ≡ false))
    → line.rejected ≡ true
    → line.completed ≡ false
    → (line_feed line end).1 ≡ rejected
unfolding line_feed feed_byte
end_rejects line end e r c = ground arith

feed_all-rejected :
    (line : Line) (bs : List ℕ)
    → All IsInner bs
    → line.rejected ≡ true
    → line.completed ≡ false
    → ((feed_all line bs).rejected ≡ true) × ((feed_all line bs).completed ≡ false)
unfolding feed_all
feed_all-rejected line [] a r c = (r, c)
feed_all-rejected line (b ∷ bs) a r c =
    let (r', c') = inner_stays line b a.0 r c in feed_all-rejected (line_feed line b).0 bs a.1 r' c'

-- After bytes were lost and the line was discarded, whatever bytes arrive before the next line end
-- or Ctrl-C, erases included, the carriage return that ends the line reports it as rejected.
pub discard_rejects :
    (line : Line) (bs : List ℕ)
    → All IsInner bs
    → (line_feed (feed_all (line_discard line) bs) 13).1 ≡ rejected
unfolding line_discard reset_line
discard_rejects line bs a =
    let (r, c) = feed_all-rejected (line_discard line) bs a refl refl in
    end_rejects (feed_all (line_discard line) bs) 13 (inl refl) r c
