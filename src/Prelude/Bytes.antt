-- ===== src/Prelude/Bytes.antt =====
-- Bytes in arrays: the loops that copy them, and the words that they stand for.
use Prim.Native.Nat.{ℕ, zero, suc, ◌+◌, ◌*◌, ◌/◌, ◌%◌, ◌^◌, ◌≤◌, ◌<◌, bit_or}
use mathlib.Core.Path.{◌≡◌, refl, ap, sym, ◌∙◌}
use mathlib.Core.List.{List, [], ◌∷◌, ◌++◌, append_assoc, append-nil}
use native.Mathlib.Omega.{arith}
use native.Mathlib.Nat.{zero-add}
use tcs.Prelude.Lists.{
  replicate, length, get_or, set, take, drop, take-length, take-append, drop-length, length-append,
}
use tcs.Prelude.Bits.{bit_or_step, zero-bit_or}

-- `for (i = 0; i < n; ++i) to[at + i] = from[i];`
unfoldable pub copy : List ℕ → ℕ → List ℕ → ℕ → List ℕ
copy to at from zero = to
copy to at from (suc n) = set (copy to at from n) (at + n) (get_or from n 0)

-- The byte `i` of a word, `(uint8_t)(value >> (8 * i))`.
abbrev pub byte_of : ℕ → ℕ → ℕ
byte_of value i = value / 2 ^ (8 * i) % 256

-- The bytes of a 64-bit word, the lowest first.
abbrev pub word_bytes : ℕ → List ℕ
word_bytes v =
    byte_of v 0
    ∷ byte_of v 1
    ∷ byte_of v 2
    ∷ byte_of v 3
    ∷ byte_of v 4
    ∷ byte_of v 5
    ∷ byte_of v 6
    ∷ byte_of v 7
    ∷ []

set-append : (xs ys : List ℕ) (n v : ℕ) → set (xs ++ ys) (length xs + n) v ≡ xs ++ set ys n v
set-append [] ys n v = rw zero-add refl
set-append (x ∷ xs) ys n v =
    let inner : suc (length xs) + n ≡ suc (length xs + n) = omega arith in
    rw inner (ap (λ t. x ∷ t) (set-append xs ys n v))

set-take-drop :
    (n : ℕ) (from ys : List ℕ)
    → n < length from
    → n < length ys
    → set (take n from ++ drop n ys) n (get_or from n 0) ≡ take (suc n) from ++ drop (suc n) ys
set-take-drop n [] ys h k = absurd (omega arith)
set-take-drop n (f ∷ from) [] h k = absurd (omega arith)
set-take-drop zero (f ∷ from) (y ∷ ys) h k = refl
set-take-drop (suc n) (f ∷ from) (y ∷ ys) h k =
    ap (λ r. f ∷ r) (set-take-drop n from ys (omega arith) (omega arith))

-- Copying over a part of an array.
pub copy-append :
    (xs ys from : List ℕ) (n : ℕ)
    → n ≤ length from
    → n ≤ length ys
    → copy (xs ++ ys) (length xs) from n ≡ xs ++ (take n from ++ drop n ys)
unfolding copy
copy-append xs ys from zero h k = refl
copy-append xs ys from (suc n) h k =
    ap (λ (t : List ℕ). set t (length xs + n) (get_or from n 0))
      (copy-append xs ys from n (omega arith) (omega arith))
    ∙ set-append xs (take n from ++ drop n ys) n (get_or from n 0)
    ∙ ap (λ (t : List ℕ). xs ++ t) (set-take-drop n from ys (omega arith) (omega arith))

take_all : (xs : List ℕ) (n : ℕ) → length xs ≡ n → take n xs ≡ xs
take_all xs n h = rw (← h) (take-length xs)

-- One part more of an array that is filled from its start on.
pub copy_next :
    (xs ys from : List ℕ) (at n : ℕ)
    → length xs ≡ at
    → length from ≡ n
    → n ≤ length ys
    → copy (xs ++ ys) at from n ≡ (xs ++ from) ++ drop n ys
copy_next xs ys from at n h k l = rw (← h) (
    copy-append xs ys from n (omega arith) l
    ∙ ap (λ (t : List ℕ). xs ++ (t ++ drop n ys)) (take_all from n k)
    ∙ sym (append_assoc xs from (drop n ys)))

-- A part that is copied out of an array fills an array of its size.
pub copy_out :
    (ys part rest : List ℕ) (n : ℕ)
    → length part ≡ n
    → length ys ≡ n
    → copy ys 0 (part ++ rest) n ≡ part
copy_out ys part rest n h k =
    let all : drop n ys ≡ [] = rw (← k) (drop-length ys) in
    let whole : take n (part ++ rest) ≡ part = rw (← h) (take-append part rest) in
    let copied =
      copy-append [] ys (part ++ rest) n (omega (arith, length-append part rest)) (omega arith) in
    copied ∙ rw (all, whole) (append-nil part)

-- An array of 32 bytes that is filled from another one.
pub copy_field : (xs : List ℕ) → 32 ≤ length xs → copy (replicate 32 0) 0 xs 32 ≡ take 32 xs
copy_field xs h = copy-append [] (replicate 32 0) xs 32 h (omega arith) ∙ append-nil (take 32 xs)

pub take-get_or :
    (n : ℕ) (xs : List ℕ) → n < length xs → take (suc n) xs ≡ take n xs ++ get_or xs n 0 ∷ []
take-get_or n [] h = absurd (omega arith)
take-get_or zero (x ∷ xs) h = refl
take-get_or (suc n) (x ∷ xs) h = ap (λ (t : List ℕ). x ∷ t) (take-get_or n xs (omega arith))

pub take_plus : (n m : ℕ) (xs : List ℕ) → take (n + m) xs ≡ take n xs ++ take m (drop n xs)
take_plus zero m xs = rw zero-add refl
take_plus (suc n) zero [] = let inner : suc n + 0 ≡ suc n = omega arith in rw inner refl
take_plus (suc n) (suc m) [] =
    let inner : suc n + suc m ≡ suc (n + suc m) = omega arith in rw inner refl
take_plus (suc n) m (x ∷ xs) =
    let inner : suc n + m ≡ suc (n + m) = omega arith in
    rw inner (ap (λ (t : List ℕ). x ∷ t) (take_plus n m xs))

pub length-drop : (n : ℕ) (xs : List ℕ) → n ≤ length xs → n + length (drop n xs) ≡ length xs
length-drop zero xs h = omega arith
length-drop (suc n) [] h = absurd (omega arith)
length-drop (suc n) (x ∷ xs) h = omega (arith, length-drop n xs (omega arith))

-- 112 bytes are a head of 16 bytes and three fields of 32 bytes.
pub fields_112 :
    (bytes : List ℕ)
    → length bytes ≡ 112
    → ((take 16 bytes ++ take 32 (drop 16 bytes)) ++ take 32 (drop 48 bytes))
        ++ take 32 (drop 80 bytes)
      ≡ bytes
fields_112 bytes l =
    let all : take 112 bytes ≡ bytes = rw (← l) (take-length bytes) in
    rw (← take_plus 16 32 bytes, ← take_plus 48 32 bytes, ← take_plus 80 32 bytes) all

half : (n : ℕ) → 2 * n / 2 ≡ n
half n = omega arith

-- Where the second word lies above the first, `|` adds them.
pub bit_or_above : (k a b : ℕ) → a < 2 ^ k → bit_or a (b * 2 ^ k) ≡ a + b * 2 ^ k
bit_or_above zero a b h =
    let none : a ≡ 0 = omega arith in rw (none, zero-bit_or (b * 1)) (omega arith)
bit_or_above (suc k) a b h =
    let two : 2 ^ suc k ≡ 2 * 2 ^ k = omega arith in
    let high = b * 2 ^ k in
    let twice : b * 2 ^ suc k ≡ 2 * high = omega (arith, ap (λ (t : ℕ). b * t) two) in
    rw twice (
      bit_or_step a (2 * high)
      ∙ omega (
        arith,
        two,
        ap (λ (t : ℕ). bit_or (a / 2) t) (half high),
        bit_or_above k (a / 2) b (omega (arith, two)),
      ))
