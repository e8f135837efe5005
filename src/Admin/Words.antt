-- ===== src/Admin/Words.antt =====
-- Bytes that cross a message as words: the packing of include/tcs/admin_ipc.h and its inverse.
use tcs.Prelude.{
  ℕ, zero, suc, ◌+◌, ◌*◌, ◌<◌, ◌≡◌, refl, ap, ◌∙◌, List, [], ◌∷◌, ◌++◌, length, All, byte_of,
  word_bytes, bit_or, bit_or_above, zero-bit_or, arith,
}
use tcs.Admin.{load64, load_below}
use tcs.Admin.Ipc.{words_from_bytes, bytes_from_words}

abbrev pub IsByte : ℕ → Type 0
IsByte b = b < 256

word_bytes-load64 :
    (a b c d e f g h : ℕ) (rest : List ℕ)
    → IsByte a
    → IsByte b
    → IsByte c
    → IsByte d
    → IsByte e
    → IsByte f
    → IsByte g
    → IsByte h
    → word_bytes (load64 (a ∷ b ∷ c ∷ d ∷ e ∷ f ∷ g ∷ h ∷ rest))
      ≡ a ∷ b ∷ c ∷ d ∷ e ∷ f ∷ g ∷ h ∷ []
unfolding load64 load_below
word_bytes-load64 a b c d e f g h rest a' b' c' d' e' f' g' h' =
    let s0 : bit_or 0 (a * 1) ≡ a = zero-bit_or (a * 1) ∙ omega arith in
    let v1 = a + b * 256 in
    let s1 : bit_or a (b * 256) ≡ v1 = bit_or_above 8 a b (omega arith) in
    let v2 = v1 + c * 65536 in
    let s2 : bit_or v1 (c * 65536) ≡ v2 = bit_or_above 16 v1 c (omega arith) in
    let v3 = v2 + d * 16777216 in
    let s3 : bit_or v2 (d * 16777216) ≡ v3 = bit_or_above 24 v2 d (omega arith) in
    let v4 = v3 + e * 4294967296 in
    let s4 : bit_or v3 (e * 4294967296) ≡ v4 = bit_or_above 32 v3 e (omega arith) in
    let v5 = v4 + f * 1099511627776 in
    let s5 : bit_or v4 (f * 1099511627776) ≡ v5 = bit_or_above 40 v4 f (omega arith) in
    let v6 = v5 + g * 281474976710656 in
    let s6 : bit_or v5 (g * 281474976710656) ≡ v6 = bit_or_above 48 v5 g (omega arith) in
    let v7 = v6 + h * 72057594037927936 in
    let s7 : bit_or v6 (h * 72057594037927936) ≡ v7 = bit_or_above 56 v6 h (omega arith) in
    let e0 : byte_of v7 0 ≡ a = omega arith in
    let e1 : byte_of v7 1 ≡ b = omega arith in
    let e2 : byte_of v7 2 ≡ c = omega arith in
    let e3 : byte_of v7 3 ≡ d = omega arith in
    let e4 : byte_of v7 4 ≡ e = omega arith in
    let e5 : byte_of v7 5 ≡ f = omega arith in
    let e6 : byte_of v7 6 ≡ g = omega arith in
    let e7 : byte_of v7 7 ≡ h = omega arith in
    rw (s0, s1, s2, s3, s4, s5, s6, s7, e0, e1, e2, e3, e4, e5, e6, e7) refl

-- Bytes that are packed in words are unpacked as they were.
pub bytes_from_words-words_from_bytes :
    (n : ℕ) (bytes : List ℕ)
    → length bytes ≡ 8 * n
    → All IsByte bytes
    → bytes_from_words (words_from_bytes bytes n) n ≡ bytes
unfolding bytes_from_words words_from_bytes
bytes_from_words-words_from_bytes zero [] l w = refl
bytes_from_words-words_from_bytes zero (a ∷ bytes) l w = absurd (omega arith)
bytes_from_words-words_from_bytes (suc n) (a ∷ b ∷ c ∷ d ∷ e ∷ f ∷ g ∷ h ∷ bytes) l
      (i, (j, (k, (m, (o, (p, (q, (r, w)))))))) =
    ap (λ (t : List ℕ). t ++ bytes_from_words (words_from_bytes bytes n) n)
      (word_bytes-load64 a b c d e f g h bytes i j k m o p q r)
    ∙ ap (λ (t : List ℕ). a ∷ b ∷ c ∷ d ∷ e ∷ f ∷ g ∷ h ∷ t)
        (bytes_from_words-words_from_bytes n bytes (omega arith) w)
bytes_from_words-words_from_bytes (suc n) bytes l w = absurd (omega arith)
