-- ===== src/Admin/Encoding.antt =====
-- The encoding of messages in lib/admin.c against their decoding.
use mathlib.Core.List.{append_assoc}
use tcs.Prelude.{
  length-append, ℕ, ◌*◌, ◌%◌, ◌≤◌, ◌≡◌, refl, sym, ◌∙◌, List, [], ◌++◌, length, drop, replicate,
  copy, copy-append, copy_next, byte_of, word_bytes, bit_or, bit_or_above, zero-bit_or, arith,
  u64_max,
}
use tcs.Admin.{load_below, load64, store_below, store64}
use tcs.Admin.Types.{Command}

-- `load64` gives back the value of the bytes of a word.
pub load64-word_bytes : (v : ℕ) (rest : List ℕ) → v ≤ u64_max → load64 (word_bytes v ++ rest) ≡ v
unfolding load64 load_below
load64-word_bytes v rest h =
    let s0 : bit_or 0 (byte_of v 0 * 1) ≡ v % 256 = zero-bit_or (byte_of v 0 * 1) ∙ omega arith in
    let s1 : bit_or (v % 256) (byte_of v 1 * 256) ≡ v % 65536 =
      bit_or_above 8 (v % 256) (byte_of v 1) (omega arith) ∙ omega arith in
    let s2 : bit_or (v % 65536) (byte_of v 2 * 65536) ≡ v % 16777216 =
      bit_or_above 16 (v % 65536) (byte_of v 2) (omega arith) ∙ omega arith in
    let s3 : bit_or (v % 16777216) (byte_of v 3 * 16777216) ≡ v % 4294967296 =
      bit_or_above 24 (v % 16777216) (byte_of v 3) (omega arith) ∙ omega arith in
    let s4 : bit_or (v % 4294967296) (byte_of v 4 * 4294967296) ≡ v % 1099511627776 =
      bit_or_above 32 (v % 4294967296) (byte_of v 4) (omega arith) ∙ omega arith in
    let s5 : bit_or (v % 1099511627776) (byte_of v 5 * 1099511627776) ≡ v % 281474976710656 =
      bit_or_above 40 (v % 1099511627776) (byte_of v 5) (omega arith) ∙ omega arith in
    let s6 : bit_or (v % 281474976710656) (byte_of v 6 * 281474976710656) ≡ v % 72057594037927936 =
      bit_or_above 48 (v % 281474976710656) (byte_of v 6) (omega arith) ∙ omega arith in
    let s7 : bit_or (v % 72057594037927936) (byte_of v 7 * 72057594037927936)
        ≡ v % 18446744073709551616 =
      bit_or_above 56 (v % 72057594037927936) (byte_of v 7) (omega arith) ∙ omega arith in
    rw (s0, s1, s2, s3, s4, s5, s6, s7) (omega arith)

store64-append :
    (xs ys : List ℕ) (v : ℕ)
    → 8 ≤ length ys
    → store64 (xs ++ ys) (length xs) v ≡ xs ++ (word_bytes v ++ drop 8 ys)
unfolding store64 store_below copy
store64-append xs ys v h = copy-append xs ys (word_bytes v) 8 (omega arith) h

store_next :
    (xs ys : List ℕ) (at v : ℕ)
    → length xs ≡ at
    → 8 ≤ length ys
    → store64 (xs ++ ys) at v ≡ (xs ++ word_bytes v) ++ drop 8 ys
store_next xs ys at v h k =
    rw (← h) (store64-append xs ys v k ∙ sym (append_assoc xs (word_bytes v) (drop 8 ys)))

module _ (head realm boot : List ℕ) (c : Command) (h : length head ≡ 16) (r : length realm ≡ 32)
    (b : length boot ≡ 32) where
  abbrev pub context : List ℕ
  context = (head ++ realm) ++ boot

  abbrev pub ordered : List ℕ
  ordered = (context ++ word_bytes c.sequence) ++ word_bytes c.request.op

  abbrev pub named : List ℕ
  named = (ordered ++ word_bytes c.request.subject) ++ word_bytes c.request.object

  -- The fields of a message, one behind the other.
  abbrev pub fields : List ℕ
  fields = (named ++ word_bytes c.request.rights) ++ word_bytes c.expected_generation

  pub context-length : length context ≡ 80
  context-length = omega (arith, length-append (head ++ realm) boot, length-append head realm)

  pub ordered-length : length ordered ≡ 96
  ordered-length = omega (
    arith,
    context-length,
    length-append (context ++ word_bytes c.sequence) (word_bytes c.request.op),
    length-append context (word_bytes c.sequence),
  )

  pub named-length : length named ≡ 112
  named-length = omega (
    arith,
    ordered-length,
    length-append (ordered ++ word_bytes c.request.subject) (word_bytes c.request.object),
    length-append ordered (word_bytes c.request.subject),
  )

  pub write_fields :
      (let start = copy (copy (head ++ replicate 112 0) 16 realm 32) 48 boot 32 in
        let two = store64 (store64 start 80 c.sequence) 88 c.request.op in
        let four = store64 (store64 two 96 c.request.subject) 104 c.request.object in
        store64 (store64 four 112 c.request.rights) 120 c.expected_generation)
      ≡ fields ++ []
  write_fields =
      let e1 = copy_next head (replicate 112 0) realm 16 32 h r (omega arith) in
      let e2 =
        copy_next (head ++ realm) (replicate 80 0) boot 48 32
          (omega (arith, length-append head realm)) b (omega arith) in
      let e3 = store_next context (replicate 48 0) 80 c.sequence context-length (omega arith) in
      let e4 =
        store_next (context ++ word_bytes c.sequence) (replicate 40 0) 88 c.request.op
          (omega (arith, context-length, length-append context (word_bytes c.sequence)))
          (omega arith) in
      let e5 =
        store_next ordered (replicate 32 0) 96 c.request.subject ordered-length (omega arith) in
      let e6 =
        store_next (ordered ++ word_bytes c.request.subject) (replicate 24 0) 104 c.request.object
          (omega (arith, ordered-length, length-append ordered (word_bytes c.request.subject)))
          (omega arith) in
      let e7 = store_next named (replicate 16 0) 112 c.request.rights named-length (omega arith) in
      let e8 =
        store_next (named ++ word_bytes c.request.rights) (replicate 8 0) 120 c.expected_generation
          (omega (arith, named-length, length-append named (word_bytes c.request.rights)))
          (omega arith) in
      rw (e1, e2, e3, e4, e5, e6, e7, e8) refl
