-- ===== src/Parser/Unescape.antt =====
-- The buffers of the unescaping functions of src/parser.c, and what the one with rules does.
use bctoolbox.Common.{
  and_false, ap, ◌∙◌, if◌then◌else◌, ℕ, zero, suc, ◌+◌, ◌≤◌, ◌<◌, ◌≡◌, refl, inl, inr, true, ◌&&◌,
  some, none, [], ◌∷◌, ◌++◌, arith, ltb, ◌==◌, length, length-append, length-drop, Bool-cases,
  Option, drop,
}
use bctoolbox.Parser.{
  Bytes, Rules, percent, get_char, unescape_loop, prepend, unescaped_string, unescape_rules_loop,
  is_escaped_char, skip, unescaped_string_only_chars_in_rules,
}
use bctoolbox.Parser.Escape.{length-percent}
use bctoolbox.Parser.RoundTrip.{get_char-percent}

-- A step takes one byte or three, and never more than there are.
get_char-width :
    (tmp c : ℕ) (a : Bytes)
    → (1 ≤ (get_char tmp (c ∷ a)).1) × ((get_char tmp (c ∷ a)).1 ≤ length (c ∷ a))
unfolding get_char
get_char-width tmp c [] = (omega arith, omega arith)
get_char-width tmp c (x ∷ []) = (omega arith, omega arith)
get_char-width tmp c (x ∷ y ∷ a) = ground arith

skip-drop : (n : ℕ) (s : Bytes) → n ≤ length s → skip n s ≡ some (drop n s)
skip-drop zero s h = refl
skip-drop (suc n) [] h = absurd (omega arith)
skip-drop (suc n) (c ∷ s) h = skip-drop n s (omega arith)

abbrev FitsIn : ℕ → Option Bytes → Type 0
FitsIn n none = ⊥
FitsIn n (some out) = length out ≤ n

FitsIn-cons : (c m n : ℕ) (r : Option Bytes) → FitsIn m r → m < n → FitsIn n (prepend c r)
FitsIn-cons c m n none h lt = h
FitsIn-cons c m n (some out) h lt = omega arith

unescape_loop-fits :
    (fuel tmp : ℕ) (buff : Bytes)
    → length buff < fuel
    → FitsIn (length buff) (unescape_loop fuel tmp buff)
unfolding unescape_loop
unescape_loop-fits zero tmp buff enough = absurd (omega arith)
unescape_loop-fits (suc fuel) tmp [] enough = omega arith
unescape_loop-fits (suc fuel) tmp (c ∷ buff) enough =
    let n = (get_char tmp (c ∷ buff)).1 in
    let (some_byte, in_range) = get_char-width tmp c buff in
    rw (unescape_loop, skip-drop n (c ∷ buff) in_range)
      (FitsIn-cons _ (length (drop n (c ∷ buff))) _ _
        (unescape_loop-fits fuel tmp (drop n (c ∷ buff)) (omega (arith, length-drop n (c ∷ buff))))
        (omega (arith, length-drop n (c ∷ buff))))

-- On every buffer `bctbx_unescaped_string` ends, and writes no more bytes than the buffer has, so
-- they fit with the final zero in the `strlen + 1` bytes that it allocates.
pub unescaped_string-fits :
    (tmp : ℕ) (buff : Bytes)
    → (out : Bytes) × (unescaped_string tmp buff ≡ some out) × (length out ≤ length buff)
unfolding unescaped_string
unescaped_string-fits tmp buff =
    to_some (unescape_loop (length buff + 1) tmp buff) (length buff)
      (unescape_loop-fits (length buff + 1) tmp buff (omega arith))
  where
    to_some :
        (r : Option Bytes) (n : ℕ) → FitsIn n r → (out : Bytes) × (r ≡ some out) × (length out ≤ n)
    to_some none n h = absurd h
    to_some (some out) n h = (out, refl, h)

-- The invariant of the loop with rules: what is written and what is left fit in the buffer.
unescape_rules_loop-ends :
    (fuel tmp : ℕ) (unescape : Rules) (max_len : ℕ) (out buff : Bytes)
    → length buff < fuel
    → length out + length buff < max_len
    → (r : Bytes) × (unescape_rules_loop fuel tmp unescape max_len out buff ≡ some r)
unfolding unescape_rules_loop
unescape_rules_loop-ends zero tmp unescape max_len out buff enough room = absurd (omega arith)
unescape_rules_loop-ends (suc fuel) tmp unescape max_len out [] enough room = (out, ground arith)
unescape_rules_loop-ends (suc fuel) tmp unescape max_len out (b ∷ buff) enough room =
    let (c, n) = get_char tmp (b ∷ buff) in
    let (some_byte, in_range) = get_char-width tmp b buff in
    let rest = drop n (b ∷ buff) in
    let less : length rest < length (b ∷ buff) = omega (arith, length-drop n (b ∷ buff)) in
    let here : ltb (length out) max_len ≡ true = ground arith in
    let printed : ltb (length out + 3) (max_len + 3) ≡ true = ground arith in
    elim (Bool-cases (unescape c == 0 && is_escaped_char rest)) [
      | inl kept ↦
          rw (unescape_rules_loop, skip-drop n (b ∷ buff) in_range, here, kept, printed)
            (unescape_rules_loop-ends fuel tmp unescape (max_len + 3) (out ++ percent c) rest
              (omega arith) (omega (arith, length-append out (percent c), length-percent c)))
      | inr plain ↦
          rw (unescape_rules_loop, skip-drop n (b ∷ buff) in_range, here, plain)
            (unescape_rules_loop-ends fuel tmp unescape max_len (out ++ c ∷ []) rest (omega arith)
              (omega (arith, length-append out (c ∷ []))))
    ]

-- On every buffer and all rules `bctbx_unescaped_string_only_chars_in_rules` ends and stays within
-- the buffer that it grows.
pub unescaped_string_only_chars_in_rules-ends :
    (tmp : ℕ) (buff : Bytes) (unescape : Rules)
    → (r : Bytes) × (unescaped_string_only_chars_in_rules tmp buff unescape ≡ some r)
unfolding unescaped_string_only_chars_in_rules
unescaped_string_only_chars_in_rules-ends tmp buff unescape =
    unescape_rules_loop-ends (length buff + 1) tmp unescape (length buff + 1) [] buff (omega arith)
      (omega arith)

-- Whatever the rules, an escape at the end of the buffer is unescaped: the code looks for an escape
-- behind the one that it has read, where it means to look at that one.
pub only_chars_in_rules-last :
    (tmp c : ℕ) (unescape : Rules)
    → c < 256
    → unescaped_string_only_chars_in_rules tmp (percent c) unescape ≡ some (c ∷ [])
unfolding unescaped_string_only_chars_in_rules unescape_rules_loop percent
only_chars_in_rules-last tmp c unescape h =
    ap after (get_char-percent tmp c [] h) ∙ rw (and_false (unescape c == 0)) refl
  where
    -- The first round, of the byte that it reads and of the bytes that it takes.
    after : ℕ × ℕ → Option Bytes
    after (o, n) = elim (skip n (percent c)) [
      | none ↦ none
      | some rest ↦
          let kept = unescape_rules_loop 3 tmp unescape 7 (percent o) rest in
          let plain = unescape_rules_loop 3 tmp unescape 4 (o ∷ []) rest in
          if unescape o == 0 && is_escaped_char rest then kept else plain
    ]
