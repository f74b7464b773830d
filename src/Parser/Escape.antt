-- ===== src/Parser/Escape.antt =====
-- `bctbx_escape` of src/parser.c never writes outside its buffer, and what it prints.
use bctoolbox.Common.{
  ◌∙◌, ℕ, ◌+◌, ◌≤◌, ◌<◌, ◌^◌, false, ◌≡◌, refl, ap, inl, inr, true, some, [], ◌∷◌, ◌++◌, arith, leb,
  ◌==◌, if◌then◌else◌, length, length-append, Bool-cases, append-nil, append_assoc,
}
use bctoolbox.Parser.{Bytes, Rules, percent, grown, escape_loop, escape}

-- Each byte that the rules allow, and the print of each other one.
unfoldable pub escaped : Rules → Bytes → Bytes
escaped noescapes [] = []
escaped noescapes (c ∷ buff) =
    (if noescapes c == 1 then c ∷ [] else percent c) ++ escaped noescapes buff

-- The growth leaves room for three characters and the final zero.
grown-room : (orig size index : ℕ) → index ≤ size → index + 3 ≤ grown orig size index
unfolding grown
grown-room orig size index h = ground arith

pub length-percent : (c : ℕ) → length (percent c) ≡ 3
unfolding percent
length-percent c = refl

escape_loop-escaped :
    (noescapes : Rules) (orig size i : ℕ) (out buff : Bytes)
    → length out ≤ size
    → i + length buff < 2 ^ 31
    → escape_loop noescapes orig size i out buff ≡ some (out ++ escaped noescapes buff)
unfolding escape_loop escaped
escape_loop-escaped noescapes orig size i out [] h short = ground (arith, append-nil out)
escape_loop-escaped noescapes orig size i out (c ∷ buff) h short =
    let counted : leb (2 ^ 31) (i + 1) ≡ false = ground arith in
    elim (Bool-cases (noescapes c == 1)) [
      | inl allowed ↦
          let room : leb (length out) (grown orig size (length out)) ≡ true =
            ground (arith, grown-room orig size (length out)) in
          rw (counted, allowed, room)
            (escape_loop-escaped noescapes orig (grown orig size (length out)) (i + 1)
                (out ++ c ∷ []) buff
                (omega (arith, length-append out (c ∷ []), grown-room orig size (length out) h))
                (omega arith)
              ∙ ap some (append_assoc out (c ∷ []) (escaped noescapes buff)))
      | inr printed ↦
          let room : leb (length out + 3) (grown orig size (length out)) ≡ true =
            ground (arith, grown-room orig size (length out)) in
          rw (counted, printed, room)
            (escape_loop-escaped noescapes orig (grown orig size (length out)) (i + 1)
                (out ++ percent c) buff
                (omega (
                  arith,
                  length-append out (percent c),
                  length-percent c,
                  grown-room orig size (length out) h,
                ))
                (omega arith)
              ∙ ap some (append_assoc out (percent c) (escaped noescapes buff)))
    ]

-- For every string shorter than 2^31 bytes and every table of rules `bctbx_escape` stays within the
-- buffer that it grows, and returns each allowed byte as it is and `%` with two hexadecimal digits for each other one.
pub escape-escaped :
    (buff : Bytes) (noescapes : Rules)
    → length buff < 2 ^ 31
    → escape buff noescapes ≡ some (escaped noescapes buff)
unfolding escape
escape-escaped buff noescapes short =
    escape_loop-escaped noescapes (length buff) (length buff) 0 [] buff (omega arith)
      (omega (arith, short))
