-- ===== src/Parser/RoundTrip.antt =====
-- Unescaping an escaped string, src/parser.c.
use bctoolbox.Common.{
  ℕ, zero, suc, ◌+◌, ◌/◌, ◌%◌, ◌*◌, ◌<◌, ◌^◌, ◌≡◌, refl, ap, inl, inr, true, false, some, [], ◌∷◌,
  ◌++◌, arith, ◌==◌, length, Bool-cases, ==→eq,
}
use bctoolbox.Parser.{
  Bytes, Rules, hex_digit, percent, hex_value, scan_pair, scan_hex, is_space, get_char,
  unescape_loop, unescaped_string, escape,
}
use bctoolbox.Parser.Escape.{escaped, escape-escaped}

-- The bytes of a C string: not zero.
abbrev pub IsText : Bytes → Type 0
IsText [] = Unit
IsText (c ∷ s) = (0 < c) × (c < 256) × IsText s

hex_value-hex_digit : (d : ℕ) → d < 16 → hex_value (hex_digit d) ≡ some d
unfolding hex_value hex_digit
hex_value-hex_digit d h = ground arith

is_space-hex_digit : (d : ℕ) → d < 16 → is_space (hex_digit d) ≡ false
unfolding is_space hex_digit
is_space-hex_digit d h = ground arith

-- `sscanf` reads back what `snprintf` printed.
pub scan_hex-digits :
    (c : ℕ) (rest : Bytes)
    → c < 256
    → scan_hex (hex_digit (c / 16) ∷ hex_digit (c % 16) ∷ rest) ≡ some c
unfolding scan_hex scan_pair
scan_hex-digits c rest h =
    let whole : 16 * (c / 16) + c % 16 ≡ c = omega arith in
    rw
      (
        is_space-hex_digit (c / 16) (omega arith),
        hex_value-hex_digit (c / 16) (omega arith),
        hex_value-hex_digit (c % 16) (omega arith),
      )
      (ap some whole)

pub get_char-percent :
    (tmp c : ℕ) (rest : Bytes) → c < 256 → get_char tmp (percent c ++ rest) ≡ (c, 3)
unfolding get_char percent
get_char-percent tmp c rest h =
    let small : c % 256 ≡ c = omega arith in rw (scan_hex-digits c rest h, small)

pub get_char-plain : (tmp c : ℕ) (a : Bytes) → (c == b'%') ≡ false → get_char tmp (c ∷ a) ≡ (c, 1)
unfolding get_char
get_char-plain tmp c [] other = refl
get_char-plain tmp c (x ∷ []) other = refl
get_char-plain tmp c (x ∷ y ∷ a) other = rw other

unescape_loop-escaped :
    (fuel tmp : ℕ) (noescapes : Rules) (s : Bytes)
    → IsText s
    → (noescapes b'%' == 1) ≡ false
    → length (escaped noescapes s) < fuel
    → unescape_loop fuel tmp (escaped noescapes s) ≡ some s
unfolding unescape_loop escaped percent
unescape_loop-escaped zero tmp noescapes s text safe enough = absurd (omega arith)
unescape_loop-escaped (suc fuel) tmp noescapes [] text safe enough = refl
unescape_loop-escaped (suc fuel) tmp noescapes (c ∷ s) text safe enough =
    elim (Bool-cases (noescapes c == 1)) [
      | inl allowed ↦
          rw
            (
              allowed,
              unescape_loop,
              get_char-plain tmp c (escaped noescapes s) (not_percent allowed),
            )
            (rw
              (unescape_loop-escaped fuel tmp noescapes s text.2 safe
                (let e = rw allowed at enough in omega arith))
              (ap (λ (r : ℕ × ℕ). some (r.0 ∷ s))
                (get_char-plain tmp c (escaped noescapes s) (not_percent allowed))))
      | inr printed ↦
          rw (printed, unescape_loop, get_char-percent tmp c (escaped noescapes s) text.1)
            (rw
              (unescape_loop-escaped fuel tmp noescapes s text.2 safe
                (let e = rw printed at enough in omega arith))
              (ap (λ (r : ℕ × ℕ). some (r.0 ∷ s))
                (get_char-percent tmp c (escaped noescapes s) text.1)))
    ]
  where
    not_percent : (noescapes c == 1) ≡ true → (c == b'%') ≡ false
    not_percent allowed = elim (Bool-cases (c == b'%')) [
      | inl same ↦ ground (arith, ap noescapes (==→eq c b'%' same))
      | inr other ↦ other
    ]

-- Escaping a C string shorter than 2^31 bytes by any rules that do not allow `%`, and unescaping the result, gives the
-- string back: both calls succeed, whatever the value of the variable that the scan fills.
pub unescaped_string-escape :
    (tmp : ℕ) (s : Bytes) (noescapes : Rules)
    → IsText s
    → length s < 2 ^ 31
    → (noescapes b'%' == 1) ≡ false
    → (e : Bytes) × (escape s noescapes ≡ some e) × (unescaped_string tmp e ≡ some s)
unfolding unescaped_string
unescaped_string-escape tmp s noescapes text short safe = (
  escaped noescapes s,
  escape-escaped s noescapes short,
  unescape_loop-escaped _ tmp noescapes s text safe (omega arith),
)
