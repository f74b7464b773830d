-- ===== src/Tests/Text.antt =====
-- The theorems about src/parser.c and src/param_string.c at concrete texts.
use bctoolbox.Common.{◌≡◌, ◌≤◌, refl, some, [], ◌∷◌, arith, ◌==◌, if◌then◌else◌, length}
use bctoolbox.Parser.{Bytes, Rules, escape, unescaped_string}
use bctoolbox.Parser.Escape.{escape-escaped, escaped}
use bctoolbox.Parser.RoundTrip.{unescaped_string-escape}
use bctoolbox.Parser.Unescape.{unescaped_string-fits}

-- "a%z" and the rules that allow "a" only.
abbrev text : Bytes
text = b'a' ∷ b'%' ∷ b'z' ∷ []

abbrev only_a : Rules
only_a c = if c == b'a' then 1 else 0

escape-escaped_example : escape text only_a ≡ some (escaped only_a text)
escape-escaped_example = escape-escaped text only_a (omega arith)

unescaped_string-escape_example :
    (e : Bytes) × (escape text only_a ≡ some e) × (unescaped_string 0 e ≡ some text)
unescaped_string-escape_example =
    unescaped_string-escape 0 text only_a
      (omega arith, omega arith, (omega arith, omega arith, (omega arith, omega arith, tt)))
      (omega arith) refl

unescaped_string-fits_example :
    (out : Bytes) × (unescaped_string 0 text ≡ some out) × (length out ≤ length text)
unescaped_string-fits_example = unescaped_string-fits 0 text
