-- ===== src/Tests/Ports.antt =====
-- Hexadecimal texts, times and texts of src/utils/port.c.
use bctoolbox.Common.{List, ◌++◌, ◌%◌, ◌^◌, refl, ◌-◌, ◌≡◌, ◌+◌, ◌*◌, some, [], ◌∷◌, arith}
use bctoolbox.Common.Int.{negsuc}
use bctoolbox.Port.Hex.{
  str_to_uint8, int8_to_str, uint32_to_str, str_to_uint32, uint64_to_str, str_to_uint64,
}
use bctoolbox.Port.Hex.RoundTrip.{str_to_uint8-int8_to_str, str_to_uint-uint_to_str}
use bctoolbox.Port.Time.{timespec_add_millisecs}
use bctoolbox.Port.Time.Steps.{time}
use bctoolbox.Port.Time.Total.{total, Reaches, timespec_add_millisecs-total}
use bctoolbox.Port.Hex.{Bytes}
use bctoolbox.Port.Duration.{time_string_to_sec}
use bctoolbox.Port.Duration.Units.{Term, time_string_to_sec-seconds}
use bctoolbox.Port.Text.{concat}
use bctoolbox.Port.Text.Concat.{concat-joined}

str_to_uint8-int8_to_str_example : str_to_uint8 (int8_to_str (0xff ∷ 0x0a ∷ [])) ≡ 0xff ∷ 0x0a ∷ []
str_to_uint8-int8_to_str_example =
    str_to_uint8-int8_to_str (0xff ∷ 0x0a ∷ []) (omega arith, (omega arith, tt))

str_to_uint-uint_to_str_example :
    (str_to_uint32 (uint32_to_str 0xdeadbeef) ≡ some 0xdeadbeef)
    × (str_to_uint64 (uint64_to_str 0x123456789abcdef0) ≡ some 0x123456789abcdef0)
str_to_uint-uint_to_str_example =
    str_to_uint-uint_to_str 0xdeadbeef 0x123456789abcdef0 (omega arith) (omega arith)

-- Back by a second and a half, over the start of a second.
timespec_add_millisecs-total_example :
    Reaches
      (timespec_add_millisecs (time 5 200000000) (negsuc 1499))
      (total 5 200000000 + 0 * 1000000 - 1500 * 1000000)
timespec_add_millisecs-total_example =
    timespec_add_millisecs-total 5 200000000 (negsuc 1499) (omega arith) (omega arith) (omega arith)

-- "2h30m"
abbrev two_hours_and_a_half : List Term
two_hours_and_a_half =
    record { digit = 2; digits = []; suffix = b'h'; unit = 3600 }
    ∷ record { digit = 3; digits = 0 ∷ []; suffix = b'm'; unit = 60 }
    ∷ []

time_string_to_sec-seconds_example :
    time_string_to_sec (b'2' ∷ b'h' ∷ b'3' ∷ b'0' ∷ b'm' ∷ []) ≡ some (9000 % 2 ^ 32)
time_string_to_sec-seconds_example = time_string_to_sec-seconds two_hours_and_a_half (
  record { are_digits = (omega arith, tt); means = refl; fits = omega arith },
  (record { are_digits = (omega arith, (omega arith, tt)); means = refl; fits = omega arith }, tt),
)

-- "/tmp/f"
abbrev file_in_tmp : Bytes
file_in_tmp = b'/' ∷ b't' ∷ b'm' ∷ b'p' ∷ b'/' ∷ b'f' ∷ []

concat-joined_example :
    concat (file_in_tmp ∷ (b'.' ∷ []) ∷ []) ≡ some (file_in_tmp ++ (b'.' ∷ []) ++ [])
concat-joined_example = concat-joined (file_in_tmp ∷ (b'.' ∷ []) ∷ []) (omega arith)
