-- ===== src/ParamString/Value.antt =====
-- `bctbx_param_string_get_value` of src/param_string.c.
use bctoolbox.Common.{
  ℕ, ◌+◌, ◌-◌, Bool, true, false, Option, none, some, [], ◌∷◌, ◌==◌, if◌then◌else◌, length, take,
  drop,
}
use bctoolbox.ParamString.{Bytes, strchr}

-- The text up to the next `;`, or the end.
abbrev pub field : Bytes → Bytes
field [] = []
field (c ∷ s) = if c == b';' then [] else c ∷ field s

abbrev pub field_size : Bytes → ℕ
field_size value = elim (strchr value b';') [ none ↦ length value | some n ↦ n ]

-- The answer for the last place of the parameter.
abbrev pub answer : (s param : Bytes) (result_len : ℕ) → Option ℕ → Bool × Bytes
answer s param result_len none = (false, [])
answer s param result_len (some p) =
    (true, take (result_len - 1) (field (drop (p + length param + 1) s)))
