-- ===== src/Parser/Rules.antt =====
-- The tables of rules of src/parser.c.
use bctoolbox.Common.{
  ℕ, ◌+◌, ◌-◌, ◌≤◌, ◌<◌, ◌≡◌, refl, inl, inr, Bool, true, false, ◌&&◌, ◌||◌, some, none, [], ◌∷◌,
  arith, ltb, leb, ◌==◌, if◌then◌else◌, Bool-cases,
}
use bctoolbox.Parser.{Bytes, Rules, allow, add_list, add_range, add_alfanums}

-- A table that allows what `test` holds of, and is `old` elsewhere.
pub record Allows (old new : Rules) (test : ℕ → Bool) : Type 0 where
  pub at : (c : ℕ) → new c ≡ (if test c then 1 else old c)

abbrev pub within : (first last : ℕ) → ℕ → Bool
within first last c = leb first c && leb c last

-- `bctbx_noescape_rules_add_range` of two ASCII characters in order allows exactly the characters
-- from the first to the last, and leaves the other entries.
pub add_range-Allows :
    (old : Rules) (first last : ℕ)
    → first ≤ last
    → last < 128
    → (new : Rules) × (add_range old first last ≡ some new) × Allows old new (within first last)
unfolding add_range
add_range-Allows old first last order ascii = (
  λ c. if leb first c && ltb c (first + (last + 1 - first)) then 1 else old c,
  ground arith,
  record { at = λ c. ground arith },
)

abbrev pub is_alnum : ℕ → Bool
is_alnum c = within b'0' b'9' c || within b'A' b'Z' c || within b'a' b'z' c

-- `bctbx_noescape_rules_add_alfanums` stays within the table and allows exactly the ASCII digits
-- and letters, leaving the other entries.
pub add_alfanums-Allows :
    (old : Rules) → (new : Rules) × (add_alfanums old ≡ some new) × Allows old new is_alnum
unfolding add_alfanums
add_alfanums-Allows old =
    let (r, e, t) = add_range-Allows old b'0' b'9' (omega arith) (omega arith) in
    let (s, f, u) = add_range-Allows r b'A' b'Z' (omega arith) (omega arith) in
    let (v, g, w) = add_range-Allows s b'a' b'z' (omega arith) (omega arith) in
    (v, rw (e, f) g, record { at = λ c. ground (arith, t.at c, u.at c, w.at c) })

abbrev pub contains : Bytes → ℕ → Bool
contains [] i = false
contains (c ∷ s) i = c == i || contains s i

-- Whether every byte is ASCII.
abbrev pub is_ascii : Bytes → Bool
is_ascii [] = true
is_ascii (c ∷ s) = ltb c 128 && is_ascii s

-- `bctbx_noescape_rules_add_list` of an ASCII text allows exactly its characters.
pub add_list-Allows :
    (old : Rules) (allowed : Bytes)
    → is_ascii allowed ≡ true
    → (new : Rules) × (add_list old allowed ≡ some new) × Allows old new (contains allowed)
unfolding add_list
add_list-Allows old [] ascii = (old, refl, record { at = λ c. refl })
add_list-Allows old (c ∷ allowed) ascii =
    let (r, e, t) = add_list-Allows (allow old c) allowed (ground arith) in
    (r, ground (arith, e), record { at = λ i. ground (arith, t.at i) })

-- With a byte of 128 to 255 in the text `bctbx_noescape_rules_add_list` writes outside the table: a
-- signed char is negative, and its conversion to an unsigned int is far above 256.
pub add_list-overruns :
    (old : Rules) (allowed : Bytes)
    → is_ascii allowed ≡ false
    → ((c : ℕ) → contains allowed c ≡ true → c < 256)
    → add_list old allowed ≡ none
unfolding add_list
add_list-overruns old [] high bytes = ground arith
add_list-overruns old (c ∷ allowed) high bytes = elim (Bool-cases (ltb c 128)) [
  | inl low ↦ ground (
    arith,
    add_list-overruns (allow old c) allowed (ground arith) (λ i m. bytes i (ground arith)),
  )
  | inr beyond ↦ ground (arith, bytes c (ground arith))
]
