-- ===== src/ParamString/Text.antt =====
-- `strstr` and `strchr` of C, which src/param_string.c searches with, find the first occurrence.
use bctoolbox.Common.{
  ℕ, zero, suc, ◌+◌, ◌≤◌, ◌<◌, ◌≡◌, refl, inl, inr, true, false, none, some, [], ◌∷◌, arith, length,
  drop, Bool-cases, Option,
}
use bctoolbox.ParamString.{Bytes, byte_at, starts_with, strstr}

pub byte_at-drop : (i j : ℕ) (s : Bytes) → byte_at (drop i s) j ≡ byte_at s (i + j)
byte_at-drop zero j s = let e : 0 + j ≡ j = omega arith in rw e
byte_at-drop (suc i) j [] = refl
byte_at-drop (suc i) j (c ∷ s) =
    let e : suc i + j ≡ suc (i + j) = omega arith in rw e (byte_at-drop i j s)

pub drop-drop : (i j : ℕ) (s : Bytes) → drop j (drop i s) ≡ drop (i + j) s
drop-drop zero j s = let e : 0 + j ≡ j = omega arith in rw e
drop-drop (suc i) zero [] = let e : suc i + 0 ≡ suc i = omega arith in rw e
drop-drop (suc i) (suc j) [] = let e : suc i + suc j ≡ suc (i + suc j) = omega arith in rw e
drop-drop (suc i) j (c ∷ s) =
    let e : suc i + j ≡ suc (i + j) = omega arith in rw e (drop-drop i j s)

pub starts_with-byte_at :
    (needle s : Bytes) (k : ℕ)
    → starts_with needle s ≡ true
    → k < length needle
    → byte_at s k ≡ byte_at needle k
starts_with-byte_at [] s k h lt = absurd (omega arith)
starts_with-byte_at (c ∷ needle) [] k h lt = cc
starts_with-byte_at (c ∷ needle) (b ∷ s) zero h lt = ground arith
starts_with-byte_at (c ∷ needle) (b ∷ s) (suc k) h lt =
    ground (arith, starts_with-byte_at needle s k)

pub length-starts_with : (needle s : Bytes) → starts_with needle s ≡ true → length needle ≤ length s
length-starts_with [] s h = omega arith
length-starts_with (c ∷ needle) [] h = cc
length-starts_with (c ∷ needle) (b ∷ s) h = ground (arith, length-starts_with needle s)

-- The first offset at which the text goes on with the needle.
abbrev pub IsFirst : (s needle : Bytes) → Option ℕ → Type 0
IsFirst s needle none = (k : ℕ) → k ≤ length s → starts_with needle (drop k s) ≡ false
IsFirst s needle (some j) =
    (starts_with needle (drop j s) ≡ true)
    × ((k : ℕ) → k < j → starts_with needle (drop k s) ≡ false)

IsFirst-cons :
    (b : ℕ) (s needle : Bytes) (r : Option ℕ)
    → starts_with needle (b ∷ s) ≡ false
    → IsFirst s needle r
    → IsFirst (b ∷ s) needle (elim r [ none ↦ none | some j ↦ some (suc j) ])
IsFirst-cons b s needle none miss h = none_before
  where
    none_before : (k : ℕ) → k ≤ suc (length s) → starts_with needle (drop k (b ∷ s)) ≡ false
    none_before zero le = miss
    none_before (suc k) le = h k (omega arith)
IsFirst-cons b s needle (some j) miss h = (h.0, earlier)
  where
    earlier : (k : ℕ) → k < suc j → starts_with needle (drop k (b ∷ s)) ≡ false
    earlier zero lt = miss
    earlier (suc k) lt = h.1 k (omega arith)

pub strstr-IsFirst : (s needle : Bytes) → IsFirst s needle (strstr s needle)
unfolding strstr
strstr-IsFirst [] needle = elim (Bool-cases (starts_with needle [])) [
  | inl hit ↦ rw hit (hit, λ k lt. absurd (omega arith))
  | inr miss ↦ rw miss (at_end miss)
]
  where
    at_end :
        starts_with needle [] ≡ false → (k : ℕ) → k ≤ 0 → starts_with needle (drop k []) ≡ false
    at_end miss zero le = miss
    at_end miss (suc k) le = miss
strstr-IsFirst (b ∷ s) needle = elim (Bool-cases (starts_with needle (b ∷ s))) [
  | inl hit ↦ rw hit (hit, λ k lt. absurd (omega arith))
  | inr miss ↦ rw miss (IsFirst-cons b s needle (strstr s needle) miss (strstr-IsFirst s needle))
]
