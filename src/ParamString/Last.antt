-- ===== src/ParamString/Last.antt =====
-- The last place where a parameter stands, src/param_string.c.
use bctoolbox.Common.{ℕ, ◌≤◌, ◌<◌, ◌≡◌, ◌⊎◌, true, false, Option, none, some, length}
use bctoolbox.ParamString.{Bytes, byte_at}
use bctoolbox.ParamString.Search.{all_plain, stands_at}

module _ (s param : Bytes) (names : all_plain param ≡ true) (one : 0 < length param) where
  -- Where the search goes on: at the start, or at the `=` behind a parameter.
  abbrev Resumes : ℕ → Type 0
  Resumes i = (i ≡ 0) ⊎ (byte_at s i ≡ b'=')

  -- The last place from `i` on, or else `before`.
  abbrev pub LastFrom : (i : ℕ) (before r : Option ℕ) → Type 0
  LastFrom i before r =
      ((r ≡ before) × ((p : ℕ) → i ≤ p → stands_at s param p ≡ false))
      ⊎ ((p : ℕ) × (r ≡ some p)
          × (i ≤ p)
          × (stands_at s param p ≡ true)
          × ((q : ℕ) → p < q → stands_at s param q ≡ false))

  -- The last place where the parameter stands, or none.
  abbrev pub IsLast : Option ℕ → Type 0
  IsLast none = (p : ℕ) → stands_at s param p ≡ false
  IsLast (some p) = (stands_at s param p ≡ true) × ((q : ℕ) → p < q → stands_at s param q ≡ false)
