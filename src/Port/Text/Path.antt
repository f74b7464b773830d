-- ===== src/Port/Text/Path.antt =====
-- The two parts of a path, src/utils/port.c.
use bctoolbox.Common.{ℕ, suc, ◌<◌, ◌≡◌, ◌≢◌, some, [], ◌∷◌, ◌++◌, length, take, drop}
use bctoolbox.Port.Hex.{Bytes}
use bctoolbox.Port.Text.{dirname, basename}

abbrev pub Avoids : ℕ → Bytes → Type 0
Avoids c [] = Unit
Avoids c (b ∷ s) = (b ≢ c) × Avoids c s

-- The last byte `c` of a text is at `i`.
pub record IsLastAt (c : ℕ) (s : Bytes) (i : ℕ) : Type 0 where
  pub inside : i < length s
  pub parts : s ≡ take i s ++ c ∷ drop (suc i) s
  pub rest : Avoids c (drop (suc i) s)

abbrev pub Splits : ℕ → Bytes → Type 0
Splits separator path =
    (directory : Bytes) × (dirname path ≡ some directory)
    × (path ≡ directory ++ separator ∷ basename path)
    × Avoids separator (basename path)
