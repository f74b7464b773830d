-- ===== src/Tests/Chunks.antt =====
-- The theorem about src/crypto/crypto.c at a cipher that leaves the text as it is.
use bctoolbox.Common.{ℕ, ◌+◌, some, [], ◌∷◌, ◌++◌, length}
use bctoolbox.Common.Int.{pos}
use bctoolbox.Crypto.{Bytes, Gcm}

-- The context counts the bytes, and the tag is the count.
abbrev toy : Gcm ℕ
toy = record {
  context_new = λ key iv mode. some 0;
  process_chunk = λ c p. ((pos 0, p), c + length p);
  finish = λ c n. (pos 0, c ∷ []);
}

abbrev eight : ℕ → Bytes
eight b = b ∷ b ∷ b ∷ b ∷ b ∷ b ∷ b ∷ b ∷ []

-- 24 bytes of key and 8 of vector.
abbrev key : Bytes
key = eight 1 ++ eight 2 ++ eight 3 ++ eight 4

-- A piece of 16 bytes, and one of 2.
abbrev block : Bytes
block = eight 5 ++ eight 6

abbrev rest : Bytes
rest = 8 ∷ 9 ∷ []
