-- ===== src/EncryptedVfs/Blocks.antt =====
-- Texts that are cut into blocks of one size, the last of which may be shorter: the chunks of a file
-- of src/vfs/vfs_encrypted.cc, encrypted or not.
use bctoolbox.Common.{
  ℕ, zero, suc, ◌+◌, ◌*◌, ◌≤◌, ◌≡◌, refl, sym, ap, ◌∙◌, List, [], ◌∷◌, ◌++◌, arith, length, take,
  drop, append-nil, append_assoc, length-append, ◌⊎◌, inl, inr,
}
use bctoolbox.Common.Slices.{drop-nil, take-nil, drop-append, take-append, drop-all, take-all}
use bctoolbox.Vfs.{Bytes}

module _ {X : Type 0} (f : X → Bytes) where
  abbrev pub flat : List X → Bytes
  flat [] = []
  flat (x ∷ xs) = f x ++ flat xs

  -- A block in front of others has `n` bytes.
  abbrev pub Fills : (k n : ℕ) → List X → Type 0
  Fills k n [] = k ≤ n
  Fills k n (x ∷ xs) = k ≡ n

  abbrev pub AreBlocks : ℕ → List X → Type 0
  AreBlocks n [] = Unit
  AreBlocks n (x ∷ xs) = Fills (length (f x)) n xs × AreBlocks n xs

  pub drop-flat :
      (n j : ℕ) (xs : List X) → AreBlocks n xs → drop (j * n) (flat xs) ≡ flat (drop j xs)
  drop-flat n zero xs b = let e : 0 * n ≡ 0 = omega arith in rw e
  drop-flat n (suc j) [] b = drop-nil (suc j * n)
  drop-flat n (suc j) (x ∷ []) b =
      let e : suc j * n ≡ n + j * n = grind arith in
      rw (append-nil (f x), e)
        (drop-all (n + j * n) (f x) (omega arith) ∙ ap flat (sym (drop-nil j)))
  drop-flat n (suc j) (x ∷ y ∷ xs) b =
      let e : suc j * n ≡ length (f x) + j * n = grind arith in
      rw e (drop-append (f x) (flat (y ∷ xs)) (j * n)) ∙ drop-flat n j (y ∷ xs) b.1

  pub take-flat :
      (n j : ℕ) (xs : List X) → AreBlocks n xs → take (j * n) (flat xs) ≡ flat (take j xs)
  take-flat n zero xs b = let e : 0 * n ≡ 0 = omega arith in rw e
  take-flat n (suc j) [] b = take-nil (suc j * n)
  take-flat n (suc j) (x ∷ []) b =
      let e : suc j * n ≡ n + j * n = grind arith in
      rw (append-nil (f x), e)
        (take-all (n + j * n) (f x) (omega arith)
          ∙ sym (append-nil (f x))
          ∙ ap (λ s. f x ++ flat s) (sym (take-nil j)))
  take-flat n (suc j) (x ∷ y ∷ xs) b =
      let e : suc j * n ≡ length (f x) + j * n = grind arith in
      rw e (take-append (f x) (flat (y ∷ xs)) (j * n))
      ∙ ap (λ s. f x ++ s) (take-flat n j (y ∷ xs) b.1)

  pub drop-AreBlocks : (n j : ℕ) (xs : List X) → AreBlocks n xs → AreBlocks n (drop j xs)
  drop-AreBlocks n zero xs b = b
  drop-AreBlocks n (suc j) [] b = tt
  drop-AreBlocks n (suc j) (x ∷ xs) b = drop-AreBlocks n j xs b.1

  take-Fills : (k n j : ℕ) (xs : List X) → Fills k n xs → Fills k n (take j xs)
  take-Fills k n zero [] h = h
  take-Fills k n zero (x ∷ xs) h = omega arith
  take-Fills k n (suc j) [] h = h
  take-Fills k n (suc j) (x ∷ xs) h = h

  pub take-AreBlocks : (n j : ℕ) (xs : List X) → AreBlocks n xs → AreBlocks n (take j xs)
  take-AreBlocks n zero xs b = tt
  take-AreBlocks n (suc j) [] b = tt
  take-AreBlocks n (suc j) (x ∷ xs) b = (take-Fills _ n j xs b.0, take-AreBlocks n j xs b.1)

  -- The first block.
  pub take-first :
      (n : ℕ) (x : X) (xs : List X) → AreBlocks n (x ∷ xs) → take n (flat (x ∷ xs)) ≡ f x
  take-first n x xs b =
      let e : n ≡ 1 * n = grind arith in rw e (take-flat n 1 (x ∷ xs) b) ∙ append-nil (f x)

  pub drop-first :
      (n : ℕ) (x : X) (xs : List X) → AreBlocks n (x ∷ xs) → drop n (flat (x ∷ xs)) ≡ flat xs
  drop-first n x xs b = let e : n ≡ 1 * n = grind arith in rw e (drop-flat n 1 (x ∷ xs) b)

  pub flat-append : (xs ys : List X) → flat (xs ++ ys) ≡ flat xs ++ flat ys
  flat-append [] ys = refl
  flat-append (x ∷ xs) ys =
      ap (λ s. f x ++ s) (flat-append xs ys) ∙ sym (append_assoc (f x) (flat xs) (flat ys))

  Fills-le : (k n : ℕ) (xs : List X) → Fills k n xs → k ≤ n
  Fills-le k n [] h = h
  Fills-le k n (x ∷ xs) h = omega arith

  pub length-flat_le : (n : ℕ) (xs : List X) → AreBlocks n xs → length (flat xs) ≤ length xs * n
  length-flat_le n [] b = omega arith
  length-flat_le n (x ∷ xs) b =
      let e : suc (length xs) * n ≡ n + length xs * n = grind arith in
      rw e (
        omega (
          arith,
          length-append (f x) (flat xs),
          Fills-le (length (f x)) n xs b.0,
          length-flat_le n xs b.1,
        ))

  append-Fills :
      (k n : ℕ) (xs ys : List X)
      → Fills k n xs
      → (xs ≡ []) ⊎ (k ≡ n)
      → (ys ≡ []) ⊎ (k ≡ n)
      → Fills k n (xs ++ ys)
  append-Fills k n [] [] h full more = h
  append-Fills k n [] (y ∷ ys) h full (inl empty) = cc
  append-Fills k n [] (y ∷ ys) h full (inr e) = e
  append-Fills k n (x ∷ xs) ys h full more = h

  -- Blocks in front of others are all full.
  pub append-AreBlocks :
      (n : ℕ) (xs ys : List X)
      → AreBlocks n xs
      → AreBlocks n ys
      → (ys ≡ []) ⊎ (length (flat xs) ≡ length xs * n)
      → AreBlocks n (xs ++ ys)
  append-AreBlocks n [] ys b c full = c
  append-AreBlocks n (x ∷ xs) ys b c (inl empty) = rw (empty, append-nil xs) b
  append-AreBlocks n (x ∷ xs) ys b c (inr full) =
      let e : suc (length xs) * n ≡ n + length xs * n = grind arith in
      let whole = rw e at full in
      let here : length (f x) ≡ n = omega (
        arith,
        whole,
        length-append (f x) (flat xs),
        Fills-le (length (f x)) n xs b.0,
        length-flat_le n xs b.1,
      ) in
      (
        append-Fills (length (f x)) n xs ys b.0 (inr here) (inr here),
        append-AreBlocks n xs ys b.1 c
            (inr (omega (arith, whole, here, length-append (f x) (flat xs)))),
      )
