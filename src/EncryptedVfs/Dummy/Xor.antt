-- ===== src/EncryptedVfs/Dummy/Xor.antt =====
-- The cipher of src/vfs/vfs_encryption_module_dummy.cc undoes itself.
use bctoolbox.Common.{
  ℕ, zero, suc, ◌+◌, ◌-◌, ◌≤◌, ◌≡◌, refl, sym, ap, ◌∙◌, [], ◌∷◌, ◌++◌, arith, length, take, drop,
  length-append, length-take, length-drop, append-nil, ◌⊎◌, inl, inr, Bool-cases, leb,
}
use bctoolbox.Common.Slices.{drop-append, take-append, drop-all, take-all, take-append-drop}
use bctoolbox.Common.Xor.{bit_xor_twice}
use bctoolbox.Vfs.{Bytes}
use bctoolbox.EncryptedVfs.Dummy.{xor_block, xor_loop, xor_all}

xor_block_twice : (s key : Bytes) → xor_block (xor_block s key) key ≡ s
xor_block_twice [] key = refl
xor_block_twice (b ∷ s) [] = refl
xor_block_twice (b ∷ s) (k ∷ key) = rw (bit_xor_twice b k, xor_block_twice s key) refl

length-xor_block : (s key : Bytes) → length (xor_block s key) ≡ length s
length-xor_block [] key = refl
length-xor_block (b ∷ s) [] = refl
length-xor_block (b ∷ s) (k ∷ key) = omega (arith, length-xor_block s key)

xor_loop-nil : (k : ℕ) (key : Bytes) → xor_loop k key [] ≡ []
unfolding xor_loop
xor_loop-nil zero key = refl
xor_loop-nil (suc k) key = refl

xor_loop-step :
    (k : ℕ) (key s : Bytes)
    → xor_loop (suc k) key s ≡ xor_block (take 16 s) key ++ xor_loop k key (drop 16 s)
unfolding xor_loop
xor_loop-step k key [] = sym (xor_loop-nil k key)
xor_loop-step k key (b ∷ s) = refl

length-xor_loop : (k : ℕ) (key s : Bytes) → length s ≤ k → length (xor_loop k key s) ≡ length s
unfolding xor_loop
length-xor_loop zero key [] h = refl
length-xor_loop zero key (b ∷ s) h = absurd (omega arith)
length-xor_loop (suc k) key s h = rw (xor_loop-step k key s) (
    omega (
      arith,
      length-append (xor_block (take 16 s) key) (xor_loop k key (drop 16 s)),
      length-xor_block (take 16 s) key,
      length-take 16 s,
      length-drop 16 s,
      length-xor_loop k key (drop 16 s) (omega (arith, length-drop 16 s)),
    ))

-- A first block that has 16 bytes, or nothing behind it.
first_block :
    (p q : Bytes) (rest : ℕ)
    → length p + rest ≡ 16
    → (rest ≡ 0) ⊎ (q ≡ [])
    → (take 16 (p ++ q) ≡ p) × (drop 16 (p ++ q) ≡ q)
first_block p q rest h (inl full) =
    let e : 16 ≡ length p + 0 = omega arith in
    (rw e (take-append p q 0) ∙ append-nil p, rw e (drop-append p q 0))
first_block p q rest h (inr empty) = (
  ap (λ s. take 16 (p ++ s)) empty ∙ ap (take 16) (append-nil p) ∙ take-all 16 p (omega arith),
  ap (λ s. drop 16 (p ++ s)) empty
      ∙ ap (drop 16) (append-nil p)
      ∙ drop-all 16 p (omega arith)
      ∙ sym empty,
)

full_or_last : (k : ℕ) (key s : Bytes) → (16 - length s ≡ 0) ⊎ (xor_loop k key (drop 16 s) ≡ [])
full_or_last k key s = elim (Bool-cases (leb 16 (length s))) [
  | inl long ↦ inl (ground arith)
  | inr short ↦ inr (rw (drop-all 16 s (ground arith)) (xor_loop-nil k key))
]

xor_loop_twice : (k : ℕ) (key s : Bytes) → length s ≤ k → xor_loop k key (xor_loop k key s) ≡ s
xor_loop_twice zero key [] h = ap (xor_loop 0 key) (xor_loop-nil 0 key) ∙ xor_loop-nil 0 key
xor_loop_twice zero key (b ∷ s) h = absurd (omega arith)
xor_loop_twice (suc k) key s h =
    let p = xor_block (take 16 s) key in
    let q = xor_loop k key (drop 16 s) in
    let lengths = length-xor_block (take 16 s) key in
    let (block, others) =
      first_block p q (16 - length s) (omega (arith, lengths, length-take 16 s))
        (full_or_last k key s) in
    ap (xor_loop (suc k) key) (xor_loop-step k key s)
    ∙ xor_loop-step k key (p ++ q)
    ∙ rw (block, others)
        (rw
          (
            xor_block_twice (take 16 s) key,
            xor_loop_twice k key (drop 16 s) (omega (arith, length-drop 16 s)),
          )
          (take-append-drop 16 s))

pub xor_all_twice : (key s : Bytes) → xor_all key (xor_all key s) ≡ s
xor_all_twice key s =
    ap (λ n. xor_loop n key (xor_all key s)) (length-xor_loop (length s) key s (omega arith))
    ∙ xor_loop_twice (length s) key s (omega arith)

pub length-xor_all : (key s : Bytes) → length (xor_all key s) ≡ length s
length-xor_all key s = length-xor_loop (length s) key s (omega arith)
