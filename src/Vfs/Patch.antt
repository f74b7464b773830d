-- ===== src/Vfs/Patch.antt =====
-- Parts of a file that was written to at one place, as src/vfs/vfs.c describes writes.
use bctoolbox.Common.{
  ℕ, zero, suc, ◌+◌, ◌≤◌, ◌<◌, ◌≡◌, refl, ap, ◌∙◌, max, [], ◌∷◌, ◌++◌, arith, length, take, drop,
}
use bctoolbox.Common.Slices.{drop-nil}
use bctoolbox.Vfs.{Bytes}
use bctoolbox.Vfs.Open.{zeros}
use bctoolbox.Vfs.Contents.{patch, stored}

pub length-zeros : (n : ℕ) → length (zeros n) ≡ n
length-zeros zero = refl
length-zeros (suc n) = omega (arith, length-zeros n)

pub patch-front : (b d : Bytes) → patch 0 b d ≡ b ++ drop (length b) d
patch-front [] d = refl
patch-front (x ∷ b) [] = ap (λ s. x ∷ s) (patch-front b [] ∙ ap (λ s. b ++ s) (drop-nil (length b)))
patch-front (x ∷ b) (y ∷ d) = ap (λ s. x ∷ s) (patch-front b d)

-- Within the file, or at its end.
pub patch-inside :
    (o : ℕ) (b d : Bytes) → o ≤ length d → patch o b d ≡ take o d ++ (b ++ drop (o + length b) d)
patch-inside zero b d h = let e : 0 + length b ≡ length b = omega arith in rw e (patch-front b d)
patch-inside (suc o) b [] h = absurd (omega arith)
patch-inside (suc o) b (x ∷ d) h =
    let e : suc o + length b ≡ suc (o + length b) = omega arith in
    rw e (ap (λ s. x ∷ s) (patch-inside o b d (omega arith)))

-- What is behind some place, where the write is not in front of it.
pub drop-patch : (o k : ℕ) (b d : Bytes) → drop o (patch (o + k) b d) ≡ patch k b (drop o d)
drop-patch zero k b d = let e : 0 + k ≡ k = omega arith in rw e
drop-patch (suc o) k b [] =
    let e : suc o + k ≡ suc (o + k) = omega arith in
    rw e (drop-patch o k b [] ∙ ap (patch k b) (drop-nil o))
drop-patch (suc o) k b (x ∷ d) =
    let e : suc o + k ≡ suc (o + k) = omega arith in rw e (drop-patch o k b d)

-- A write at the start leaves what is behind it.
pub drop-patch_front : (b d : Bytes) → drop (length b) (patch 0 b d) ≡ drop (length b) d
drop-patch_front [] d = refl
drop-patch_front (x ∷ b) [] = drop-patch_front b [] ∙ drop-nil (length b)
drop-patch_front (x ∷ b) (y ∷ d) = drop-patch_front b d

pub length-patch : (o : ℕ) (b d : Bytes) → length (patch o b d) ≡ max (length d) (o + length b)
length-patch zero [] d = omega arith
length-patch zero (x ∷ b) [] = omega (arith, length-patch 0 b [])
length-patch zero (x ∷ b) (y ∷ d) = omega (arith, length-patch 0 b d)
length-patch (suc o) b [] = omega (arith, length-patch o b [])
length-patch (suc o) b (y ∷ d) = omega (arith, length-patch o b d)

-- Behind the end, zeros go between.
pub patch-zeros :
    (n : ℕ) (b d : Bytes) → patch (length d) (zeros n ++ b) d ≡ patch (length d + n) b d
patch-zeros n b (x ∷ d) =
    let e : suc (length d) + n ≡ suc (length d + n) = omega arith in
    rw e (ap (λ s. x ∷ s) (patch-zeros n b d))
patch-zeros zero b [] = refl
patch-zeros (suc n) b [] =
    let e : 0 + suc n ≡ suc (0 + n) = omega arith in rw e (ap (λ s. 0 ∷ s) (patch-zeros n b []))

-- A write of some bytes.
pub stored-patch : (o : ℕ) (b d : Bytes) → 0 < length b → stored o b d ≡ patch o b d
stored-patch o [] d h = absurd (omega arith)
stored-patch o (x ∷ b) d h = refl
