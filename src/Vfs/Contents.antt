-- ===== src/Vfs/Contents.antt =====
-- What a file holds, as a list of bytes: the description of reads and writes that src/vfs/vfs.c and
-- the VFS below it are measured by.
use bctoolbox.Common.{
  ℕ, zero, suc, ◌+◌, ◌≤◌, ◌≡◌, refl, ap, [], ◌∷◌, ◌++◌, arith, length, take, drop, append-nil,
}
use bctoolbox.Common.Int.{pos}
use bctoolbox.Vfs.{Bytes, Methods}

-- The bytes at an offset replaced, or put behind the end with zeros between.
abbrev pub patch : ℕ → Bytes → Bytes → Bytes
patch zero [] d = d
patch zero (b ∷ bs) [] = b ∷ patch zero bs []
patch zero (b ∷ bs) (c ∷ d) = b ∷ patch zero bs d
patch (suc o) bs [] = 0 ∷ patch o bs []
patch (suc o) bs (c ∷ d) = c ∷ patch o bs d

-- A write of no byte does not make the file longer.
abbrev pub stored : ℕ → Bytes → Bytes → Bytes
stored o [] d = d
stored o (b ∷ bs) d = patch o (b ∷ bs) d

patch-patch : (o : ℕ) (a b d : Bytes) → patch (o + length a) b (patch o a d) ≡ patch o (a ++ b) d
patch-patch zero [] b d = refl
patch-patch zero (x ∷ a) b [] =
    let e : 0 + suc (length a) ≡ suc (0 + length a) = omega arith in
    rw e (ap (λ s. x ∷ s) (patch-patch zero a b []))
patch-patch zero (x ∷ a) b (c ∷ d) =
    let e : 0 + suc (length a) ≡ suc (0 + length a) = omega arith in
    rw e (ap (λ s. x ∷ s) (patch-patch zero a b d))
patch-patch (suc o) a b [] =
    let e : suc o + length a ≡ suc (o + length a) = omega arith in
    rw e (ap (λ s. 0 ∷ s) (patch-patch o a b []))
patch-patch (suc o) a b (c ∷ d) =
    let e : suc o + length a ≡ suc (o + length a) = omega arith in
    rw e (ap (λ s. c ∷ s) (patch-patch o a b d))

-- Two writes, the second where the first ends, are one.
pub stored-stored :
    (o : ℕ) (a b d : Bytes) → stored (o + length a) b (stored o a d) ≡ stored o (a ++ b) d
stored-stored o [] b d = let e : o + 0 ≡ o = omega arith in rw e
stored-stored o (x ∷ a) [] d = rw (append-nil a)
stored-stored o (x ∷ a) (y ∷ b) d = patch-patch o (x ∷ a) (y ∷ b) d

-- The methods of a VFS that never fails, and whose state holds the bytes `contents`: a write takes
-- all of its buffer, a read gives what there is, up to the count.
pub record Stores {S : Type 0} (m : Methods S) (contents : S → Bytes) : Type 0 where
  pub takes_all : (d : S) (buf : Bytes) (o : ℕ) → (m.write_at d buf (pos o)).0 ≡ pos (length buf)
  pub holds :
      (d : S) (buf : Bytes) (o : ℕ)
      → contents (m.write_at d buf (pos o)).1 ≡ stored o buf (contents d)
  pub gives :
      (d : S) (n o : ℕ)
      → (m.read_at d n (pos o)).0
        ≡ (pos (length (take n (drop o (contents d)))), take n (drop o (contents d)))
  pub keeps : (d : S) (n o : ℕ) → contents (m.read_at d n (pos o)).1 ≡ contents d

-- The method that gives the size of the file.
pub record Measures {S : Type 0} (m : Methods S) (contents : S → Bytes) : Type 0 where
  pub gives_size : (d : S) → (m.file_size d).0 ≡ pos (length (contents d))
  pub keeps_size : (d : S) → contents (m.file_size d).1 ≡ contents d

-- The method that makes a file shorter.
pub record Shortens {S : Type 0} (m : Methods S) (contents : S → Bytes) : Type 0 where
  pub cuts_to :
      (d : S) (n : ℕ)
      → n ≤ length (contents d)
      → contents (m.truncate_file d (pos n)).1 ≡ take n (contents d)
