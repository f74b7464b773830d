-- ===== src/Logging/Bounded.antt =====
-- The log file of src/logging/logging.c stays within its bound.
use bctoolbox.Common.{
  ℕ, ◌+◌, ◌≤◌, ◌<◌, ◌≡◌, refl, ◌∙◌, ap, inl, inr, Bool, true, false, ◌&&◌, ◌||◌, some, arith, ltb,
  ◌==◌, Bool-cases,
}
use bctoolbox.Common.Int.{ℤ, pos, negsuc, ltb_ℤ, pos_part}
use bctoolbox.Logging.Files.{
  Disk, exists, rotate_files, rotate_files-Rotated, is_null, opened, dangling, FileHandler, size_of,
  create, try_open, open_file, close_file, written, counted, too_large, logv_file,
}

-- The file is open, the size that is kept is that of the file, and within the bound.
pub record IsOpen (w : FileHandler × Disk) : Type 0 where
  pub open_now : w.0.file ≡ opened
  pub same_size : w.0.size ≡ size_of (w.1 0)
  pub bounded : w.0.size ≤ w.0.max_size

try_open-fits :
    (fh : FileHandler) (fs : Disk)
    → size_of (fs 0) ≤ fh.max_size
    → try_open fh fs ≡ (true, record fh { file = opened; size = size_of (fs 0) }, create fs)
unfolding try_open
try_open-fits fh fs fits =
    let within : ltb fh.max_size (size_of (fs 0)) ≡ false = ground arith in rw within refl

try_open-over :
    (fh : FileHandler) (fs : Disk)
    → fh.max_size < size_of (fs 0)
    → try_open fh fs ≡ (false, record fh { file = dangling }, create fs)
unfolding try_open
try_open-over fh fs over =
    let past : ltb fh.max_size (size_of (fs 0)) ≡ true = ground arith in rw past refl

open_file-rotates :
    (fuel : ℕ) (fh fh1 : FileHandler) (fs fs1 g : Disk)
    → try_open fh fs ≡ (false, fh1, fs1)
    → rotate_files fuel fs1 ≡ some g
    → open_file fuel fh fs ≡ some ((try_open fh1 g).1, (try_open fh1 g).2)
unfolding open_file
open_file-rotates fuel fh fh1 fs fs1 g tried turned =
    rw (tried, turned)
      (ap (λ h. some ((try_open h g).1, (try_open h g).2))
        (ap (λ (r : Bool × FileHandler × Disk). r.1) tried))

open_file-IsOpen :
    (fuel k : ℕ) (fh : FileHandler) (fs : Disk)
    → exists fs (1 + k) ≡ false
    → k < fuel
    → (w : FileHandler × Disk) × (open_file fuel fh fs ≡ some w) × IsOpen w
unfolding open_file
open_file-IsOpen fuel k fh fs free enough = elim (Bool-cases (ltb fh.max_size (size_of (fs 0)))) [
  | inr within ↦
      let fits : size_of (fs 0) ≤ fh.max_size = ground arith in
      (
        (record fh { file = opened; size = size_of (fs 0) }, create fs),
        rw (try_open-fits fh fs fits) refl,
        record { open_now = refl; same_size = refl; bounded = fits },
      )
  | inl past ↦
      let over : fh.max_size < size_of (fs 0) = ground arith in
      let later : exists (create fs) (1 + k) ≡ false =
        let off : (1 + k == 0) ≡ false = ground arith in rw (off, exists) free in
      let r = rotate_files-Rotated fuel k (create fs) later enough in
      let g = r.moved in
      let empty : size_of (g 0) ≡ 0 = ap size_of (r.each 0) in
      (
        (record fh { file = opened; size = size_of (g 0) }, create g),
        open_file-rotates fuel fh (record fh { file = dangling }) fs (create fs) g
              (try_open-over fh fs over) r.ends
            ∙ rw (try_open-fits (record fh { file = dangling }) g (omega (arith, empty))) refl,
        record { open_now = refl; same_size = refl; bounded = omega (arith, empty) },
      )
]

kept :
    (ret : ℤ) (fh : FileHandler) (fs : Disk)
    → IsOpen (fh, fs)
    → 0 < fh.max_size
    → too_large ret fh ≡ false
    → IsOpen (counted ret fh, written (pos_part ret) fs)
kept (pos n) fh fs now bound within =
    elim (Bool-cases (ltb 0 fh.max_size && ltb_ℤ (pos 0) (pos n))) [
      | inl more ↦ rw more (record {
        open_now = now.open_now;
        same_size = ap (λ s. s + n) now.same_size;
        bounded = ground arith;
      })
      | inr none_more ↦
          let nothing : n ≡ 0 = ground arith in
          rw none_more (record {
            open_now = now.open_now;
            same_size = omega (arith, now.same_size, nothing);
            bounded = now.bounded;
          })
    ]
kept (negsuc n) fh fs now bound within =
    let no_more : (ltb 0 fh.max_size && ltb_ℤ (pos 0) (negsuc n)) ≡ false = ground arith in
    rw no_more (record {
      open_now = now.open_now;
      same_size = omega (arith, now.same_size);
      bounded = now.bounded;
    })

-- With a bound and a free number for the rotation, behind every message that `bctbx_logv_file`
-- writes to an open file within the bound the file is open again, the size that the handler keeps
-- is that of the file, and it is within the bound: a message that goes past it makes the files
-- rotate.
pub logv_file-IsOpen :
    (fuel k : ℕ) (ret : ℤ) (fh : FileHandler) (fs : Disk)
    → IsOpen (fh, fs)
    → 0 < fh.max_size
    → exists fs (1 + k) ≡ false
    → k < fuel
    → (w : FileHandler × Disk) × (logv_file fuel ret fh fs ≡ some w) × IsOpen w
unfolding logv_file
logv_file-IsOpen fuel k ret fh fs now bound free enough =
    elim (Bool-cases (fh.reopen_requested || too_large ret fh)) [
      | inr stay ↦ (
        (counted ret fh, written (pos_part ret) fs),
        rw (ap is_null now.open_now, stay) refl,
        kept ret fh fs now bound (ground arith),
      )
      | inl again ↦
          let later : exists (written (pos_part ret) fs) (1 + k) ≡ false =
            let off : (1 + k == 0) ≡ false = ground arith in rw (off, exists) free in
          let (w, done, fine) =
            open_file-IsOpen fuel k (close_file (counted ret fh)) (written (pos_part ret) fs) later
              enough in
          (
            (record w.0 { reopen_requested = false }, w.1),
            rw (ap is_null now.open_now, again, done) refl,
            record { open_now = fine.open_now; same_size = fine.same_size; bounded = fine.bounded },
          )
    ]
