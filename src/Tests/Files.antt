-- ===== src/Tests/Files.antt =====
-- The theorems about src/vfs/vfs.c over a VFS that keeps its file in memory.
use bctoolbox.Common.{
  ℕ, ◌+◌, ◌-◌, ◌≡◌, refl, inl, none, some, [], ◌∷◌, ◌++◌, arith, length, take, drop,
}
use bctoolbox.Common.Int.{ℤ, pos, negsuc}
use bctoolbox.Vfs.Fprintf.{fprintf}
use bctoolbox.Vfs.{Bytes, File, Methods, error, flush, read}
use bctoolbox.Vfs.Lines.{
  get_nxtline, generic_get_nxtline, in_page, cached_line, read_line, keep_page, take_line,
  find_next_line,
}
use bctoolbox.Vfs.Open.{zeros, fresh_file}
use bctoolbox.Vfs.Flush.{Flushed, flush-Flushed}
use bctoolbox.Vfs.Invariant.{WellFormed}
use bctoolbox.Vfs.Reachable.{opened, step, by_print, Reachable-WellFormed}
use bctoolbox.Vfs.Contents.{stored, Stores}
use bctoolbox.Vfs.Refine.{text_of, IsAt}
use bctoolbox.Vfs.Refine.Print.{Printed, print-Printed}
use bctoolbox.Vfs.Standard.{System, bcio, bcio-Stores}
use bctoolbox.Vfs.Session.{joined, print_all, print_all-flush, read-text}

abbrev pub write_memory : Bytes → Bytes → ℤ → ℤ × Bytes
write_memory d buf (pos o) = (pos (length buf), stored o buf d)
write_memory d buf (negsuc n) = (error, d)

abbrev pub read_memory : Bytes → ℕ → ℤ → (ℤ × Bytes) × Bytes
read_memory d n (pos o) = ((pos (length (take n (drop o d))), take n (drop o d)), d)
read_memory d n (negsuc i) = ((error, []), d)

abbrev pub truncate_memory : Bytes → ℤ → ℤ × Bytes
truncate_memory d (pos n) = (pos 0, take n d ++ zeros (n - length d))
truncate_memory d (negsuc n) = (error, d)

abbrev pub in_memory : Methods Bytes
in_memory = record {
  close_file = λ d. (pos 0, d);
  read_at = read_memory;
  write_at = write_memory;
  truncate_file = truncate_memory;
  file_size = λ d. (pos (length d), d);
  sync_file = λ d. (pos 0, d);
  get_line = none;
  encrypted = none;
}

-- "ab", and a file that holds "xyz".
abbrev ab : Bytes
ab = b'a' ∷ b'b' ∷ []

abbrev xyz : File Bytes
xyz = fresh_file (b'x' ∷ b'y' ∷ b'z' ∷ [])

pub in_memory-Stores : Stores in_memory (λ d. d)
in_memory-Stores = record {
  takes_all = λ d buf o. refl;
  holds = λ d buf o. refl;
  gives = λ d n o. refl;
  keeps = λ d n o. refl;
}

xyz-IsAt : IsAt in_memory (λ d. d) in_memory-Stores xyz 0
xyz-IsAt = record { page = refl; room = omega arith; offset = refl; start = 0; aligned = inl refl }

-- The page holds "ab", which the VFS does not.
abbrev printed : File Bytes
printed = (fprintf in_memory (pos 0) (some ab) xyz).1

flush-Flushed_example : Flushed in_memory printed (flush in_memory printed)
flush-Flushed_example = flush-Flushed in_memory printed

Reachable-WellFormed_example : WellFormed printed
Reachable-WellFormed_example =
    Reachable-WellFormed in_memory refl
      (step (opened (b'x' ∷ b'y' ∷ b'z' ∷ [])) (by_print (some ab)))

print-Printed_example :
    Printed in_memory (λ d. d) in_memory-Stores xyz 0 ab (fprintf in_memory (pos 0) (some ab) xyz)
print-Printed_example = print-Printed in_memory (λ d. d) in_memory-Stores xyz 0 ab xyz-IsAt

print_all-flush_example :
    (flush in_memory (print_all in_memory (ab ∷ ab ∷ []) xyz).1).1.disk
    ≡ stored 0 (joined (ab ∷ ab ∷ [])) (b'x' ∷ b'y' ∷ b'z' ∷ [])
print_all-flush_example =
    print_all-flush in_memory (λ d. d) in_memory-Stores (ab ∷ ab ∷ []) (b'x' ∷ b'y' ∷ b'z' ∷ [])

read-text_example :
    ((read in_memory 2 (pos 1) printed).0 ≡ (
      pos (length (take 2 (drop 1 (text_of in_memory (λ d. d) in_memory-Stores printed)))),
      take 2 (drop 1 (text_of in_memory (λ d. d) in_memory-Stores printed)),
    ))
    × IsAt in_memory (λ d. d) in_memory-Stores (read in_memory 2 (pos 1) printed).1 2
    × (text_of in_memory (λ d. d) in_memory-Stores (read in_memory 2 (pos 1) printed).1
        ≡ text_of in_memory (λ d. d) in_memory-Stores printed)
read-text_example =
    read-text in_memory (λ d. d) in_memory-Stores printed 2 2 1
      (print-Printed in_memory (λ d. d) in_memory-Stores xyz 0 ab xyz-IsAt).next

-- A system with one file, and the position of its descriptor.
abbrev seek_memory : Bytes × ℕ → ℤ → ℤ × (Bytes × ℕ)
seek_memory (d, at) (pos o) = (pos o, (d, o))
seek_memory (d, at) (negsuc n) = (negsuc 0, (d, at))

abbrev one_file : System (Bytes × ℕ)
one_file = record {
  open_fd = λ name flags. (pos 3, ([], 0));
  close_fd = λ d. (pos 0, d);
  fsync = λ d. (pos 0, d);
  lseek = seek_memory;
  read_fd = λ (d, at) n. (
    (pos (length (take n (drop at d))), take n (drop at d)),
    (d, at + length (take n (drop at d))),
  );
  write_fd = λ (d, at) buf. (pos (length buf), (stored at buf d, at + length buf));
  fstat = λ (d, at). ((pos 0, pos (length d)), (d, at));
  ftruncate = λ (d, at) n. (pos 0, (d, at));
  errno = λ d. 0;
}

bcio-Stores_example : Stores (bcio one_file) (λ (d, at). d)
bcio-Stores_example =
    bcio-Stores one_file (λ (d, at). d) (λ (d, at). at)
      (record {
        seeks = λ d o. refl;
        seeks_to = λ d o. refl;
        seek_keeps = λ d o. refl;
        writes = λ d buf. refl;
        write_holds = λ d buf. refl;
        reads = λ d n. refl;
        read_keeps = λ d n. refl;
      })

-- A line of "xyz" is looked for in a buffer that an earlier call left with "abcd" and an end of line:
-- the bytes behind those read are taken for a part of the line.
abbrev left_over : Bytes
left_over = b'a' ∷ b'b' ∷ b'c' ∷ b'd' ∷ 10 ∷ 0 ∷ 0 ∷ 0 ∷ []

stale_line :
    (get_nxtline in_memory left_over (pos 8) xyz).0
    ≡ (pos 5, b'x' ∷ b'y' ∷ b'z' ∷ b'd' ∷ 0 ∷ 0 ∷ 0 ∷ 0 ∷ [])
unfolding get_nxtline generic_get_nxtline in_page cached_line read_line read flush keep_page
    take_line find_next_line
stale_line = refl
