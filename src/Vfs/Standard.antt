-- ===== src/Vfs/Standard.antt =====
-- src/vfs/vfs_standard.c: the VFS over the system's files. The system calls are a parameter, on a
-- state that has the file, the position of its descriptor and `errno`. The tests for NULL are left
-- out.
use bctoolbox.Common.{ℕ, ◌-◌, ◌≡◌, refl, ◌∙◌, none, [], length, take, drop, ◌==◌, if◌then◌else◌}
use bctoolbox.Common.Int.{ℤ, pos, negsuc, is_neg, ◌==ℤ◌}
use bctoolbox.Vfs.{Bytes, Methods, ok, error}
use bctoolbox.Vfs.Open.{Flags, OpenFunc}
use bctoolbox.Vfs.Contents.{stored, Stores}

pub record System (S : Type 0) : Type 0 where
  pub open_fd : (name : Bytes) → Flags → ℤ × S
  pub close_fd : S → ℤ × S
  pub fsync : S → ℤ × S
  pub lseek : S → (offset : ℤ) → ℤ × S
  pub read_fd : S → (count : ℕ) → (ℤ × Bytes) × S
  pub write_fd : S → Bytes → ℤ × S
  pub fstat : S → (ℤ × ℤ) × S
  pub ftruncate : S → ℤ → ℤ × S
  pub errno : S → ℕ

-- `-errno`
abbrev pub minus : ℕ → ℤ
minus e = if e == 0 then pos 0 else negsuc (e - 1)

-- `if (errno) return -errno;` and else what follows.
abbrev errno_or : ℤ → ℕ → ℤ
errno_or other e = if e == 0 then other else minus e

module _ {S : Type 0} (sys : System S) where
  unfoldable pub bc_close : S → ℤ × S
  bc_close d =
      let (ret, d1) = sys.close_fd d in (if ret ==ℤ pos 0 then ok else minus (sys.errno d1), d1)

  unfoldable pub bc_sync : S → ℤ × S
  bc_sync d = let (rc, d1) = sys.fsync d in (if rc ==ℤ pos 0 then ok else error, d1)

  unfoldable pub bc_read : S → ℕ → ℤ → (ℤ × Bytes) × S
  bc_read d count offset =
      let (at, d1) = sys.lseek d offset in
      let ((n, bytes), d2) = sys.read_fd d1 count in
      if is_neg at
      then ((errno_or error (sys.errno d1), []), d1)
      else ((if is_neg n then errno_or n (sys.errno d2) else n, bytes), d2)

  unfoldable pub bc_write : S → Bytes → ℤ → ℤ × S
  bc_write d buf offset =
      let (at, d1) = sys.lseek d offset in
      let (n, d2) = sys.write_fd d1 buf in
      if is_neg at then (errno_or error (sys.errno d1), d1) else (
        if is_neg n then if n ==ℤ negsuc 0 then errno_or (pos 0) (sys.errno d2) else error else n,
        d2,
      )

  unfoldable pub bc_file_size : S → ℤ × S
  bc_file_size d =
      let ((rc, size), d1) = sys.fstat d in
      (if rc ==ℤ pos 0 then size else minus (sys.errno d1), d1)

  unfoldable pub bc_truncate : S → ℤ → ℤ × S
  bc_truncate d n =
      let (ret, d1) = sys.ftruncate d n in (if is_neg ret then minus (sys.errno d1) else pos 0, d1)

  -- `bcio`
  unfoldable pub bcio : Methods S
  bcio = record {
    close_file = bc_close;
    read_at = bc_read;
    write_at = bc_write;
    truncate_file = bc_truncate;
    file_size = bc_file_size;
    sync_file = bc_sync;
    get_line = none;
    encrypted = none;
  }

  unfoldable pub bc_open : OpenFunc S
  bc_open name flags =
      let (fd, d) = sys.open_fd name flags in
      (if fd ==ℤ negsuc 0 then minus (sys.errno d) else ok, d)

  -- A system whose calls succeed and do in full what they are asked, as for a file on a disk with
  -- room: `position` is that of the descriptor.
  pub record IsFile (contents : S → Bytes) (position : S → ℕ) : Type 0 where
    pub seeks : (d : S) (o : ℕ) → (sys.lseek d (pos o)).0 ≡ pos o
    pub seeks_to : (d : S) (o : ℕ) → position (sys.lseek d (pos o)).1 ≡ o
    pub seek_keeps : (d : S) (o : ℕ) → contents (sys.lseek d (pos o)).1 ≡ contents d
    pub writes : (d : S) (buf : Bytes) → (sys.write_fd d buf).0 ≡ pos (length buf)
    pub write_holds :
        (d : S) (buf : Bytes)
        → contents (sys.write_fd d buf).1 ≡ stored (position d) buf (contents d)
    pub reads :
        (d : S) (n : ℕ)
        → (sys.read_fd d n).0 ≡ (
          pos (length (take n (drop (position d) (contents d)))),
          take n (drop (position d) (contents d)),
        )
    pub read_keeps : (d : S) (n : ℕ) → contents (sys.read_fd d n).1 ≡ contents d

  -- Over such a system the standard VFS stores what it is given, at the offset that it is given, and
  -- reads it from there, wherever the descriptor was before.
  pub bcio-Stores :
      (contents : S → Bytes) (position : S → ℕ) → IsFile contents position → Stores bcio contents
  unfolding bcio bc_read bc_write
  bcio-Stores contents position file = record {
    takes_all = λ d buf o. rw (file.seeks d o, file.writes (sys.lseek d (pos o)).1 buf) refl;
    holds = λ d buf o. rw (file.seeks d o) (
        file.write_holds (sys.lseek d (pos o)).1 buf
        ∙ rw (file.seeks_to d o, file.seek_keeps d o) refl);
    gives = λ d n o.
        rw (file.seeks d o, file.reads (sys.lseek d (pos o)).1 n)
          (rw (file.seeks_to d o, file.seek_keeps d o) refl);
    keeps = λ d n o.
        rw (file.seeks d o) (file.read_keeps (sys.lseek d (pos o)).1 n ∙ file.seek_keeps d o);
  }
