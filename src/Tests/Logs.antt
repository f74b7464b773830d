-- ===== src/Tests/Logs.antt =====
-- The theorems about src/logging/logging.c at concrete loggers and files.
use bctoolbox.Common.{
  ◌≤◌, ◌^◌, true, ℕ, ◌<◌, ◌≡◌, refl, inl, false, none, some, [], ◌∷◌, ◌++◌, arith, ◌==◌,
  if◌then◌else◌,
}
use bctoolbox.Common.Int.{pos}
use bctoolbox.Logging.{Bytes, debug, error, Logger, new_logger, log_level_enabled, get_log_domain}
use bctoolbox.Logging.Messages.{calls_direct, calls_of_all, logv}
use bctoolbox.Logging.Delivery.{Message, log_all, enabled, logv-order}
use bctoolbox.Logging.Strings.{strdup_vprintf, strdup_vprintf-fits}
use bctoolbox.Logging.Files.{
  Disk, exists, rotated, rotate_files, rotate_files-rotated, FileHandler, opened, logv_file,
}
use bctoolbox.Logging.Bounded.{IsOpen, logv_file-IsOpen}

-- A format prints itself; there are no arguments.
abbrev plain : Bytes → Unit {0} → Bytes
plain fmt args = fmt

-- Thread 7 is the log thread; one handler takes every domain, one only "a".
abbrev lg : Logger (Unit {0})
lg =
    record (new_logger (
      record { address = 1; domain = none }
      ∷ record { address = 2; domain = some (b'a' ∷ []) }
      ∷ [])) { log_thread_id = 7 }

abbrev hello : Message (Unit {0})
hello = record { domain = none; level = error; fmt = b'h' ∷ []; args = tt }

abbrev quiet : Message (Unit {0})
quiet = record { domain = none; level = debug; fmt = b'q' ∷ []; args = tt }

logv-order_example :
    logv plain tt 7 none error (b'h' ∷ []) tt (log_all plain tt 3 (hello ∷ quiet ∷ []) lg)
    ≡ record lg {
      stored = [];
      calls =
          lg.calls
          ++ calls_of_all plain tt lg.handlers
              (lg.stored ++ enabled plain tt lg 3 (hello ∷ quiet ∷ []))
          ++ calls_direct plain tt lg.handlers none error (b'h' ∷ []) tt;
    }
unfolding new_logger log_level_enabled get_log_domain
logv-order_example =
    logv-order plain tt 3 (hello ∷ quiet ∷ []) hello lg refl (omega arith) (omega arith) refl refl

-- A text of 500 bytes, whose length is told.
strdup_vprintf-fits_example : (s : ℕ) × (strdup_vprintf 501 (λ size. pos 500) ≡ some s) × (500 < s)
strdup_vprintf-fits_example =
    strdup_vprintf-fits (λ size. pos 500) 500 (λ size. inl refl) (omega arith)

-- The current file, with 90 bytes, and one older file.
abbrev disk : Disk
disk i = if i == 0 then some 90 else if i == 1 then some 70 else none

abbrev handler : FileHandler
handler = record { max_size = 100; size = 90; file = opened; reopen_requested = false }

rotate_files-rotated_example :
    (n : ℕ) × (g : Disk) × (rotate_files 2 disk ≡ some g)
    × (1 ≤ n)
    × (n < 2 ^ 31)
    × (disk n ≡ none)
    × ((i : ℕ) → 1 ≤ i → i < n → exists disk i ≡ true)
    × ((i : ℕ) → g i ≡ rotated n disk i)
rotate_files-rotated_example = rotate_files-rotated 2 1 disk refl (omega arith) (omega arith)

logv_file-IsOpen_example :
    (w : FileHandler × Disk) × (logv_file 2 (pos 20) handler disk ≡ some w) × IsOpen w
logv_file-IsOpen_example =
    logv_file-IsOpen 2 1 (pos 20) handler disk
      (record { open_now = refl; same_size = refl; bounded = omega arith }) (omega arith) refl
      (omega arith)
