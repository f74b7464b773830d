-- ===== src/Logging/Files.antt =====
-- The log files of src/logging/logging.c: a file of a collection is known by its number, 0 for the
-- one that is written to, and by its size. Opening and renaming a file that is there succeed. The
-- numbers, of type `int`, are natural numbers here.
use bctoolbox.Common.{
  ℕ, zero, suc, ◌+◌, ◌-◌, ◌≤◌, ◌<◌, ◌^◌, ◌≡◌, refl, ◌∙◌, inl, inr, Bool, true, false, ◌&&◌, ◌||◌,
  Option, none, some, arith, ltb, leb, ◌==◌, if◌then◌else◌, Bool-cases,
}
use bctoolbox.Common.Int.{ℤ, pos, ltb_ℤ, pos_part}

abbrev pub Disk : Type 0
Disk = ℕ → Option ℕ

abbrev pub exists : Disk → ℕ → Bool
exists fs n = elim (fs n) [ none ↦ false | some size ↦ true ]

abbrev pub rename : (from to : ℕ) → Disk → Disk
rename from to fs i = elim (fs from) [
  | none ↦ fs i
  | some size ↦ if i == to then some size else if i == from then none else fs i
]

-- The loops of `_rotate_log_collection_files`.
unfoldable pub first_free : (fuel n : ℕ) → Disk → Option ℕ
first_free zero n fs = none
first_free (suc fuel) n fs = if exists fs n then first_free fuel (n + 1) fs else some n

unfoldable pub shift : (n : ℕ) → Disk → Disk
shift zero fs = fs
shift (suc zero) fs = fs
shift (suc (suc n)) fs = shift (suc n) (rename (suc n) (suc (suc n)) fs)

unfoldable pub rotate_files : (fuel : ℕ) → Disk → Option Disk
rotate_files fuel fs = elim (first_free fuel 1 fs) [
  | none ↦ none
  | some n ↦ some (rename 0 1 (shift n fs))
]

-- Each file up to number `n` is one further.
abbrev pub rotated : (n : ℕ) → Disk → Disk
rotated n fs i = if i == 0 then none else if leb i n then fs (i - 1) else fs i

abbrev shifted : (n : ℕ) → Disk → Disk
shifted n fs i =
    if i == 0 then fs 0 else if i == 1 then none else if leb i n then fs (i - 1) else fs i

there_is :
    (o : Option ℕ)
    → (elim o as (λ o. Bool) [ none ↦ false | some size ↦ true ]) ≡ true
    → (size : ℕ) × (o ≡ some size)
there_is none h = cc
there_is (some size) h = (size, refl)

rename-there :
    (from to : ℕ) (fs : Disk) (size : ℕ)
    → fs from ≡ some size
    → (i : ℕ)
    → rename from to fs i ≡ (if i == to then some size else if i == from then none else fs i)
rename-there from to fs size there i = rw (there, rename) refl

shift-shifted :
    (n : ℕ) (fs : Disk)
    → fs (suc n) ≡ none
    → ((i : ℕ) → 1 ≤ i → i ≤ n → exists fs i ≡ true)
    → (i : ℕ) → shift (suc n) fs i ≡ shifted (suc n) fs i
unfolding shift
shift-shifted zero fs free taken i = ground arith
shift-shifted (suc n) fs free taken i =
    let (size, there) = there_is (fs (suc n)) (taken (suc n) (omega arith) (omega arith)) in
    let after = rename-there (suc n) (suc (suc n)) fs size there in
    shift-shifted n (rename (suc n) (suc (suc n)) fs) (after (suc n) ∙ ground arith)
      (λ j le lt. ground (arith, after j, taken j)) i
    ∙ ground (arith, after 0, after (i - 1), after i)

-- The first number from `n` on that no file has.
record IsFirstFree (n : ℕ) (fs : Disk) (m : ℕ) : Type 0 where
  from : n ≤ m
  free : fs m ≡ none
  taken : (i : ℕ) → n ≤ i → i < m → exists fs i ≡ true

absent :
    (o : Option ℕ) → (elim o as (λ o. Bool) [ none ↦ false | some size ↦ true ]) ≡ false → o ≡ none
absent none h = refl
absent (some size) h = cc

first_free-IsFirstFree :
    (fuel n k : ℕ) (fs : Disk)
    → exists fs (n + k) ≡ false
    → k < fuel
    → (m : ℕ) × (first_free fuel n fs ≡ some m) × IsFirstFree n fs m
unfolding first_free
first_free-IsFirstFree zero n k fs free enough = absurd (omega arith)
first_free-IsFirstFree (suc fuel) n zero fs free enough =
    let here : exists fs n ≡ false = let e : n + 0 ≡ n = omega arith in rw e at free in
    rw here (
      n,
      refl,
      record {
        from = omega arith;
        free = absent (fs n) here;
        taken = λ i le lt. absurd (omega arith);
      },
    )
first_free-IsFirstFree (suc fuel) n (suc k) fs free enough = elim (Bool-cases (exists fs n)) [
  | inr here ↦ rw here (
    n,
    refl,
    record {
      from = omega arith;
      free = absent (fs n) here;
      taken = λ i le lt. absurd (omega arith);
    },
  )
  | inl there ↦
      let e : n + suc k ≡ n + 1 + k = omega arith in
      let (m, found, first) =
        first_free-IsFirstFree fuel (n + 1) k fs (rw e at free) (omega arith) in
      rw there (
        m,
        found,
        record {
          from = omega (arith, first.from);
          free = first.free;
          taken = λ i le lt. elim (Bool-cases (i == n)) [
            | inl same ↦ let e : i ≡ n = ground arith in rw e there
            | inr other ↦ first.taken i (ground arith) lt
          ];
        },
      )
]

renamed :
    (n : ℕ) (fs : Disk) → IsFirstFree 1 fs n → (i : ℕ) → rename 0 1 (shift n fs) i ≡ rotated n fs i
renamed zero fs first i = absurd (omega (arith, first.from))
renamed (suc n) fs first i = by_current (fs 0) refl
  where
    moved : (j : ℕ) → shift (suc n) fs j ≡ shifted (suc n) fs j
    moved = shift-shifted n fs first.free λ j le lt. first.taken j le (omega arith)

    by_current : (o : Option ℕ) → fs 0 ≡ o → rename 0 1 (shift (suc n) fs) i ≡ rotated (suc n) fs i
    by_current none empty = rw (moved 0 ∙ empty, rename) (ground (arith, moved i, empty))
    by_current (some size) there =
        rename-there 0 1 (shift (suc n) fs) size (moved 0 ∙ there) i
        ∙ ground (arith, moved i, there)

-- What the rotation does where the number `1 + k` is free.
pub record Rotated (k : ℕ) (fs : Disk) (after : Option Disk) : Type 0 where
  pub n : ℕ
  pub moved : Disk
  pub ends : after ≡ some moved
  pub from : 1 ≤ n
  pub within : n ≤ 1 + k
  pub free : fs n ≡ none
  pub taken : (i : ℕ) → 1 ≤ i → i < n → exists fs i ≡ true
  pub each : (i : ℕ) → moved i ≡ rotated n fs i

pub rotate_files-Rotated :
    (fuel k : ℕ) (fs : Disk)
    → exists fs (1 + k) ≡ false
    → k < fuel
    → Rotated k fs (rotate_files fuel fs)
unfolding rotate_files
rotate_files-Rotated fuel k fs free enough =
    let (n, found, first) = first_free-IsFirstFree fuel 1 k fs free enough in
    record {
      n = n;
      moved = rename 0 1 (shift n fs);
      ends = rw (found, rotate_files) refl;
      from = first.from;
      within = ground (arith, first.taken (1 + k));
      free = first.free;
      taken = first.taken;
      each = renamed n fs first;
    }

-- `_rotate_log_collection_files`, where some number that the fuel reaches and that is below 2^31 is
-- free, ends: up to the first free number, which is below 2^31, each file moves one further, none is
-- lost, the current one becomes number 1 and its place is free; the files beyond stay.
pub rotate_files-rotated :
    (fuel k : ℕ) (fs : Disk)
    → exists fs (1 + k) ≡ false
    → k < fuel
    → 1 + k < 2 ^ 31
    → (n : ℕ) × (g : Disk) × (rotate_files fuel fs ≡ some g)
      × (1 ≤ n)
      × (n < 2 ^ 31)
      × (fs n ≡ none)
      × ((i : ℕ) → 1 ≤ i → i < n → exists fs i ≡ true)
      × ((i : ℕ) → g i ≡ rotated n fs i)
rotate_files-rotated fuel k fs free enough small =
    let r = rotate_files-Rotated fuel k fs free enough in
    (r.n, r.moved, r.ends, r.from, omega (arith, r.within), r.free, r.taken, r.each)

-- `bctbx_file_log_handler_t`. `file` is NULL, an open file, or one that was closed and is still
-- pointed at.
pub data Stream : Type 0 where
  null : Stream
  opened : Stream
  dangling : Stream

pub record FileHandler : Type 0 where
  pub max_size : ℕ
  pub size : ℕ
  pub file : Stream
  pub reopen_requested : Bool

abbrev pub size_of : Option ℕ → ℕ
size_of none = 0
size_of (some size) = size

-- `fopen` to append makes the file where it is missing.
abbrev pub create : Disk → Disk
create fs i = if i == 0 then some (size_of (fs 0)) else fs i

-- The result is whether it succeeds.
unfoldable pub try_open : FileHandler → Disk → Bool × FileHandler × Disk
try_open fh fs =
    if ltb fh.max_size (size_of (fs 0))
    then (false, record fh { file = dangling }, create fs)
    else (true, record fh { file = opened; size = size_of (fs 0) }, create fs)

unfoldable pub open_file : (fuel : ℕ) → FileHandler → Disk → Option (FileHandler × Disk)
open_file fuel fh fs =
    let (fine, fh1, fs1) = try_open fh fs in
    if fine then some (fh1, fs1) else elim (rotate_files fuel fs1) [
      | none ↦ none
      | some fs2 ↦ let (_, fh3, fs3) = try_open fh1 fs2 in some (fh3, fs3)
    ]

abbrev pub is_null : Stream → Bool
is_null null = true
is_null _ = false

unfoldable pub close_file : FileHandler → FileHandler
close_file fh = if is_null fh.file then fh else record fh { file = null; size = 0 }

-- What `fprintf` returned, added to the file and to the size that is kept.
abbrev pub written : ℕ → Disk → Disk
written n fs i = if i == 0 then some (size_of (fs 0) + n) else fs i

abbrev pub counted : ℤ → FileHandler → FileHandler
counted ret fh =
    if ltb 0 fh.max_size && ltb_ℤ (pos 0) ret
    then record fh { size = fh.size + pos_part ret }
    else fh

abbrev pub too_large : ℤ → FileHandler → Bool
too_large ret fh =
    ltb 0 fh.max_size && (ltb_ℤ (pos 0) ret && ltb fh.max_size (fh.size + pos_part ret))

unfoldable pub logv_file : (fuel : ℕ) → (ret : ℤ) → FileHandler → Disk → Option (FileHandler × Disk)
logv_file fuel ret fh fs =
    if is_null fh.file
    then some (fh, fs)
    else if fh.reopen_requested || too_large ret fh
    then elim (open_file fuel (close_file (counted ret fh)) (written (pos_part ret) fs)) [
      | none ↦ none
      | some (fh2, fs2) ↦ some (record fh2 { reopen_requested = false }, fs2)
    ]
    else some (counted ret fh, written (pos_part ret) fs)
