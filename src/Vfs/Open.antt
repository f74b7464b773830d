-- ===== src/Vfs/Open.antt =====
-- src/vfs/vfs.c, continued: modes, opening, and the default VFS.
use bctoolbox.Common.{
  ℕ, ◌+◌, zero, suc, Bool, true, false, Option, none, some, [], ◌∷◌, ◌++◌, ◌≡◌, refl, ap, inl, inr,
  Bool-cases, ◌==◌, if◌then◌else◌,
}
use bctoolbox.Common.Int.{ℤ, pos, ◌==ℤ◌}
use bctoolbox.Vfs.{Bytes, File, ok, printf_page_size, getline_page_size}

-- The flags of `open`.
pub data Access : Type 0 where
  rdonly : Access
  wronly : Access
  rdwr : Access

pub record Flags : Type 0 where
  pub access : Access
  pub creat : Bool
  pub trunc : Bool
  pub app : Bool

abbrev flags : Access → (creat trunc app : Bool) → Flags
flags a c t p = record { access = a; creat = c; trunc = t; app = p }

-- The loop that drops a `b`: it leaves `clean_mode[i]` zero and does not go past the character.
unfoldable pub clean_mode : (rounds : ℕ) → Bytes → Bytes
clean_mode zero mode = []
clean_mode (suc k) [] = []
clean_mode (suc k) (c ∷ mode) =
    if c == b'b' then 0 ∷ clean_mode k (c ∷ mode) else c ∷ clean_mode k mode

-- A buffer as a C string: up to the first zero.
abbrev pub c_string : Bytes → Bytes
c_string [] = []
c_string (c ∷ s) = if c == 0 then [] else c ∷ c_string s

-- `none` is the fatal error of a mode that is not supported.
abbrev pub mode_flags : Bytes → Option Flags
mode_flags (c ∷ []) =
    if c == b'r'
    then some (flags rdonly false false false)
    else if c == b'w'
    then some (flags wronly true true false)
    else if c == b'a'
    then some (flags wronly false false true)
    else none
mode_flags (c ∷ d ∷ []) =
    if d == b'+'
    then if c == b'r'
      then some (flags rdwr false false false)
      else if c == b'w'
      then some (flags rdwr true false false)
      else if c == b'a'
      then some (flags rdwr false false true)
      else none
    else none
mode_flags _ = none

unfoldable pub set_flags : Bytes → Option Flags
set_flags mode = mode_flags (c_string (clean_mode 3 mode))

-- `pFuncOpen` of a VFS, with its status and the state below the file.
abbrev pub OpenFunc : Type 0 → Type 0
OpenFunc S = (name : Bytes) → Flags → ℤ × S

abbrev pub zeros : ℕ → Bytes
zeros zero = []
zeros (suc n) = 0 ∷ zeros n

-- The file as `memset` leaves it.
abbrev pub fresh_file : {S : Type 0} → S → File S
fresh_file d = record {
  disk = d;
  offset = pos 0;
  f_page = zeros printf_page_size;
  f_page_offset = pos 0;
  f_size = 0;
  g_page = zeros (getline_page_size + 1);
  g_page_offset = pos 0;
  g_size = 0;
}

module _ {S : Type 0} where
  -- A missing VFS is an error, and so is every negative status.
  unfoldable pub open_file : Option (OpenFunc S) → Bytes → Flags → Option (File S)
  open_file none name oflags = none
  open_file (some open_func) name oflags =
      let (ret, d) = open_func name oflags in if ret ==ℤ ok then some (fresh_file d) else none

  unfoldable pub open2 : Option (OpenFunc S) → Bytes → Flags → Option (File S)
  open2 vfs name oflags = open_file vfs name oflags

  -- The outer `none` is the fatal error of the mode.
  unfoldable pub open_mode : Option (OpenFunc S) → (name mode : Bytes) → Option (Option (File S))
  open_mode vfs name mode = elim (set_flags mode) [
    | none ↦ none
    | some oflags ↦ some (open_file vfs name oflags)
  ]

clean_mode-b :
    (k : ℕ) (mode rest : Bytes)
    → c_string (clean_mode k (mode ++ b'b' ∷ rest)) ≡ c_string (clean_mode k mode)
unfolding clean_mode
clean_mode-b zero mode rest = refl
clean_mode-b (suc k) [] rest = refl
clean_mode-b (suc k) (c ∷ mode) rest = elim (Bool-cases (c == b'b')) [
  | inl hit ↦ rw hit
  | inr miss ↦ rw (miss, clean_mode-b k mode rest)
]

-- From the first `b` on, the mode of `bctbx_file_open` is not read: "rb+" opens as "r" does.
pub set_flags-b : (mode rest : Bytes) → set_flags (mode ++ b'b' ∷ rest) ≡ set_flags mode
unfolding set_flags
set_flags-b mode rest = ap mode_flags (clean_mode-b 3 mode rest)
